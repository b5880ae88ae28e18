-- ===== src/Introdb/Lookup.antt =====
-- Asking for a title's record: `GetMedia` of internal/introdb/client.go, its errors (errors.go) and
-- its cache (cache.go). HTTP and JSON are outside: a `Reply` has what they give. Of an error, that
-- is made with `%w`, only what it wraps is kept.
pub mod Cached
mod Tests
use streamly.Prelude.{
  ℕ, zero, suc, ◌+◌, ◌/◌, ◌%◌, Bool, true, false, ◌&&◌, ◌||◌, Option, none, some, List, [], ◌∷◌,
  ◌++◌, if◌then◌else◌, ◌==◌, leb,
}
use streamly.Prelude.Text.{trim_space, Text, codes, contains, eq_text, is_empty}
use streamly.Prelude.Signed.{ℤ, pos, pos_part, neg_part, ◌+ℤ◌, ltb_ℤ, leb_ℤ}
use streamly.Introdb.Record.{MediaRecord, MediaResponseRaw, parse_media_response}

pub record MediaQuery : Type 0 where
  pub tmdb_id : ℤ
  pub imdb_id : Text
  pub season : ℤ
  pub episode : ℤ
  pub duration_ms : ℤ

pub data Error : Type 0 where
  unauthorized rate_limited blocked not_found account_locked no_intro_data id_required : Error
  api_error : ℕ → Error
  outside : ℕ → Error

pub data Result (A : Type 0) : Type 0 where
  ok : A → Result A
  err : Error → Result A

-- A failed request, or the status, the body and what `json.Unmarshal` makes of it.
pub data Reply : Type 0 where
  unanswered : ℕ → Reply
  answered : ℕ → Text → Option MediaResponseRaw → Reply

unfoldable pub is_cloudflare_challenge : Text → Bool
is_cloudflare_challenge body =
    contains body (codes "Just a moment") || contains body (codes "<!DOCTYPE html>")

unfoldable pub api_error_from_status : ℕ → Text → Error
api_error_from_status status body =
    if is_cloudflare_challenge body
    then blocked
    else if status == 401
    then unauthorized
    else if status == 403
    then account_locked
    else if status == 404
    then not_found
    else if status == 429
    then rate_limited
    else api_error status

abbrev pub lacks_id : ℤ → Text → Bool
lacks_id tmdb_id imdb_id = leb_ℤ tmdb_id (pos 0) && is_empty (trim_space imdb_id)

unfoldable pub get_media : MediaQuery → Reply → Result MediaRecord
get_media query reply =
    if lacks_id query.tmdb_id query.imdb_id then err id_required else elim reply [
      | unanswered k ↦ err (outside k)
      | answered status body raw ↦
          if status == 200
          then elim raw [ none ↦ err (outside 0) | some r ↦ ok (parse_media_response r) ]
          else err (api_error_from_status status body)
    ]

unfoldable pub map_get_media_error : Error → Error
map_get_media_error not_found = no_intro_data
map_get_media_error e = e

unfoldable pub query_for_title : ℤ → Text → ℤ → ℤ → Option ℤ → Result MediaQuery
query_for_title tmdb_id imdb_id season episode duration_ms =
    if lacks_id tmdb_id imdb_id
    then err id_required
    else ok (record {
      tmdb_id = tmdb_id;
      imdb_id = trim_space imdb_id;
      season = season;
      episode = episode;
      duration_ms = elim duration_ms [ none ↦ pos 0 | some d ↦ d ];
    })

-- `%d`. A digit is taken off in each round, so the number itself is fuel enough.
abbrev pub digits : ℕ → ℕ → Text → Text
digits zero n rest = rest
digits (suc fuel) n rest =
    let front = digits fuel (n / 10) ((48 + n % 10) ∷ rest) in if n == 0 then rest else front

abbrev pub decimal : ℕ → Text
decimal n = if n == 0 then codes "0" else digits n n []

abbrev pub format_int : ℤ → Text
format_int (pos n) = decimal n
format_int n = codes "-" ++ decimal (neg_part n)

unfoldable pub cache_key : MediaQuery → Text
cache_key q =
    codes "tmdb:"
    ++ format_int q.tmdb_id
    ++ codes ":imdb:"
    ++ q.imdb_id
    ++ (if ltb_ℤ (pos 0) q.season && ltb_ℤ (pos 0) q.episode
        then codes ":s" ++ format_int q.season ++ codes "e" ++ format_int q.episode
        else [])
    ++ (if ltb_ℤ (pos 0) q.duration_ms then codes ":d" ++ format_int q.duration_ms else [])

pub record CacheEntry : Type 0 where
  pub key : Text
  pub media : MediaRecord
  pub expires_at : ℤ

-- The map, the last entry of a key first.
abbrev pub Cache : Type 0
Cache = List CacheEntry

unfoldable pub lookup : Cache → Text → Option CacheEntry
lookup [] key = none
lookup (e ∷ cache) key = let rest = lookup cache key in if eq_text e.key key then some e else rest

-- Six hours.
abbrev pub intro_cache_ttl : ℤ
intro_cache_ttl = pos 21_600_000_000_000

-- The cached record that `GetMedia` answers at the time `now`, if there is one.
unfoldable pub fresh : Cache → Text → ℤ → Option MediaRecord
fresh cache key now = elim (lookup cache key) [
  | none ↦ none
  | some e ↦ if ltb_ℤ now e.expires_at then some e.media else none
]

-- The reply is that to the request, if one is made; it is stored at the time `later`.
unfoldable pub get_media_cached : Cache → MediaQuery → ℤ → Reply → ℤ → Result MediaRecord × Cache
get_media_cached cache query now reply later = elim (fresh cache (cache_key query) now) [
  | some r ↦ (ok r, cache)
  | none ↦ elim (get_media query reply) [
    | err e ↦ (err e, cache)
    | ok r ↦ (
      ok r,
      record { key = cache_key query; media = r; expires_at = later +ℤ intro_cache_ttl } ∷ cache,
    )
  ]
]
