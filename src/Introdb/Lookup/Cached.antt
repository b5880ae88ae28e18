-- ===== src/Introdb/Lookup/Cached.antt =====
-- What the cache does to a series of lookups, and which errors the bot sees.
use streamly.Prelude.{
  ℕ, ◌≡◌, ◌↔◌, ◌⊎◌, inl, inr, refl, sym, true, false, Option, none, some, ◌∷◌, if_split,
  Option_split, arith, ◌==◌,
}
use streamly.Prelude.Text.{Text, eq_text_refl}
use streamly.Prelude.Signed.{ℤ, pos, ◌+ℤ◌, ◌<ℤ◌, ◌≤ℤ◌, ltb_ℤ}
use mathlib.Core.Path.{subst}
use streamly.Introdb.Record.{MediaRecord, MediaResponseRaw}
use streamly.Introdb.Lookup.{
  MediaQuery, Error, no_intro_data, Result, ok, err, Reply, unanswered, answered,
  is_cloudflare_challenge, api_error_from_status, lacks_id, get_media, map_get_media_error,
  cache_key, CacheEntry, Cache, lookup, intro_cache_ttl, fresh, get_media_cached,
}

-- The cache has a record for the key that has not expired, or it has none.
abbrev pub IsHit : Cache → Text → ℤ → MediaRecord → Type 0
IsHit cache key now r =
    (e : CacheEntry) × ((lookup cache key ≡ some e) × ((now <ℤ e.expires_at) × (e.media ≡ r)))

abbrev pub IsMiss : Cache → Text → ℤ → Type 0
IsMiss cache key now = (e : CacheEntry) → lookup cache key ≡ some e → e.expires_at ≤ℤ now

-- The record is given again, whatever the service would answer, until six hours (in nanoseconds)
-- after `later`; from then on the service is asked.
abbrev pub IsStored : Cache → MediaQuery → MediaRecord → ℤ → Type 0
IsStored after query r later =
    (t : ℤ) (reply : Reply) (t' : ℤ)
    → (t <ℤ (later +ℤ pos 21_600_000_000_000)
        → get_media_cached after query t reply t' ≡ (ok r, after))
      × ((later +ℤ pos 21_600_000_000_000) ≤ℤ t
          → (get_media_cached after query t reply t').0 ≡ get_media query reply)

abbrev pub Remembers : Cache → MediaQuery → ℤ → Reply → ℤ → Result MediaRecord × Cache → Type 0
Remembers cache query now reply later (err e, after) =
    IsMiss cache (cache_key query) now × ((get_media query reply ≡ err e) × (after ≡ cache))
Remembers cache query now reply later (ok r, after) =
    (IsHit cache (cache_key query) now r × (after ≡ cache))
    ⊎ (IsMiss cache (cache_key query) now
        × ((get_media query reply ≡ ok r) × IsStored after query r later))

lookup-first : (e : CacheEntry) (cache : Cache) → lookup (e ∷ cache) e.key ≡ some e
unfolding lookup
lookup-first e cache = simp (eq_text_refl e.key)

stored-fresh :
    (cache : Cache) (e : CacheEntry) (t : ℤ)
    → t <ℤ e.expires_at
    → fresh (e ∷ cache) e.key t ≡ some e.media
unfolding fresh
stored-fresh cache e t h =
    let before : ltb_ℤ t e.expires_at ≡ true = ground (arith, h) in
    rw (lookup-first e cache, fresh, before) refl

Result_split :
    {A : Type 0} (P : A → Type 0) (x : Result MediaRecord) {f : MediaRecord → A} {g : Error → A}
    → ((r : MediaRecord) → x ≡ ok r → P (f r))
    → ((e : Error) → x ≡ err e → P (g e))
    → P (elim x as (λ _. A) [ ok r ↦ f r | err e ↦ g e ])
Result_split P (ok r) h k = h r refl
Result_split P (err e) h k = k e refl

hit :
    (cache : Cache) (query : MediaQuery) (r : MediaRecord) (t : ℤ) (reply : Reply) (t' : ℤ)
    → fresh cache (cache_key query) t ≡ some r
    → get_media_cached cache query t reply t' ≡ (ok r, cache)
unfolding get_media_cached
hit cache query r t reply t' e = rw (e, get_media_cached) refl

fresh-IsHit :
    (cache : Cache) (key : Text) (now : ℤ) (r : MediaRecord)
    → fresh cache key now ≡ some r
    → IsHit cache key now r
unfolding fresh
fresh-IsHit cache key now r =
    Option_split (λ o. o ≡ some r → IsHit cache key now r) (lookup cache key) (λ _ f. absurd (cc f))
      (λ e f.
        if_split (λ o. o ≡ some r → IsHit cache key now r) (ltb_ℤ now e.expires_at)
          (λ before g. (e, (f, (ground (arith, before), some-injective g)))) (λ _ g. absurd (cc g)))
  where
    some-injective : {x y : MediaRecord} → some x ≡ some y → x ≡ y
    some-injective e = cc e

fresh-IsMiss :
    (cache : Cache) (key : Text) (now : ℤ) → fresh cache key now ≡ none → IsMiss cache key now
unfolding fresh
fresh-IsMiss cache key now =
    Option_split (λ o. o ≡ none → IsMiss cache key now) (lookup cache key)
      (λ f _ e g. absurd (cc (f, g)))
      (λ d f.
        if_split (λ o. o ≡ none → IsMiss cache key now) (ltb_ℤ now d.expires_at)
          (λ _ g. absurd (cc g))
          (λ before _ e g.
            let late : d.expires_at ≤ℤ now = ground (arith, before) in
            subst (λ (x : CacheEntry). x.expires_at ≤ℤ now) (same d e f g) late))
  where
    same : {o : Option CacheEntry} (x y : CacheEntry) → o ≡ some x → o ≡ some y → x ≡ y
    same x y e f = cc (e, f)

expired :
    (cache : Cache) (e : CacheEntry) (t : ℤ) → e.expires_at ≤ℤ t → fresh (e ∷ cache) e.key t ≡ none
unfolding fresh
expired cache e t h =
    let after : ltb_ℤ t e.expires_at ≡ false = ground (arith, h) in
    rw (lookup-first e cache, fresh, after) refl

miss :
    (cache : Cache) (query : MediaQuery) (t : ℤ) (reply : Reply) (t' : ℤ)
    → fresh cache (cache_key query) t ≡ none
    → (get_media_cached cache query t reply t').0 ≡ get_media query reply
unfolding get_media_cached
miss cache query t reply t' e =
    rw (e, get_media_cached)
      (Result_split {A = Result MediaRecord × Cache} (λ x. x.0 ≡ get_media query reply)
        (get_media query reply) (λ r f. sym f) (λ k f. sym f))

-- A lookup gives the cache's record for the query, if it has one that has not expired, and leaves
-- the cache. Otherwise it gives what the service answers: an error leaves the cache; a record is
-- given again for the same query, whatever the service would answer, at every time before six hours
-- after it was stored, and at none after them, where the service is asked.
pub get_media_cached-Remembers :
    (cache : Cache) (query : MediaQuery) (now : ℤ) (reply : Reply) (later : ℤ)
    → Remembers cache query now reply later (get_media_cached cache query now reply later)
unfolding get_media_cached
get_media_cached-Remembers cache query now reply later =
    let P : Result MediaRecord × Cache → Type 0 = Remembers cache query now reply later in
    Option_split {A = Result MediaRecord × Cache} P (fresh cache (cache_key query) now)
      (λ none_there.
        let m : IsMiss cache (cache_key query) now =
          fresh-IsMiss cache (cache_key query) now none_there in
        Result_split {A = Result MediaRecord × Cache} P (get_media query reply)
          (λ r f.
            let e : CacheEntry = record {
              key = cache_key query;
              media = r;
              expires_at = later +ℤ intro_cache_ttl;
            } in
            inr (
              m,
              (
                f,
                (λ t reply' t'. (
                  (λ h. hit (e ∷ cache) query r t reply' t' (stored-fresh cache e t h)),
                  (λ h. miss (e ∷ cache) query t reply' t' (expired cache e t h)),
                )),
              ),
            ))
          (λ k f. (m, (f, refl))))
      (λ r e. inl (fresh-IsHit cache (cache_key query) now r e, refl))

-- The service's answer was that it knows no such title.
abbrev pub IsUnknown : MediaQuery → Reply → Type 0
IsUnknown query (unanswered k) = ⊥
IsUnknown query (answered status body raw) =
    (lacks_id query.tmdb_id query.imdb_id ≡ false)
    × (status ≡ 404)
    × (is_cloudflare_challenge body ≡ false)

abbrev pub map_result : Result MediaRecord → Result MediaRecord
map_result (ok r) = ok r
map_result (err e) = err (map_get_media_error e)

abbrev Reports : MediaQuery → Reply → Result MediaRecord → Type 0
Reports query reply r = (map_result r ≡ err no_intro_data) ↔ IsUnknown query reply

api_error-Reports :
    (query : MediaQuery) (status : ℕ) (body : Text) (raw : Option MediaResponseRaw)
    → lacks_id query.tmdb_id query.imdb_id ≡ false
    → Reports query (answered status body raw) (err (api_error_from_status status body))
unfolding api_error_from_status map_get_media_error
api_error-Reports query status body raw l =
    let P : Error → Type 0 = λ e. Reports query (answered status body raw) (err e) in
    if_split P (is_cloudflare_challenge body)
      (λ e. ((λ f. absurd (cc f)), (λ u. absurd (cc (e, u.2)))))
      (λ c.
        if_split P (status == 401)
          (λ e. ((λ f. absurd (cc f)), (λ u. absurd (ground (arith, e, u)))))
          (λ _.
            if_split P (status == 403)
              (λ e. ((λ f. absurd (cc f)), (λ u. absurd (ground (arith, e, u)))))
              (λ _.
                if_split P (status == 404) (λ e. ((λ _. (l, ground (arith, e), c)), (λ _. refl)))
                  (λ g.
                    if_split P (status == 429)
                      (λ e. ((λ f. absurd (cc f)), (λ u. absurd (ground (arith, e, u)))))
                      (λ _. ((λ f. absurd (cc f)), (λ u. absurd (ground (arith, g, u)))))))))

-- A lookup, with its error mapped, says that there is no intro data exactly if the query has an id
-- and the service answered 404 with a body that is no challenge page.
pub get_media-no_intro_data :
    (query : MediaQuery) (reply : Reply)
    → (map_result (get_media query reply) ≡ err no_intro_data) ↔ IsUnknown query reply
unfolding get_media map_get_media_error
get_media-no_intro_data query (unanswered k) =
    if_split (Reports query (unanswered k)) (lacks_id query.tmdb_id query.imdb_id)
      (λ _. ((λ f. absurd (cc f)), (λ u. absurd u))) (λ _. ((λ f. absurd (cc f)), (λ u. absurd u)))
get_media-no_intro_data query (answered status body raw) =
    let P : Result MediaRecord → Type 0 = Reports query (answered status body raw) in
    if_split P (lacks_id query.tmdb_id query.imdb_id)
      (λ e. ((λ f. absurd (cc f)), (λ u. absurd (cc (e, u.0)))))
      (λ l.
        if_split P (status == 200)
          (λ e.
            Option_split P raw (λ _. ((λ f. absurd (cc f)), (λ u. absurd (ground (arith, e, u)))))
              (λ r _. ((λ f. absurd (cc f)), (λ u. absurd (ground (arith, e, u))))))
          (λ _. api_error-Reports query status body raw l))
