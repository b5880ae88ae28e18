-- ===== src/Captions/Fetch.antt =====
-- `SubDLClient.Download` of internal/captions/subdl.go, fetcher.go, and the choice of a sidecar
-- file in febbox.go. What a provider, the service and the files answer is a parameter.
pub mod First
use streamly.Prelude.{
  ℕ, Bool, true, false, not, ◌&&◌, ◌||◌, Option, none, some, List, [], ◌∷◌, ◌++◌, map,
  if◌then◌else◌, ◌==◌, length, take, ◌-◌,
}
use streamly.Prelude.Text.{
  Text, codes, eq_text, is_empty, has_suffix, to_lower, trim_space, is_space,
}
use streamly.Prelude.Signed.{ℤ, pos, ltb_ℤ, eq_ℤ}
use streamly.Media.Qualities.{mem_text}
use streamly.Captions.Language.{has_foreign_language_name}
use streamly.Captions.SubDl.Resolve.{
  Query, Error, err_no_font, err_no_subtitle, err_unconfigured, err_failed, err_unauthorized,
  err_rate_limited, Search, Resolved, paths, failed, resolve_paths,
}
use streamly.Captions.Subtitle.{
  Bytes, Library, ZipFile, Extracted, ok, err, extract_subtitle, is_english, ext_of,
  subtitle_extensions,
}

pub data Fetched : Type 0 where
  label : Text → Fetched
  error : Error → Fetched

-- What `Download` depends on; `get` answers a path's bytes, `write` an error of the file that it
-- could not write.
pub record SubDlClient : Type 0 where
  pub api_key : Text
  pub library : Library
  pub open_zip : Bytes → Option (List ZipFile)
  pub ask : Search
  pub get : Text → Extracted
  pub write : Bytes → Option Error

-- A path's subtitle in English, or why there is none.
unfoldable pub payload_of : SubDlClient → Query → Text → Extracted
payload_of c q path = elim (c.get path) as (λ _. Extracted) [
  | err e ↦ err e
  | ok bytes ↦
      elim (extract_subtitle c.library c.open_zip bytes q.season q.episode) as (λ _. Extracted) [
        | err e ↦ err e
        | ok payload ↦ if is_english c.library payload then ok payload else err err_no_subtitle
      ]
]

abbrev pub last_failure : Option Error → Fetched
last_failure none = error err_no_subtitle
last_failure (some e) = error e

abbrev pub written : Option Error → Fetched
written none = label (codes "SubDL")
written (some e) = error e

-- The loop of `Download`, with the last error.
unfoldable pub download_from : SubDlClient → Query → Option Error → List Text → Fetched
unfolding payload_of
download_from c q last [] = last_failure last
download_from c q last (path ∷ l) = elim (payload_of c q path) as (λ _. Fetched) [
  | err e ↦ download_from c q (some e) l
  | ok payload ↦ written (c.write payload)
]

unfoldable pub download : SubDlClient → Query → Fetched
unfolding download_from
download c q =
    if is_empty c.api_key
    then error err_unconfigured
    else elim (resolve_paths c.ask q) as (λ _. Fetched) [
      | failed e ↦ error e
      | paths l ↦ download_from c q none l
    ]

-- A `RemoteProvider`; a provider that is nil is none of the list.
pub record Provider : Type 0 where
  pub configured : Bool
  pub fetches : Query → Fetched

-- `err != ErrNoSubtitle && err != ErrUnconfigured`.
abbrev pub is_final : Error → Bool
is_final err_no_subtitle = false
is_final err_unconfigured = false
is_final _ = true

unfoldable pub any_provider_configured : List Provider → Bool
any_provider_configured [] = false
any_provider_configured (p ∷ l) = p.configured || any_provider_configured l

-- The loop of `Fetch`, before what it comes to if no provider decides.
unfoldable pub try_providers : List Provider → Query → Fetched → Fetched
try_providers [] q end = end
try_providers (p ∷ l) q end =
    let rest = try_providers l q end in
    if not p.configured then rest else elim (p.fetches q) as (λ _. Fetched) [
      | label name ↦ label name
      | error e ↦ if is_final e then error e else rest
    ]

abbrev pub sidecar_or : Fetched → Fetched → Fetched
sidecar_or (label name) rest = label name
sidecar_or (error e) rest = rest

-- `font` is whether `FontPath` gives no error, `febbox` what `tryFebbox` answers.
unfoldable pub fetch : Bool → Fetched → List Provider → Query → Fetched
unfolding try_providers any_provider_configured
fetch font febbox providers q =
    let end =
      if not (any_provider_configured providers)
      then error err_unconfigured
      else error err_no_subtitle in
    let remote = try_providers providers q end in
    if not font
    then error err_no_font
    else if not (is_empty q.share_key) && ltb_ℤ (pos 0) q.video_fid
    then sidecar_or febbox remote
    else remote

pub record Entry : Type 0 where
  pub fid : ℤ
  pub is_dir : ℤ
  pub file_name : Text

-- `strings.Fields` joined by spaces: each run of spaces is one, and none is at an end.
unfoldable pub squeeze : Bool → Text → Text
squeeze gap [] = []
squeeze gap (c ∷ t) =
    let spaced = squeeze true t in
    let plain = squeeze false t in
    if is_space c then spaced else if gap then 0x20 ∷ (c ∷ plain) else c ∷ plain

abbrev pub spaced_code : ℕ → ℕ
spaced_code c = if c == b'.' || c == b'_' || c == b'-' then 0x20 else c

unfoldable pub normalize_name : Text → Text
unfolding squeeze
normalize_name name = trim_space (squeeze false (map spaced_code (to_lower name)))

unfoldable pub trim_suffix : Text → Text → Text
trim_suffix t suffix = if has_suffix t suffix then take (length t - length suffix) t else t

-- `FebboxScanner.Find` over the entries of the video's folder.
unfoldable pub find_sidecar : List Entry → ℤ → Text → Option Entry
unfolding normalize_name trim_suffix
find_sidecar [] video_fid video_name = none
find_sidecar (e ∷ l) video_fid video_name =
    let rest = find_sidecar l video_fid video_name in
    let ext = to_lower (ext_of e.file_name) in
    if not (eq_ℤ e.is_dir (pos 0)) || eq_ℤ e.fid video_fid
    then rest
    else if not (mem_text ext subtitle_extensions)
    then rest
    else if has_foreign_language_name e.file_name
    then rest
    else if eq_text (normalize_name (trim_suffix e.file_name ext))
        (normalize_name (trim_suffix video_name (ext_of video_name)))
    then some e
    else rest
