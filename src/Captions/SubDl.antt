-- ===== src/Captions/SubDl.antt =====
-- internal/captions/subdl.go: which downloads a search response offers for an episode or a film.
-- Flags and names that only the service reads are left out.
pub mod Matches
pub mod Paths
pub mod Resolve
use streamly.Prelude.{
  ℕ, Bool, true, false, not, ◌&&◌, ◌||◌, Option, none, some, List, [], ◌∷◌, ◌++◌, map,
  if◌then◌else◌,
}
use streamly.Prelude.Text.{
  Text, codes, eq_text, is_empty, contains, has_suffix, to_lower, trim_space,
}
use streamly.Prelude.Signed.{ℤ, pos, ltb_ℤ, eq_ℤ}
use streamly.Media.Qualities.{fold_code}
use streamly.Captions.Names.{season_matches, tag_matches, parse_leading_episode}
use streamly.Captions.Language.{has_foreign_language_name, looks_english_language_tag}

pub record UnpackFile : Type 0 where
  pub url : Text
  pub name : Text
  pub release_name : Text
  pub season : ℤ
  pub episode : ℤ
  pub format : Text
  pub language : Text

pub record Subtitle : Type 0 where
  pub release_name : Text
  pub name : Text
  pub url : Text
  pub season : ℤ
  pub episode : ℤ
  pub unpack_files : List UnpackFile

unfoldable pub is_english_file : UnpackFile → Bool
is_english_file f = looks_english_language_tag f.language && not (has_foreign_language_name f.name)

unfoldable pub label_matches : Text → ℤ → ℤ → Bool
unfolding tag_matches parse_leading_episode
label_matches label season episode =
    if tag_matches label season episode
    then true
    else eq_ℤ (pos (parse_leading_episode label)) episode

unfoldable pub file_matches_episode : UnpackFile → ℤ → ℤ → Bool
unfolding is_english_file label_matches
file_matches_episode f season episode =
    if not (is_english_file f)
    then false
    else if label_matches f.name season episode || label_matches f.release_name season episode
    then true
    else eq_ℤ f.episode episode && season_matches f.season season

unfoldable pub subtitle_matches_episode : Subtitle → ℤ → ℤ → Bool
unfolding tag_matches
subtitle_matches_episode s season episode =
    if eq_ℤ s.episode episode && season_matches s.season season
    then true
    else tag_matches s.release_name season episode || tag_matches s.name season episode

-- A path that is not blank, trimmed, in front of others.
unfoldable pub add_path : Text → List Text → List Text
add_path path rest = if is_empty (trim_space path) then rest else trim_space path ∷ rest

unfoldable pub matched_files : List UnpackFile → ℤ → ℤ → List Text
unfolding add_path file_matches_episode
matched_files [] season episode = []
matched_files (f ∷ l) season episode =
    let rest = matched_files l season episode in
    if file_matches_episode f season episode then add_path f.url rest else rest

-- The first loop of `pickSubDLEpisodePaths`.
unfoldable pub matched_paths : List Subtitle → ℤ → ℤ → List Text
unfolding matched_files
matched_paths [] season episode = []
matched_paths (s ∷ l) season episode =
    matched_files s.unpack_files season episode ++ matched_paths l season episode

abbrev pub only_file : List UnpackFile → Option UnpackFile
only_file (f ∷ []) = some f
only_file _ = none

-- The second one.
unfoldable pub single_paths : List Subtitle → ℤ → ℤ → List Text
unfolding subtitle_matches_episode is_english_file add_path
single_paths [] season episode = []
single_paths (s ∷ l) season episode =
    let rest = single_paths l season episode in
    if subtitle_matches_episode s season episode
    then (elim (only_file s.unpack_files) as (λ _. List Text) [
      | none ↦ rest
      | some f ↦ if is_english_file f then add_path f.url rest else rest
    ])
    else rest

abbrev pub is_zip : Text → Bool
is_zip path = has_suffix (to_lower path) (codes ".zip")

abbrev pub has_none : List UnpackFile → Bool
has_none [] = true
has_none (f ∷ l) = false

-- The third one.
unfoldable pub direct_paths : List Subtitle → ℤ → ℤ → List Text
unfolding subtitle_matches_episode add_path
direct_paths [] season episode = []
direct_paths (s ∷ l) season episode =
    let rest = direct_paths l season episode in
    if subtitle_matches_episode s season episode
      && has_none s.unpack_files
      && not (is_zip (trim_space s.url))
    then add_path s.url rest
    else rest

abbrev pub is_forced : Subtitle → Bool
is_forced s = contains (to_lower (s.release_name ++ (codes " " ++ s.name))) (codes "forced")

-- `pickSubDLSeasonZipPaths` before its end: those preferred, and the fallbacks.
unfoldable pub season_zips : List Subtitle → ℤ → List Text × List Text
season_zips [] season = ([], [])
season_zips (s ∷ l) season =
    let rest = season_zips l season in
    let path = trim_space s.url in
    if season_matches s.season season && not (is_empty path || not (is_zip path))
    then (if is_forced s then (rest.0, path ∷ rest.1) else (path ∷ rest.0, rest.1))
    else rest

unfoldable pub pick_season_zip_paths : List Subtitle → ℤ → List Text
unfolding season_zips
pick_season_zip_paths l season = (season_zips l season).0 ++ (season_zips l season).1

unfoldable pub pick_episode_paths : List Subtitle → ℤ → ℤ → List Text
unfolding matched_paths single_paths direct_paths pick_season_zip_paths
pick_episode_paths l season episode =
    matched_paths l season episode
    ++ (single_paths l season episode
        ++ (direct_paths l season episode ++ pick_season_zip_paths l season))

abbrev pub is_srt : UnpackFile → Bool
is_srt f =
    eq_text (map fold_code (trim_space f.format)) (codes "srt")
    || has_suffix (to_lower f.name) (codes ".srt")

unfoldable pub film_files : List UnpackFile → List Text → List Text
unfolding is_english_file add_path
film_files [] later = later
film_files (f ∷ l) later =
    let rest = film_files l later in
    if is_english_file f && is_srt f then add_path f.url rest else rest

unfoldable pub film_paths : List Subtitle → List Text
unfolding film_files add_path
film_paths [] = []
film_paths (s ∷ l) = film_files s.unpack_files (add_path s.url (film_paths l))

unfoldable pub pick_subdl_paths : List Subtitle → ℤ → ℤ → List Text
unfolding pick_episode_paths film_paths
pick_subdl_paths l season episode =
    if ltb_ℤ (pos 0) season && ltb_ℤ (pos 0) episode
    then pick_episode_paths l season episode
    else film_paths l
