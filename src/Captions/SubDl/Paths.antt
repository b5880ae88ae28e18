-- ===== src/Captions/SubDl/Paths.antt =====
-- Why a download is offered.
use streamly.Captions.SubDl.Matches.{
  IsOfSeason, IsEnglish, IsEpisodeFile, IsEpisodeSubtitle, season_matches-IsOfSeason,
  is_english_file-IsEnglish, file_matches_episode-IsEpisodeFile,
  subtitle_matches_episode-IsEpisodeSubtitle,
}
use streamly.Prelude.{
  ◌≡◌, ◌⊎◌, inl, inr, refl, true, false, not, ◌&&◌, ◌||◌, some, List, [], ◌∷◌, and-true, not-true,
  or-false, not-false, if_split, Option_split, All, All-map, All-append, Any,
}
use streamly.Prelude.Text.{Text, is_empty, trim_space}
use streamly.Prelude.Signed.{ℤ, pos, ltb_ℤ}
use streamly.Captions.Names.{season_matches}
use streamly.Captions.SubDl.{
  UnpackFile, Subtitle, is_english_file, file_matches_episode, subtitle_matches_episode, add_path,
  matched_files, matched_paths, only_file, single_paths, is_zip, has_none, direct_paths, is_forced,
  season_zips, pick_season_zip_paths, pick_episode_paths, pick_subdl_paths,
}

-- The trimmed URL, not blank.
abbrev pub IsUrlOf : Text → Text → Type 0
IsUrlOf url path = (path ≡ trim_space url) × (is_empty path ≡ false)

-- A file of the subtitle that matches the episode; the only file, English, of a subtitle that does;
-- what such a subtitle without files links to, no archive; an archive of the season.
abbrev pub IsEpisodePath : ℤ → ℤ → Text → Subtitle → Type 0
IsEpisodePath season episode path s =
    Any (λ f. IsEpisodeFile season episode f × IsUrlOf f.url path) s.unpack_files
    ⊎ (((f : UnpackFile) × ((s.unpack_files ≡ f ∷ [])
            × (IsEpisodeSubtitle season episode s × (IsEnglish f × IsUrlOf f.url path))))
        ⊎ ((IsEpisodeSubtitle season episode s
              × ((s.unpack_files ≡ [])
                  × ((is_zip (trim_space s.url) ≡ false) × IsUrlOf s.url path)))
            ⊎ (IsOfSeason s.season season × ((is_zip path ≡ true) × IsUrlOf s.url path))))

abbrev pub IsOffered : List Subtitle → ℤ → ℤ → Text → Type 0
IsOffered l season episode path = Any (IsEpisodePath season episode path) l

-- A property of the trimmed URL, if it is not blank, and of the others.
add_path-All :
    (P : Text → Type 0) (url : Text) (rest : List Text)
    → ((path : Text) → IsUrlOf url path → P path)
    → All P rest
    → All P (add_path url rest)
unfolding add_path
add_path-All P url rest f h =
    if_split (All P) (is_empty (trim_space url)) (λ _. h) (λ e. (f (trim_space url) (refl, e), h))

only_file-eq : (l : List UnpackFile) (f : UnpackFile) → only_file l ≡ some f → l ≡ f ∷ []
only_file-eq [] f e = cc e
only_file-eq (g ∷ []) f e = cc e
only_file-eq (g ∷ (k ∷ l)) f e = cc e

has_none-eq : (l : List UnpackFile) → has_none l ≡ true → l ≡ []
has_none-eq [] e = refl
has_none-eq (f ∷ l) e = cc e

matched_files-All :
    (P : Text → Type 0) (season episode : ℤ) (files : List UnpackFile)
    → ((path : Text)
        → Any (λ f. IsEpisodeFile season episode f × IsUrlOf f.url path) files
        → P path)
    → All P (matched_files files season episode)
unfolding matched_files
matched_files-All P season episode [] f = record {}
matched_files-All P season episode (x ∷ l) f =
    let rest : All P (matched_files l season episode) =
      matched_files-All P season episode l (λ path a. f path (inr a)) in
    if_split (All P) (file_matches_episode x season episode)
      (λ e.
        add_path-All P x.url (matched_files l season episode)
          (λ path u. f path (inl (file_matches_episode-IsEpisodeFile x season episode e, u))) rest)
      (λ _. rest)

-- A property of all that is offered holds of each of the four lists.
module _ (season episode : ℤ) (P : Text → Type 0) where
  abbrev Holds : Subtitle → Type 0
  Holds s = (path : Text) → IsEpisodePath season episode path s → P path

  matched_paths-All : (l : List Subtitle) → All Holds l → All P (matched_paths l season episode)
  unfolding matched_paths
  matched_paths-All [] h = record {}
  matched_paths-All (s ∷ l) h =
      All-append P (matched_files s.unpack_files season episode) (matched_paths l season episode)
        (matched_files-All P season episode s.unpack_files (λ path a. h.0 path (inl a)))
        (matched_paths-All l h.1)

  single_paths-All : (l : List Subtitle) → All Holds l → All P (single_paths l season episode)
  unfolding single_paths
  single_paths-All [] h = record {}
  single_paths-All (s ∷ l) h =
      let rest : All P (single_paths l season episode) = single_paths-All l h.1 in
      if_split (All P) (subtitle_matches_episode s season episode)
        (λ m.
          Option_split {A = List Text} (All P) (only_file s.unpack_files) (λ _. rest)
            (λ f o.
              if_split (All P) (is_english_file f)
                (λ e.
                  add_path-All P f.url (single_paths l season episode)
                    (λ path u. h.0 path (
                      inr (
                        inl (
                          f,
                          (
                            only_file-eq s.unpack_files f o,
                            (
                              subtitle_matches_episode-IsEpisodeSubtitle s season episode m,
                              (is_english_file-IsEnglish f e, u),
                            ),
                          ),
                        ))))
                    rest)
                (λ _. rest)))
        (λ _. rest)

  direct_paths-All : (l : List Subtitle) → All Holds l → All P (direct_paths l season episode)
  unfolding direct_paths
  direct_paths-All [] h = record {}
  direct_paths-All (s ∷ l) h =
      let rest : All P (direct_paths l season episode) = direct_paths-All l h.1 in
      if_split (All P)
        (subtitle_matches_episode s season episode
          && has_none s.unpack_files
          && not (is_zip (trim_space s.url)))
        (λ e.
          let parts : ((subtitle_matches_episode s season episode && has_none s.unpack_files)
                ≡ true)
              × (not (is_zip (trim_space s.url)) ≡ true) =
            and-true _ _ e in
          let more : (subtitle_matches_episode s season episode ≡ true)
              × (has_none s.unpack_files ≡ true) =
            and-true _ _ parts.0 in
          add_path-All P s.url (direct_paths l season episode)
            (λ path u. h.0 path (
              inr (
                inr (
                  inl (
                    subtitle_matches_episode-IsEpisodeSubtitle s season episode more.0,
                    (has_none-eq s.unpack_files more.1, (not-true _ parts.1, u)),
                  )))))
            rest)
        (λ _. rest)

  season_zips-All :
      (l : List Subtitle)
      → All Holds l
      → All P (season_zips l season).0 × All P (season_zips l season).1
  unfolding season_zips
  season_zips-All [] h = (record {}, record {})
  season_zips-All (s ∷ l) h =
      let rest : All P (season_zips l season).0 × All P (season_zips l season).1 =
        season_zips-All l h.1 in
      let path = trim_space s.url in
      if_split {A = List Text × List Text} (λ r. All P r.0 × All P r.1)
        (season_matches s.season season && not (is_empty path || not (is_zip path)))
        (λ e.
          let parts : (season_matches s.season season ≡ true)
              × (not (is_empty path || not (is_zip path)) ≡ true) =
            and-true _ _ e in
          let url : (is_empty path ≡ false) × (not (is_zip path) ≡ false) =
            or-false _ _ (not-true _ parts.1) in
          let ok : P path = h.0 path (
            inr (
              inr (
                inr (
                  season_matches-IsOfSeason s.season season parts.0,
                  (not-false _ url.1, (refl, url.0)),
                )))) in
          if_split {A = List Text × List Text} (λ r. All P r.0 × All P r.1) (is_forced s)
            (λ _. (rest.0, (ok, rest.1))) (λ _. ((ok, rest.0), rest.1)))
        (λ _. rest)

  pick_episode_paths-All :
      (l : List Subtitle) → All Holds l → All P (pick_episode_paths l season episode)
  unfolding pick_episode_paths pick_season_zip_paths
  pick_episode_paths-All l h =
      let zips : All P (season_zips l season).0 × All P (season_zips l season).1 =
        season_zips-All l h in
      All-append P (matched_paths l season episode) _ (matched_paths-All l h) (
        All-append P (single_paths l season episode) _ (single_paths-All l h) (
          All-append P (direct_paths l season episode) _ (direct_paths-All l h)
            (All-append P (season_zips l season).0 (season_zips l season).1 zips.0 zips.1)))

-- All that holds of each item's offers holds of what the list offers.
offers :
    (season episode : ℤ) (l : List Subtitle)
    → All
        (λ s. (path : Text) → IsEpisodePath season episode path s → IsOffered l season episode path)
        l
offers season episode [] = record {}
offers season episode (s ∷ l) =
    ((λ path e. inl e), All-map (λ t f path e. inr (f path e)) l (offers season episode l))

-- For an episode, each download that is picked is the trimmed URL, not blank, of a file whose
-- language is English, whose name is not foreign, and whose name, release or numbers are those of
-- the episode; of the only file, English too, of a subtitle whose numbers or names are; of such a
-- subtitle itself if it is no archive and has no files; or of an archive of the season.
pub pick_subdl_paths-IsOffered :
    (l : List Subtitle) (season episode : ℤ)
    → ltb_ℤ (pos 0) season ≡ true
    → ltb_ℤ (pos 0) episode ≡ true
    → All (IsOffered l season episode) (pick_subdl_paths l season episode)
unfolding pick_subdl_paths
pick_subdl_paths-IsOffered l season episode s e =
    rw (s, e)
      (pick_episode_paths-All season episode (IsOffered l season episode) l
        (offers season episode l))
