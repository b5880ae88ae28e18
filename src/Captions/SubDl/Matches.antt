-- ===== src/Captions/SubDl/Matches.antt =====
-- Which files and subtitles of a search response are those of an episode.
use streamly.Prelude.{
  ◌≡◌, ◌⊎◌, inl, inr, refl, Bool, true, false, not, ◌&&◌, ◌||◌, and-true, not-true, not-false,
  if_split,
}
use streamly.Prelude.Text.{Text}
use streamly.Prelude.Signed.{ℤ, pos, eq_ℤ}
use streamly.Captions.Names.{season_matches, tag_matches, parse_leading_episode, parse_episode_tag}
use streamly.Captions.Language.{has_foreign_language_name, looks_english_language_tag}
use streamly.Prelude.Signed.{eq_ℤ-eq}
use streamly.Captions.SubDl.{
  UnpackFile, Subtitle, is_english_file, label_matches, file_matches_episode,
  subtitle_matches_episode,
}

-- The season is given as 0, for any, or as the one that is wanted.
abbrev pub IsOfSeason : ℤ → ℤ → Type 0
IsOfSeason got want = (got ≡ pos 0) ⊎ (got ≡ want)

-- The label's tag, such as S02E03, names the episode, and no other season.
abbrev pub HasTag : Text → ℤ → ℤ → Type 0
HasTag label season episode =
    (pos (parse_episode_tag label).1 ≡ episode)
    × IsOfSeason (pos (parse_episode_tag label).0) season

-- So it does, or the label begins with the episode's number.
abbrev pub NamesEpisode : Text → ℤ → ℤ → Type 0
NamesEpisode label season episode =
    HasTag label season episode ⊎ (pos (parse_leading_episode label) ≡ episode)

-- The file's language is English, and its name is not that of a file in another.
abbrev pub IsEnglish : UnpackFile → Type 0
IsEnglish f =
    (looks_english_language_tag f.language ≡ true) × (has_foreign_language_name f.name ≡ false)

abbrev pub IsEpisodeFile : ℤ → ℤ → UnpackFile → Type 0
IsEpisodeFile season episode f =
    IsEnglish f
    × (NamesEpisode f.name season episode
        ⊎ (NamesEpisode f.release_name season episode
            ⊎ ((f.episode ≡ episode) × IsOfSeason f.season season)))

abbrev pub IsEpisodeSubtitle : ℤ → ℤ → Subtitle → Type 0
IsEpisodeSubtitle season episode s =
    ((s.episode ≡ episode) × IsOfSeason s.season season)
    ⊎ (HasTag s.release_name season episode ⊎ HasTag s.name season episode)

or-cases : (a b : Bool) → (a || b) ≡ true → (a ≡ true) ⊎ (b ≡ true)
or-cases true b e = inl refl
or-cases false b e = inr e

pub season_matches-IsOfSeason :
    (got want : ℤ) → season_matches got want ≡ true → IsOfSeason got want
season_matches-IsOfSeason got want e = elim (or-cases (eq_ℤ got (pos 0)) (eq_ℤ got want) e) [
  | inl f ↦ inl (eq_ℤ-eq got (pos 0) f)
  | inr f ↦ inr (eq_ℤ-eq got want f)
]

tag_matches-HasTag :
    (label : Text) (season episode : ℤ)
    → tag_matches label season episode ≡ true
    → HasTag label season episode
unfolding tag_matches
tag_matches-HasTag label season episode e =
    let m = parse_episode_tag label in
    let parts : _ = and-true (eq_ℤ (pos m.1) episode) (season_matches (pos m.0) season) e in
    (eq_ℤ-eq (pos m.1) episode parts.0, season_matches-IsOfSeason (pos m.0) season parts.1)

label_matches-NamesEpisode :
    (label : Text) (season episode : ℤ)
    → label_matches label season episode ≡ true
    → NamesEpisode label season episode
unfolding label_matches
label_matches-NamesEpisode label season episode =
    if_split (λ b. b ≡ true → NamesEpisode label season episode) (tag_matches label season episode)
      (λ e _. inl (tag_matches-HasTag label season episode e))
      (λ _ e. inr (eq_ℤ-eq (pos (parse_leading_episode label)) episode e))

pub is_english_file-IsEnglish : (f : UnpackFile) → is_english_file f ≡ true → IsEnglish f
unfolding is_english_file
is_english_file-IsEnglish f e =
    let parts : _ =
      and-true (looks_english_language_tag f.language) (not (has_foreign_language_name f.name)) e in
    (parts.0, not-true (has_foreign_language_name f.name) parts.1)

pub file_matches_episode-IsEpisodeFile :
    (f : UnpackFile) (season episode : ℤ)
    → file_matches_episode f season episode ≡ true
    → IsEpisodeFile season episode f
unfolding file_matches_episode
file_matches_episode-IsEpisodeFile f season episode =
    let Q : Bool → Type 0 = λ b. b ≡ true → IsEpisodeFile season episode f in
    if_split Q (not (is_english_file f)) (λ _ e. absurd (cc e))
      (λ e.
        let english : IsEnglish f = is_english_file-IsEnglish f (not-false (is_english_file f) e) in
        if_split Q
          (label_matches f.name season episode || label_matches f.release_name season episode)
          (λ m _. (
            english,
            elim (or-cases (label_matches f.name season episode)
                (label_matches f.release_name season episode) m) [
                  | inl g ↦ inl (label_matches-NamesEpisode f.name season episode g)
                  | inr g ↦ inr (inl (label_matches-NamesEpisode f.release_name season episode g))
                ],
          ))
          (λ _ g.
            let parts : _ = and-true (eq_ℤ f.episode episode) (season_matches f.season season) g in
            (
              english,
              inr (
                  inr (
                    eq_ℤ-eq f.episode episode parts.0,
                    season_matches-IsOfSeason f.season season parts.1,
                  )),
            )))

pub subtitle_matches_episode-IsEpisodeSubtitle :
    (s : Subtitle) (season episode : ℤ)
    → subtitle_matches_episode s season episode ≡ true
    → IsEpisodeSubtitle season episode s
unfolding subtitle_matches_episode
subtitle_matches_episode-IsEpisodeSubtitle s season episode =
    if_split (λ b. b ≡ true → IsEpisodeSubtitle season episode s)
      (eq_ℤ s.episode episode && season_matches s.season season)
      (λ e _.
        let parts : _ = and-true (eq_ℤ s.episode episode) (season_matches s.season season) e in
        inl (eq_ℤ-eq s.episode episode parts.0, season_matches-IsOfSeason s.season season parts.1))
      (λ _ e.
        inr
          (elim (or-cases (tag_matches s.release_name season episode)
            (tag_matches s.name season episode) e) [
              | inl g ↦ inl (tag_matches-HasTag s.release_name season episode g)
              | inr g ↦ inr (tag_matches-HasTag s.name season episode g)
            ]))
