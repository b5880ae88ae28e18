-- ===== src/Bot/Episodes.antt =====
-- internal/bot/episodes.go, and what it uses of stream.go (seasonInfo, toEpisodes, episodeNumber)
-- and of the resolver of internal/media/media.go. The service's listing and the sorts, which are
-- not stable, are parameters. The regular expressions are read by hand.
pub mod Order
pub mod Folders
pub mod Successor
mod Tests
use streamly.Prelude.{
  ℕ, zero, suc, ◌+◌, ◌-◌, ◌*◌, ◌^◌, min, Bool, true, false, not, ◌&&◌, ◌||◌, Option, none, some,
  List, [], ◌∷◌, ◌++◌, map, if◌then◌else◌, leb, ltb, ◌==◌, take,
}
use streamly.Prelude.Text.{Text, codes}
use streamly.Prelude.Signed.{ℤ, pos, ◌+ℤ◌, ltb_ℤ, leb_ℤ, eq_ℤ, wrap64}
use streamly.Media.Qualities.{fold_code, is_digit, digit, stream_file_preference}
use streamly.Bot.Numbers.{episode_number, season_number}
use streamly.Bot.AutoNext.{AutoNextContext, NextEpisode}

pub record FebboxFile : Type 0 where
  pub fid : ℤ
  pub is_dir : ℤ
  pub file_name : Text

pub record Episode : Type 0 where
  pub fid : ℤ
  pub number : ℕ
  pub file_name : Text

-- `byNumber`, in ascending order: a later file takes the place of one that is less preferred.
unfoldable pub put_episode : Episode → List Episode → List Episode
put_episode e [] = e ∷ []
put_episode e (f ∷ l) =
    let rest = put_episode e l in
    if f.number == e.number
    then if ltb_ℤ (stream_file_preference f.file_name) (stream_file_preference e.file_name)
      then e ∷ l
      else f ∷ l
    else if ltb f.number e.number
    then f ∷ rest
    else e ∷ (f ∷ l)

abbrev pub with_number : FebboxFile → ℕ → Episode
with_number f n = record { fid = f.fid; number = n; file_name = f.file_name }

-- The files' episodes so far; those without a number are counted.
unfoldable pub by_number : ℕ → List Episode → List FebboxFile → List Episode
unfolding put_episode
by_number fallback l [] = l
by_number fallback l (f ∷ files) =
    let n = episode_number f.file_name in
    if n == 0
    then by_number (fallback + 1) (put_episode (with_number f (fallback + 1)) l) files
    else by_number fallback (put_episode (with_number f n) l) files

abbrev pub max_options : ℕ
max_options = 25

unfoldable pub to_episodes : List FebboxFile → List Episode
unfolding by_number
to_episodes files = take max_options (by_number 0 [] files)

pub record SeasonEntry : Type 0 where
  pub fid : ℤ
  pub number : ℕ

-- `list_children` answers none for an error.
pub record Resolver : Type 0 where
  pub list_children : ℤ → Option (List FebboxFile)
  pub sort_by_name : List FebboxFile → List FebboxFile
  pub sort_by_number : List SeasonEntry → List SeasonEntry

unfoldable pub of_kind : ℤ → List FebboxFile → List FebboxFile
of_kind dir [] = []
of_kind dir (f ∷ l) = let rest = of_kind dir l in if eq_ℤ f.is_dir dir then f ∷ rest else rest

unfoldable pub files_of : Resolver → List FebboxFile → List FebboxFile
unfolding of_kind
files_of r entries = r.sort_by_name (of_kind (pos 0) entries)

unfoldable pub seasons_of : Resolver → List FebboxFile → List FebboxFile
unfolding of_kind
seasons_of r entries = r.sort_by_name (of_kind (pos 1) entries)

pub data Next : Type 0 where
  next_is : NextEpisode → Next
  no_next : Next
  list_failed : Next

abbrev pub next_of : ℤ → Episode → NextEpisode
next_of season e = record {
  fid = e.fid;
  season = season;
  episode = pos e.number;
  file_name = e.file_name;
}

unfoldable pub numbered_after : ℤ → ℤ → List Episode → Next
numbered_after season episode [] = no_next
numbered_after season episode (e ∷ l) =
    let rest = numbered_after season episode l in
    if eq_ℤ (pos e.number) (wrap64 (episode +ℤ pos 1)) then next_is (next_of season e) else rest

-- `seasonFolder` from an index on: the folder of a season.
unfoldable pub season_folder : ℕ → List FebboxFile → ℤ → ℤ × ℤ
season_folder index [] season = (pos 0, pos 0)
season_folder index (f ∷ l) season =
    let rest = season_folder (index + 1) l season in
    let number = pos (season_number f.file_name (index + 1)) in
    if eq_ℤ number season then (f.fid, number) else rest

abbrev pub is_nil : List FebboxFile → Bool
is_nil [] = true
is_nil (f ∷ l) = false

unfoldable pub find_in_folder : Resolver → ℤ × ℤ → ℤ → Next
unfolding files_of to_episodes numbered_after
find_in_folder r (fid, number) episode =
    if eq_ℤ fid (pos 0) then no_next else elim (r.list_children fid) as (λ _. Next) [
      | none ↦ list_failed
      | some children ↦ numbered_after number episode (to_episodes (files_of r children))
    ]

unfoldable pub find_episode_in_season : Resolver → ℤ → ℤ → Next
unfolding seasons_of find_in_folder season_folder
find_episode_in_season r season episode = elim (r.list_children (pos 0)) as (λ _. Next) [
  | none ↦ list_failed
  | some root ↦
      if is_nil (seasons_of r root)
      then numbered_after (pos 1) episode (to_episodes (files_of r root))
      else find_in_folder r (season_folder 0 (seasons_of r root) season) episode
]

unfoldable pub season_entries : ℕ → List FebboxFile → List SeasonEntry
season_entries index [] = []
season_entries index (f ∷ l) =
    record { fid = f.fid; number = season_number f.file_name (index + 1) }
    ∷ season_entries (index + 1) l

-- The loop of `findFirstEpisodeInNextSeason`.
unfoldable pub first_later : Resolver → ℤ → List SeasonEntry → Next
unfolding files_of to_episodes
first_later r season [] = no_next
first_later r season (e ∷ l) =
    let rest = first_later r season l in
    if leb_ℤ (pos e.number) season then rest else elim (r.list_children e.fid) as (λ _. Next) [
      | none ↦ list_failed
      | some children ↦ elim (to_episodes (files_of r children)) as (λ _. Next) [
        | [] ↦ rest
        | f ∷ fs ↦ next_is (next_of (pos e.number) f)
      ]
    ]

unfoldable pub find_first_episode_in_next_season : Resolver → ℤ → Next
unfolding seasons_of season_entries first_later
find_first_episode_in_next_season r season = elim (r.list_children (pos 0)) as (λ _. Next) [
  | none ↦ list_failed
  | some root ↦
      if is_nil (seasons_of r root)
      then no_next
      else first_later r season (r.sort_by_number (season_entries 0 (seasons_of r root)))
]

unfoldable pub resolve_next_episode : Resolver → AutoNextContext → Next
unfolding find_episode_in_season find_first_episode_in_next_season
resolve_next_episode r auto =
    elim (find_episode_in_season r auto.season auto.episode) as (λ _. Next) [
      | next_is n ↦ next_is n
      | list_failed ↦ list_failed
      | no_next ↦ find_first_episode_in_next_season r auto.season
    ]
