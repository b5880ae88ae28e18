-- ===== src/Bot/Episodes/Tests.antt =====
-- A series with two seasons, the first of 26 episodes.
use mathlib.Core.List.Permᴰ.{refl as Perm_refl}
use streamly.Prelude.{
  ℕ, zero, suc, ◌+◌, ◌/◌, ◌%◌, ◌≡◌, refl, none, some, List, [], ◌∷◌, ◌++◌, if◌then◌else◌, ◌==◌, ltb,
}
use streamly.Prelude.Text.{codes}
use streamly.Prelude.Signed.{pos, wrap64, ◌+ℤ◌}
use streamly.Bot.AutoNext.{AutoNextContext, NextEpisode}
use streamly.Bot.Episodes.{FebboxFile, Resolver, next_is, resolve_next_episode}
use streamly.Bot.Numbers.{episode_number, season_number}

abbrev file : ℕ → FebboxFile
file n = record {
  fid = pos (100 + n);
  is_dir = pos 0;
  file_name =
      if ltb n 10 then b'e' ∷ ((48 + n) ∷ []) else b'e' ∷ ((48 + n / 10) ∷ ((48 + n % 10) ∷ []));
}

abbrev files_to : ℕ → ℕ → List FebboxFile
files_to n zero = []
files_to n (suc k) = file n ∷ files_to (n + 1) k

abbrev season : ℕ → FebboxFile
season n = record { fid = pos n; is_dir = pos 1; file_name = codes "Season " ++ ((48 + n) ∷ []) }

abbrev resolver : ℕ → Resolver
resolver episodes = record {
  list_children = λ fid. elim fid [
    | pos n ↦
        if n == 0
        then some (season 1 ∷ (season 2 ∷ []))
        else if n == 1
        then some (files_to 1 episodes)
        else some (file 1 ∷ [])
    | _ ↦ none
  ];
  sort_by_name = λ l. l;
  sort_by_number = λ l. l;
}

abbrev watching : ℕ → AutoNextContext
watching n = record {
  show_id = pos 1;
  user_id = [];
  share_key = codes "k";
  season = pos 1;
  episode = pos n;
  history_value = [];
  channel_id = [];
  voice_channel_id = [];
}

abbrev episode : ℕ → ℕ → ℕ → NextEpisode
episode fid s n = record {
  fid = pos fid;
  season = pos s;
  episode = pos n;
  file_name = (file n).file_name;
}

-- Behind the 25th of 26 episodes comes the next season: the list of a season's episodes is cut at
-- the 25 options of a menu.
after_25th : resolve_next_episode (resolver 26) (watching 25) ≡ next_is (episode 101 2 1)
unfolding resolve_next_episode season_number episode_number wrap64 ◌+ℤ◌
after_25th = refl

numbers : (episode_number (codes "Show.S01.E12.mkv") ≡ 12) × (episode_number (codes "3x07 x") ≡ 7)
unfolding episode_number
numbers = (refl, refl)
