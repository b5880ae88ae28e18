-- ===== src/Captions/Names.antt =====
-- The episode tags of internal/captions/subdl.go. The regular expressions are read by hand: at most
-- one way to match them starts at each place.
use streamly.Prelude.{
  ℕ, ◌+◌, ◌*◌, Bool, true, false, ◌&&◌, ◌||◌, Option, none, some, [], ◌∷◌, if◌then◌else◌, ◌==◌,
}
use streamly.Prelude.Text.{Text, trim_space}
use streamly.Prelude.Signed.{ℤ, pos, eq_ℤ}
use streamly.Media.Qualities.{fold_code, is_digit, digit}

-- `[.\s_-]`.
abbrev pub is_separator : ℕ → Bool
is_separator c =
    c == b'.' || c == b'_' || c == b'-' || c == 0x20 || c == 9 || c == 10 || c == 12 || c == 13

-- `(?:[.\s_-]|$)`.
abbrev pub ends_here : Text → Bool
ends_here [] = true
ends_here (c ∷ t) = is_separator c

-- `(\d{1,2})`, two digits where there are two, and what is behind it.
abbrev pub number_from : ℕ → Text → ℕ × Text
number_from a [] = (digit a, [])
number_from a (b ∷ t) = if is_digit b then (digit a * 10 + digit b, t) else (digit a, b ∷ t)

abbrev pub one_or_two : Text → Option (ℕ × Text)
one_or_two [] = none
one_or_two (a ∷ t) = if is_digit a then some (number_from a t) else none

-- `(\d{1,2})m(\d{1,2})(?:[.\s_-]|$)` at the start, for a letter `m`.
abbrev pub after_letter : ℕ → ℕ → Text → Option (ℕ × ℕ)
after_letter m season [] = none
after_letter m season (c ∷ t) =
    if fold_code c == m
    then (elim (one_or_two t) as (λ _. Option (ℕ × ℕ)) [
      | none ↦ none
      | some (episode, rest) ↦ if ends_here rest then some (season, episode) else none
    ])
    else none

abbrev pub numbers_at : ℕ → Text → Option (ℕ × ℕ)
numbers_at m t = elim (one_or_two t) as (λ _. Option (ℕ × ℕ)) [
  | none ↦ none
  | some (season, rest) ↦ after_letter m season rest
]

-- What `episodeTagRE` and `episodeXRE` match behind a separator.
abbrev pub tag_at : Text → Option (ℕ × ℕ)
tag_at [] = none
tag_at (c ∷ t) = if fold_code c == b's' then numbers_at b'e' t else none

abbrev pub x_at : Text → Option (ℕ × ℕ)
x_at t = numbers_at b'x' t

-- The first match behind a separator.
unfoldable pub behind_separator : (Text → Option (ℕ × ℕ)) → Text → Option (ℕ × ℕ)
behind_separator f [] = none
behind_separator f (c ∷ t) =
    let rest = behind_separator f t in
    if is_separator c
    then (elim (f t) as (λ _. Option (ℕ × ℕ)) [ none ↦ rest | some m ↦ some m ])
    else rest

-- The first match at the start or behind a separator.
abbrev pub find_tag : (Text → Option (ℕ × ℕ)) → Text → Option (ℕ × ℕ)
find_tag f t = elim (f t) as (λ _. Option (ℕ × ℕ)) [ none ↦ behind_separator f t | some m ↦ some m ]

unfoldable pub parse_episode_tag : Text → ℕ × ℕ
unfolding behind_separator
parse_episode_tag name =
    let label = trim_space name in
    elim (find_tag tag_at label) as (λ _. ℕ × ℕ) [
      | some m ↦ m
      | none ↦ elim (find_tag x_at label) as (λ _. ℕ × ℕ) [ some m ↦ m | none ↦ (0, 0) ]
    ]

-- What is behind the first slash, or all of it.
unfoldable pub after_slash : Text → Option Text
after_slash [] = none
after_slash (c ∷ t) = let rest = after_slash t in if c == b'/' then some t else rest

abbrev pub starts_with_space : Text → Bool
starts_with_space [] = false
starts_with_space (c ∷ t) = c == 0x20 || c == 9 || c == 10 || c == 12 || c == 13

abbrev pub leading_number : Text → ℕ
leading_number t = elim (one_or_two t) as (λ _. ℕ) [
  | none ↦ 0
  | some (n, rest) ↦ if starts_with_space rest then n else 0
]

unfoldable pub parse_leading_episode : Text → ℕ
unfolding after_slash
parse_leading_episode name =
    let label = trim_space name in
    leading_number (elim (after_slash label) as (λ _. Text) [ none ↦ label | some base ↦ base ])

abbrev pub season_matches : ℤ → ℤ → Bool
season_matches got want = eq_ℤ got (pos 0) || eq_ℤ got want

-- `parseEpisodeTag` gives the episode, and no other season.
unfoldable pub tag_matches : Text → ℤ → ℤ → Bool
unfolding parse_episode_tag
tag_matches label season episode =
    let m = parse_episode_tag label in eq_ℤ (pos m.1) episode && season_matches (pos m.0) season

unfoldable pub name_matches_episode : Text → ℤ → ℤ → Bool
unfolding tag_matches parse_leading_episode
name_matches_episode name season episode =
    if tag_matches name season episode
    then true
    else if eq_ℤ (pos (parse_leading_episode name)) episode
    then true
    else false
