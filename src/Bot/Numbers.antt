-- ===== src/Bot/Numbers.antt =====
-- The numbers that names of seasons and files give: seasonInfo and episodeNumber of
-- internal/bot/stream.go. The regular expressions are read by hand.
use streamly.Prelude.{
  ℕ, zero, suc, ◌+◌, ◌-◌, ◌*◌, ◌^◌, min, Bool, true, false, not, ◌&&◌, ◌||◌, Option, none, some,
  List, [], ◌∷◌, if◌then◌else◌, leb, ◌==◌,
}
use streamly.Prelude.Text.{Text, codes}
use streamly.Media.Qualities.{fold_code, is_digit, digit}

-- At most so many digits, read on, and what is behind them.
abbrev pub read_up_to : ℕ → ℕ → Text → ℕ × Text
read_up_to zero n t = (n, t)
read_up_to (suc k) n [] = (n, [])
read_up_to (suc k) n (c ∷ t) =
    let rest = read_up_to k (n * 10 + digit c) t in if is_digit c then rest else (n, c ∷ t)

-- `\d{1,k+1}`, as many as there are.
abbrev pub digits_at : ℕ → Text → Option (ℕ × Text)
digits_at k [] = none
digits_at k (c ∷ t) = if is_digit c then some (read_up_to k (digit c) t) else none

abbrev pub is_word : ℕ → Bool
is_word c = is_digit c || (leb b'a' c && leb c b'z') || (leb b'A' c && leb c b'Z') || c == b'_'

-- `\b` behind a digit.
abbrev pub word_ends : Text → Bool
word_ends [] = true
word_ends (c ∷ t) = not (is_word c)

-- `[ ._-]?`.
abbrev pub skip_separator : Text → Text
skip_separator [] = []
skip_separator (c ∷ t) = if c == 0x20 || c == b'.' || c == b'_' || c == b'-' then t else c ∷ t

abbrev pub letter : ℕ → Text → Option Text
letter m [] = none
letter m (c ∷ t) = if fold_code c == m then some t else none

infixl 5 ◌>>=◌
abbrev ◌>>=◌ {ℓ κ} : {A : Type ℓ} {B : Type κ} → Option A → (A → Option B) → Option B
none >>= f = none
some a >>= f = f a

-- The number, where a word ends behind it.
abbrev pub whole_number : Text → Option ℕ
whole_number t = do m ← digits_at 3 t; if word_ends m.1 then some m.0 else none

-- `s\d{1,2}[ ._-]?e(\d{1,4})`.
abbrev pub season_episode_at : Text → Option ℕ
season_episode_at t = do
  a ← letter b's' t
  m ← digits_at 1 a
  b ← letter b'e' (skip_separator m.1)
  n ← digits_at 3 b
  some n.0

-- `\d{1,2}x(\d{1,4})\b`.
abbrev pub x_episode_at : Text → Option ℕ
x_episode_at t = do m ← digits_at 1 t; a ← letter b'x' m.1; whole_number a

abbrev pub word_at : List ℕ → Text → Option Text
word_at [] t = some t
word_at (m ∷ w) t = letter m t >>= word_at w

-- `episode[ ._-]?(\d{1,4})\b` and `e(\d{1,4})\b`.
abbrev pub episode_at : Text → Option ℕ
episode_at t = do a ← word_at (codes "episode") t; whole_number (skip_separator a)

abbrev pub e_at : Text → Option ℕ
e_at t = do a ← letter b'e' t; whole_number a

-- The first match; `word` is whether a word's letter stands before, `bound` whether none may.
unfoldable pub first_match : Bool → (Text → Option ℕ) → Bool → Text → Option ℕ
first_match bound f word [] = none
first_match bound f word (c ∷ t) =
    let rest = first_match bound f (is_word c) t in
    if bound && word
    then rest
    else elim (f (c ∷ t)) as (λ _. Option ℕ) [ none ↦ rest | some n ↦ some n ]

abbrev pub or_else : Option ℕ → ℕ → ℕ
or_else none d = d
or_else (some n) d = n

unfoldable pub episode_number : Text → ℕ
unfolding first_match
episode_number name = or_else (first_match false season_episode_at false name) (
    or_else (first_match true x_episode_at false name) (
      or_else (first_match true episode_at false name)
        (or_else (first_match true e_at false name) 0)))

-- `Atoi` of the first run of digits: past the range it is the greatest int.
abbrev pub run_value : ℕ → Text → ℕ
run_value n [] = n
run_value n (c ∷ t) = let rest = run_value (n * 10 + digit c) t in if is_digit c then rest else n

unfoldable pub season_number : Text → ℕ → ℕ
season_number [] ordinal = ordinal
season_number (c ∷ t) ordinal =
    let rest = season_number t ordinal in
    if is_digit c then min (run_value (digit c) t) (2 ^ 63 - 1) else rest
