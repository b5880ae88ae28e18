-- ===== src/Pool/Live/Urls.antt =====
-- From which URL a turn of `playLiveHLS` plays.
use streamly.Prelude.{
  ℕ, suc, ◌≡◌, ◌⊎◌, refl, true, false, inl, inr, List, [], ◌∷◌, ◌==◌, Any, Bool-cases, Option, some,
  none, sym, zero, Bool, if_split,
}
use mathlib.Core.Path.{subst}
use streamly.Prelude.Text.{Text, is_empty}
use streamly.Pool.Live.{
  LiveState, Round, Turn, waited, played, turn, reconnect, switches, Answer, refreshed,
  refresh_live_upstream,
}

-- The URL after the fallback's answer: the one answered, unless it is empty or an error.
abbrev pub IsFallbackUrl : Text → Option Answer → Text → Type 0
IsFallbackUrl old (some (some fresh)) url =
    ((is_empty fresh ≡ false) × (url ≡ fresh)) ⊎ ((is_empty fresh ≡ true) × (url ≡ old))
IsFallbackUrl old _ url = url ≡ old

-- The URL after the live provider's answers: the first one, if it is a URL that is not empty; else
-- the old one or a later one of the answers.
abbrev pub IsLiveUrl : Text → Option (List Answer) → Text → Type 0
IsLiveUrl old none url = url ≡ old
IsLiveUrl old (some []) url = url ≡ old
IsLiveUrl old (some (a ∷ answers)) url =
    ((u : Text) → a ≡ some u → is_empty u ≡ false → url ≡ u)
    × ((url ≡ old) ⊎ Any (λ b. b ≡ some url) (a ∷ answers))

refreshed-IsFallbackUrl : (old : Text) (a : Answer) → IsFallbackUrl old (some a) (refreshed old a)
refreshed-IsFallbackUrl old none = refl
refreshed-IsFallbackUrl old (some u) = elim (Bool-cases (is_empty u)) [
  | inl e ↦ rw e (inr (refl, refl))
  | inr e ↦ rw e (inl (refl, refl))
]

-- One answer's URL is the old one or that of the answer.
refreshed-cases : (old : Text) (a : Answer) → (refreshed old a ≡ old) ⊎ (a ≡ some (refreshed old a))
refreshed-cases old none = inl refl
refreshed-cases old (some u) = elim (Bool-cases (is_empty u)) [
  | inl e ↦ rw e (inl refl)
  | inr e ↦ rw e (inr refl)
]

refresh-Any :
    (n : ℕ) (old : Text) (answers : List Answer)
    → let url = refresh_live_upstream n old answers in (url ≡ old) ⊎ Any (λ b. b ≡ some url) answers
unfolding refresh_live_upstream
refresh-Any zero old answers = inl refl
refresh-Any (suc n) old [] = inl refl
refresh-Any (suc n) old (a ∷ answers) =
    let Q : Text → Type 0 = λ url. (url ≡ old) ⊎ Any (λ b. b ≡ some url) (a ∷ answers) in
    let here : Q (refreshed old a) = elim (refreshed-cases old a) [
      | inl e ↦ inl e
      | inr e ↦ inr (inl e)
    ] in
    if_split Q (is_empty (refreshed old a))
      (λ _. elim (refresh-Any n (refreshed old a) answers) [
        | inl e ↦ subst Q (sym e) here
        | inr later ↦ inr (inr later)
      ])
      (λ _. here)

refresh-IsLiveUrl :
    (n : ℕ) (old : Text) (answers : List Answer)
    → IsLiveUrl old (some answers) (refresh_live_upstream (suc n) old answers)
unfolding refresh_live_upstream
refresh-IsLiveUrl n old [] = refl
refresh-IsLiveUrl n old (a ∷ answers) =
    ((λ u e f. rw (e, f, f, refresh_live_upstream) refl), refresh-Any (suc n) old (a ∷ answers))

-- Where a turn's URL comes from.
abbrev pub IsUrlOf : Bool → Text → Round → Text → Type 0
IsUrlOf true old r url = IsFallbackUrl old r.fallback_answer url
IsUrlOf false old r url = IsLiveUrl old r.live_answers url

-- What the turn does with the URL: a segment is played from it, unless it is empty.
abbrev pub Uses : Turn → Text → Type 0
Uses (waited d) url = is_empty url ≡ true
Uses (played d u) url = (u ≡ url) × (is_empty url ≡ false)

pub reconnect-IsUrlOf :
    (l : LiveState) (r : Round)
    → (l.attempt == 0) ≡ false
    → IsUrlOf (reconnect l r).using_fallback l.url r (reconnect l r).url
unfolding reconnect
reconnect-IsUrlOf l r h = elim (Bool-cases (switches l r)) [
  | inl f ↦ rw (h, f) (from_fallback r.fallback_answer)
  | inr f ↦ rw (h, f) (from_live r.live_answers)
]
  where
    from_fallback :
        (o : Option Answer)
        → IsFallbackUrl l.url o (elim o [ none ↦ l.url | some a ↦ refreshed l.url a ])
    from_fallback none = refl
    from_fallback (some a) = refreshed-IsFallbackUrl l.url a

    from_live :
        (o : Option (List Answer))
        → IsLiveUrl l.url o
            (elim o [ none ↦ l.url | some answers ↦ refresh_live_upstream 3 l.url answers ])
    from_live none = refl
    from_live (some answers) = refresh-IsLiveUrl 2 l.url answers

pub turn-Uses :
    (l : LiveState) (r : Round)
    → (l.attempt == 0) ≡ false
    → ((turn l r).1.url ≡ (reconnect l r).url) × Uses (turn l r).0 (turn l r).1.url
unfolding turn
turn-Uses l r h = elim (Bool-cases (is_empty (reconnect l r).url)) [
  | inl f ↦ rw (h, f) (refl, f)
  | inr f ↦ rw (h, f) (refl, (refl, f))
]
