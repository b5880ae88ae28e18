-- ===== src/Pool/Live/Trace.antt =====
-- What holds of the turns of `playLiveHLS`, whatever the outside answers.
use streamly.Pool.Live.Urls.{IsUrlOf, Uses, reconnect-IsUrlOf, turn-Uses}
use streamly.Prelude.{
  ℕ, suc, ◌+◌, ◌≤◌, ◌≡◌, ◌≢◌, ◌⊎◌, ◌↔◌, arith, refl, ap, true, false, inl, inr, List, [], ◌∷◌,
  length, ◌==◌, All, Bool-cases, sym,
}
use mathlib.Core.Path.{subst}
use streamly.Prelude.Signed.{ℤ, pos, ◌≤ℤ◌, ◌<ℤ◌, leb_ℤ}
use streamly.Prelude.Text.{Text, is_empty}
use streamly.Pool.Live.{
  LiveState, Round, Turn, waited, played, turn, reconnect, play_live_hls, first_state, switches,
  has_fallback, live_reconnect_delay, live_failure_count_after_segment,
}
use streamly.Pool.Live.Delay.{delay_range}

abbrev pub IsDelay : ℤ → Type 0
IsDelay d = (pos 2_000_000_000 ≤ℤ d) × (d ≤ℤ pos 15_000_000_000)

-- A turn after the first: a delay first, and no segment without a URL.
abbrev pub IsRetry : Turn → Type 0
IsRetry (waited d) = IsDelay d
IsRetry (played d url) = IsDelay d × (is_empty url ≡ false)

count_le :
    (l : LiveState) (r : Round)
    → live_failure_count_after_segment l.failures r.duration r.clean_end ≤ suc l.failures
unfolding live_failure_count_after_segment
count_le l r = ground arith

reconnect_kept :
    (l : LiveState) (r : Round)
    → ((reconnect l r).attempt ≡ l.attempt) × ((reconnect l r).failures ≡ l.failures)
unfolding reconnect
reconnect_kept l r = elim (Bool-cases (l.attempt == 0)) [
  | inl e ↦ rw e (refl, refl)
  | inr e ↦ elim (Bool-cases (switches l r)) [
    | inl f ↦ rw (e, f) (refl, refl)
    | inr f ↦ rw (e, f) (refl, refl)
  ]
]

turn_counts :
    (l : LiveState) (r : Round)
    → ((turn l r).1.attempt ≡ suc l.attempt) × ((turn l r).1.failures ≤ suc l.failures)
unfolding turn
turn_counts l r =
    let k = reconnect_kept l r in
    let c = count_le (reconnect l r) r in
    elim (Bool-cases (l.attempt == 0)) [
      | inl e ↦ rw e (ap suc k.0, omega (arith, c, k.1))
      | inr e ↦ elim (Bool-cases (is_empty (reconnect l r).url)) [
        | inl f ↦ rw (e, f) (ap suc k.0, omega (arith, k.1))
        | inr f ↦ rw (e, f) (ap suc k.0, omega (arith, c, k.1))
      ]
    ]

turn-IsRetry : (l : LiveState) (r : Round) → (l.attempt == 0) ≡ false → IsRetry (turn l r).0
unfolding turn
turn-IsRetry l r h = elim (Bool-cases (is_empty (reconnect l r).url)) [
  | inl f ↦ rw (h, f) (delay_range (suc (reconnect l r).failures))
  | inr f ↦ rw (h, f) (delay_range (reconnect l r).failures, f)
]

reconnect_switch :
    (l : LiveState) (r : Round)
    → (l.attempt == 0) ≡ false
    → (reconnect l r).using_fallback ≡ switches l r
unfolding reconnect
reconnect_switch l r h = elim (Bool-cases (switches l r)) [
  | inl f ↦ rw (h, f) refl
  | inr f ↦ rw (h, f) refl
]

turn_fallback :
    (l : LiveState) (r : Round) → (turn l r).1.using_fallback ≡ (reconnect l r).using_fallback
unfolding turn
turn_fallback l r = elim (Bool-cases (l.attempt == 0)) [
  | inl e ↦ rw e refl
  | inr e ↦ elim (Bool-cases (is_empty (reconnect l r).url)) [
    | inl f ↦ rw (e, f) refl
    | inr f ↦ rw (e, f) refl
  ]
]

-- In a turn that is not the first, the fallback provider is in use exactly where it was in use
-- before, or three failures in a row have been counted and a fallback is given: the switch is never
-- undone. With it the URL is the fallback's answer, or the old one where that is empty or an error;
-- otherwise it is the live provider's first answer or, where that is empty or an error, the old URL
-- or a later answer. The turn plays a segment from this URL, unless it is empty.
pub turn-switches :
    (l : LiveState) (r : Round)
    → l.attempt ≢ 0
    → (((turn l r).1.using_fallback ≡ true)
        ↔ ((l.using_fallback ≡ true) ⊎ ((3 ≤ l.failures) × (has_fallback r ≡ true))))
      × (IsUrlOf (turn l r).1.using_fallback l.url r (turn l r).1.url
          × Uses (turn l r).0 (turn l r).1.url)
turn-switches l r h =
    let later : (l.attempt == 0) ≡ false = ground (arith, h) in
    let (same, uses) = turn-Uses l r later in
    (
      rw (turn_fallback l r, reconnect_switch l r later) (ground arith),
      (
        subst (λ b. IsUrlOf b l.url r (turn l r).1.url) (sym (turn_fallback l r))
            (subst (IsUrlOf (reconnect l r).using_fallback l.url r) (sym same)
              (reconnect-IsUrlOf l r later)),
        uses,
      ),
    )

plays-IsRetry :
    (l : LiveState) (rounds : List Round) → l.attempt ≢ 0 → All IsRetry (play_live_hls l rounds).0
unfolding play_live_hls
plays-IsRetry l [] h = tt
plays-IsRetry l (r ∷ rounds) h = (
  turn-IsRetry l r (ground (arith, h)),
  plays-IsRetry (turn l r).1 rounds (ground (arith, (turn_counts l r).0)),
)

-- The failures in a row after a turn with so many before: one more without a URL; after a segment,
-- none if it lasted half a minute, as many if it ended cleanly, else one more.
abbrev pub Counts : ℕ → Turn → Round → ℕ → Type 0
Counts n (waited d) r k = k ≡ suc n
Counts n (played d url) r k =
    ((pos 30_000_000_000 ≤ℤ r.duration) × (k ≡ 0))
    ⊎ ((r.duration <ℤ pos 30_000_000_000)
        × (((r.clean_end ≡ true) × (k ≡ n)) ⊎ ((r.clean_end ≡ false) × (k ≡ suc n))))

-- The count of all turns.
abbrev pub IsCount : ℕ → List Turn → List Round → ℕ → Type 0
IsCount n [] [] m = m ≡ n
IsCount n (t ∷ ts) (r ∷ rs) m = (k : ℕ) × (Counts n t r k × IsCount k ts rs m)
IsCount n _ _ m = ⊥

segment-Counts :
    (n : ℕ) (d : ℤ) (url : Text) (r : Round)
    → Counts n (played d url) r (live_failure_count_after_segment n r.duration r.clean_end)
unfolding live_failure_count_after_segment
segment-Counts n d url r = elim (Bool-cases (leb_ℤ (pos 30_000_000_000) r.duration)) [
  | inl e ↦ rw e (inl (ground (arith, e), refl))
  | inr e ↦ elim (Bool-cases r.clean_end) [
    | inl c ↦ rw (e, c) (inr (ground (arith, e), inl (refl, refl)))
    | inr c ↦ rw (e, c) (inr (ground (arith, e), inr (refl, refl)))
  ]
]

turn-Counts : (l : LiveState) (r : Round) → Counts l.failures (turn l r).0 r (turn l r).1.failures
unfolding turn
turn-Counts l r =
    let k : (reconnect l r).failures ≡ l.failures = (reconnect_kept l r).1 in
    let c : (d : ℤ) (u : Text)
        → Counts l.failures (played d u) r
            (live_failure_count_after_segment (reconnect l r).failures r.duration r.clean_end) =
      λ d u.
        subst
          (λ n.
            Counts n (played d u) r
              (live_failure_count_after_segment (reconnect l r).failures r.duration r.clean_end))
          k (segment-Counts (reconnect l r).failures d u r) in
    elim (Bool-cases (l.attempt == 0)) [
      | inl e ↦ rw e (c (pos 0) (reconnect l r).url)
      | inr e ↦ elim (Bool-cases (is_empty (reconnect l r).url)) [
        | inl f ↦ rw (e, f) (ap suc k)
        | inr f ↦ rw (e, f) (c (live_reconnect_delay (reconnect l r).failures) (reconnect l r).url)
      ]
    ]

plays-IsCount :
    (l : LiveState) (rounds : List Round)
    → IsCount l.failures (play_live_hls l rounds).0 rounds (play_live_hls l rounds).1.failures
unfolding play_live_hls
plays-IsCount l [] = refl
plays-IsCount l (r ∷ rounds) =
    ((turn l r).1.failures, (turn-Counts l r, plays-IsCount (turn l r).1 rounds))

plays_counts :
    (l : LiveState) (rounds : List Round)
    → (play_live_hls l rounds).1.attempt ≡ l.attempt + length rounds
unfolding play_live_hls
plays_counts l [] = omega arith
plays_counts l (r ∷ rounds) =
    let k = turn_counts l r in let c = plays_counts (turn l r).1 rounds in omega (arith, k.0, c)

abbrev pub IsFirst : Text → Turn → Type 0
IsFirst url (waited d) = ⊥
IsFirst url (played d u) = (d ≡ pos 0) × (u ≡ url)

abbrev pub IsTrace : Text → List Turn → Type 0
IsTrace url [] = Unit
IsTrace url (t ∷ ts) = IsFirst url t × All IsRetry ts

turn-IsFirst : (url : Text) (r : Round) → IsFirst url (turn (first_state url) r).0
unfolding turn reconnect
turn-IsFirst url r = (refl, refl)

traced : (url : Text) (rounds : List Round) → IsTrace url (play_live_hls (first_state url) rounds).0
unfolding play_live_hls
traced url [] = tt
traced url (r ∷ rounds) = (
  turn-IsFirst url r,
  plays-IsRetry (turn (first_state url) r).1 rounds
      (ground (arith, (turn_counts (first_state url) r).0)),
)

-- Whatever the outside answers, the loop first plays the initial URL at once; every later turn
-- waits from 2 to 15 seconds, and plays a segment only from a URL that is not empty. The attempts
-- count the turns. The failures in a row begin at 0; a turn without a URL adds one; a segment of 30
-- seconds or more takes them back to 0, and a shorter one adds one unless it ended cleanly.
pub play_live_hls-IsTrace :
    (url : Text) (rounds : List Round)
    → let (turns, l) = play_live_hls (first_state url) rounds in
      IsTrace url turns × ((l.attempt ≡ length rounds) × IsCount 0 turns rounds l.failures)
play_live_hls-IsTrace url rounds =
    let c = plays_counts (first_state url) rounds in
    (traced url rounds, (omega (arith, c), plays-IsCount (first_state url) rounds))
