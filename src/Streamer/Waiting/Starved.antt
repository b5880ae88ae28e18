-- ===== src/Streamer/Waiting/Starved.antt =====
-- How long a live stream waits for a packet.
use mathlib.Core.Path.{subst}
use mathlib.Core.Option.{some-injective, none-ne-some}
use streamly.Prelude.{
  ℕ, zero, suc, ◌+◌, ◌*◌, ◌≤◌, ◌≡◌, ◌⊎◌, inl, inr, ◌∙◌, sym, ap, refl, Bool, true, false, ◌&&◌,
  none, some, List, [], ◌∷◌, length, if_split, Option_split, leb, arith, Bool-cases,
}
use streamly.Streamer.Waiting.{
  Wait, start, Fired, packet_at, context_at, timer_fires, deadline_fires, Outcome, waits, receives,
  stops, gives_up, impossible, is_ready, within, next_deadline, fire, next_packet,
}

-- 1.5 seconds for the first card and 25 more.
abbrev pub last_moment : ℕ
last_moment = 26_500_000_000

-- A live wait after n cards: before the first, nothing has fired; from then on the deadline stands.
abbrev pub IsLiveWait : ℕ → Wait → Type 0
IsLiveWait zero w =
    (w.live ≡ true) × (w.now ≡ 0) × (w.timer ≡ 1_500_000_000) × (w.deadline ≡ none) × (w.cards ≡ 0)
IsLiveWait (suc n) w =
    (w.live ≡ true)
    × (w.now ≡ 1_500_000_000 + n * 500_000_000)
    × (w.timer ≡ w.now + 500_000_000)
    × (w.deadline ≡ some last_moment)
    × (w.cards ≡ suc n)
    × (w.now ≤ last_moment)

abbrev pub IsPossible : Outcome → Type 0
IsPossible impossible = ⊥
IsPossible o = Unit

-- The timer or the deadline can fire, as long as nothing else does.
abbrev pub CanGoOn : Wait → Type 0
CanGoOn w = IsPossible (fire w timer_fires) ⊎ IsPossible (fire w deadline_fires)

-- A live wait has sent at most 51 cards, one for each firing of the timer, and can go on; it ends
-- by 26.5 seconds, and gives the segment up exactly then.
abbrev pub IsTimely : ℕ → Outcome → Type 0
IsTimely fired (waits w) = (w.cards ≡ fired) × (fired ≤ 51) × CanGoOn w
IsTimely fired (receives t) = t ≤ last_moment
IsTimely fired (stops t) = t ≤ last_moment
IsTimely fired (gives_up t) = t ≡ last_moment
IsTimely fired impossible = Unit

abbrev FireKeeps : ℕ → Outcome → Type 0
FireKeeps n (waits w) = IsLiveWait (suc n) w
FireKeeps n (receives t) = t ≤ last_moment
FireKeeps n (stops t) = t ≤ last_moment
FireKeeps n (gives_up t) = t ≡ last_moment
FireKeeps n impossible = Unit

and-parts : (a b : Bool) → (a && b) ≡ true → (a ≡ true) × (b ≡ true)
and-parts true b e = (refl, e)
and-parts false b e = cc e

ready_in_time : (n : ℕ) (w : Wait) (t : ℕ) → IsLiveWait n w → is_ready w t ≡ true → t ≤ last_moment
ready_in_time zero w t h e =
    let k : _ = and-parts (leb w.now t && leb t w.timer) (within t w.deadline) e in
    let in_time : leb t w.timer ≡ true = (and-parts (leb w.now t) (leb t w.timer) k.0).1 in
    ground (arith, in_time, h.2)
ready_in_time (suc n) w t h e =
    let k : _ = and-parts (leb w.now t && leb t w.timer) (within t w.deadline) e in
    let in_time : leb t last_moment ≡ true = subst (λ d. within t d ≡ true) h.3 k.1 in
    ground (arith, in_time)

first_deadline :
    (w : Wait)
    → w.deadline ≡ none
    → w.live ≡ true
    → next_deadline w ≡ some (w.timer + 25_000_000_000)
first_deadline w e f =
    Option_split (λ o. o ≡ some (w.timer + 25_000_000_000)) w.deadline
      (λ _.
        if_split (λ o. o ≡ some (w.timer + 25_000_000_000)) w.live (λ _. refl)
          (λ g. absurd (cc (f, g))))
      (λ d g. absurd (none-ne-some d (sym e ∙ g)))

kept_deadline : (w : Wait) (d : ℕ) → w.deadline ≡ some d → next_deadline w ≡ w.deadline
kept_deadline w d e =
    Option_split (λ o. o ≡ w.deadline) w.deadline (λ g. absurd (none-ne-some d (sym g ∙ e)))
      (λ d' g. sym g)

fire-FireKeeps : (n : ℕ) (w : Wait) (e : Fired) → IsLiveWait n w → FireKeeps n (fire w e)
unfolding fire
fire-FireKeeps n w (packet_at t) h =
    if_split (FireKeeps n) (is_ready w t) (λ e. ready_in_time n w t h e) (λ _. record {})
fire-FireKeeps n w (context_at t) h =
    if_split (FireKeeps n) (is_ready w t) (λ e. ready_in_time n w t h e) (λ _. record {})
fire-FireKeeps zero w timer_fires h =
    if_split (FireKeeps zero) (is_ready w w.timer)
      (λ e. (
        h.0,
        h.2,
        refl,
        first_deadline w h.3 h.0 ∙ ap (λ t. some (t + 25_000_000_000)) h.2,
        ap suc h.4,
        omega (arith, h.2),
      ))
      (λ _. record {})
fire-FireKeeps (suc n) w timer_fires h =
    if_split (FireKeeps (suc n)) (is_ready w w.timer)
      (λ e.
        let at : w.timer ≡ 1_500_000_000 + suc n * 500_000_000 = omega (arith, h.1, h.2) in
        (
          h.0,
          at,
          refl,
          kept_deadline w last_moment h.3 ∙ h.3,
          ap suc h.4,
          ready_in_time (suc n) w w.timer h e,
        ))
      (λ _. record {})
fire-FireKeeps zero w deadline_fires h =
    Option_split (FireKeeps zero) w.deadline (λ _. record {}) (λ d e. absurd (cc (e, h.3)))
fire-FireKeeps (suc n) w deadline_fires h =
    Option_split (FireKeeps (suc n)) w.deadline (λ _. record {})
      (λ d e.
        if_split (FireKeeps (suc n)) (leb d w.timer)
          (λ _. some-injective d last_moment (sym e ∙ h.3)) (λ _. record {}))

Outcome_split :
    {A : Type 0} (P : A → Type 0) (o : Outcome) {f : Wait → A} {g h k : ℕ → A} {x : A}
    → ((w : Wait) → o ≡ waits w → P (f w))
    → ((t : ℕ) → o ≡ receives t → P (g t))
    → ((t : ℕ) → o ≡ stops t → P (h t))
    → ((t : ℕ) → o ≡ gives_up t → P (k t))
    → (o ≡ impossible → P x)
    → P (elim o as (λ _. A) [
      | waits w ↦ f w
      | receives t ↦ g t
      | stops t ↦ h t
      | gives_up t ↦ k t
      | impossible ↦ x
    ])
Outcome_split P (waits w) a b c d e = a w refl
Outcome_split P (receives t) a b c d e = b t refl
Outcome_split P (stops t) a b c d e = c t refl
Outcome_split P (gives_up t) a b c d e = d t refl
Outcome_split P impossible a b c d e = e refl

leb_of : (a b : ℕ) → a ≤ b → leb a b ≡ true
leb_of a b h = ground (arith, h)

and-both : (a b : Bool) → a ≡ true → b ≡ true → (a && b) ≡ true
and-both true b e f = f
and-both false b e f = cc e

timer-IsPossible : (w : Wait) → is_ready w w.timer ≡ true → IsPossible (fire w timer_fires)
unfolding fire
timer-IsPossible w e =
    if_split IsPossible (is_ready w w.timer) (λ _. record {}) (λ f. absurd (cc (e, f)))

deadline-IsPossible :
    (w : Wait) (d : ℕ)
    → w.deadline ≡ some d
    → leb d w.timer ≡ true
    → IsPossible (fire w deadline_fires)
unfolding fire
deadline-IsPossible w d e l =
    Option_split IsPossible w.deadline (λ f. absurd (none-ne-some d (sym f ∙ e)))
      (λ d' f.
        if_split IsPossible (leb d' w.timer) (λ _. record {})
          (λ g. let same : d' ≡ d = some-injective d' d (sym f ∙ e) in absurd (cc (same, g, l))))

timer_ready :
    (w : Wait) → w.now ≤ w.timer → within w.timer w.deadline ≡ true → is_ready w w.timer ≡ true
timer_ready w h e =
    and-both (leb w.now w.timer && leb w.timer w.timer) (within w.timer w.deadline)
      (and-both (leb w.now w.timer) (leb w.timer w.timer) (leb_of w.now w.timer h)
        (leb_of w.timer w.timer (omega arith)))
      e

CanGoOn-live : (n : ℕ) (w : Wait) → IsLiveWait n w → CanGoOn w
CanGoOn-live zero w h = inl (
    timer-IsPossible w
      (timer_ready w (omega (arith, h.1)) (subst (λ d. within w.timer d ≡ true) (sym h.3) refl)))
CanGoOn-live (suc n) w h = elim (Bool-cases (leb w.timer last_moment)) [
  | inl e ↦ inl (
      timer-IsPossible w
        (timer_ready w (omega (arith, h.2)) (subst (λ d. within w.timer d ≡ true) (sym h.3) e)))
  | inr e ↦ inr (deadline-IsPossible w last_moment h.3 (ground (arith, e)))
]

waits-IsTimely : (n : ℕ) (w : Wait) → IsLiveWait n w → IsTimely n (waits w)
waits-IsTimely zero w h = (h.4, omega arith, CanGoOn-live zero w h)
waits-IsTimely (suc n) w h = (h.4, omega (arith, h.1, h.5), CanGoOn-live (suc n) w h)

next_packet-IsTimely_from :
    (n : ℕ) (w : Wait) (events : List Fired)
    → IsLiveWait n w
    → IsTimely (n + length events) (next_packet w events)
next_packet-IsTimely_from n w [] h =
    subst (λ k. IsTimely k (waits w)) (omega arith) (waits-IsTimely n w h)
next_packet-IsTimely_from n w (e ∷ events) h =
    let k : FireKeeps n (fire w e) = fire-FireKeeps n w e h in
    let m : suc n + length events ≡ n + suc (length events) = omega arith in
    Outcome_split (IsTimely (n + suc (length events))) (fire w e)
      (λ w' f.
        subst (λ i. IsTimely i (next_packet w' events)) m
          (next_packet-IsTimely_from (suc n) w' events (subst (FireKeeps n) f k)))
      (λ t f. subst (FireKeeps n) f k) (λ t f. subst (FireKeeps n) f k)
      (λ t f. subst (FireKeeps n) f k) (λ f. record {})

-- If the sending of a card takes no time (the peer is found, so nothing blocks in it): whatever
-- fires, in whatever order, the wait of a live stream for its next video packet either goes on, with one card for each firing of the timer, at most 51 of them, and with its timer or
-- its deadline able to fire; or it has ended by 26.5 seconds, and the segment is given up exactly
-- then.
pub next_packet-IsTimely :
    (events : List Fired) → IsTimely (length events) (next_packet (start true) events)
next_packet-IsTimely events =
    subst (λ k. IsTimely k (next_packet (start true) events)) (omega arith)
      (next_packet-IsTimely_from 0 (start true) events (refl, refl, refl, refl, refl))
