-- ===== src/Streamer/Clock/Pace.antt =====
-- When the clock lets a packet pass, and what a shift does.
use mathlib.Core.Path.{subst, ap₂}
use mathlib.Core.Option.{some-injective, none-ne-some}
use streamly.Prelude.{
  ℕ, ◌+◌, ◌≤◌, ◌<◌, ◌^◌, ◌≡◌, ◌∙◌, sym, ap, refl, true, false, none, some, if_split, Bool-cases,
  inl, inr, arith,
}
use streamly.Prelude.Signed.{
  ℤ, pos, negsuc, pos_part, neg_part, ◌+ℤ◌, ◌-ℤ◌, ◌<ℤ◌, leb_ℤ, wrap64, wrap64_of_fits, Fits64,
  Fits64-of_parts, int_laws, -ℤ_parts, +ℤ_parts,
}
use streamly.Pool.Session.{sub_time, saturate}
use streamly.Pool.Control.Pause.{saturate_of_fits}
use streamly.Streamer.Clock.{
  MediaClock, expected, sleep_time, positive, late_by, wait, lateness, shift,
}

shift_sub : (a b d : ℤ) → (a +ℤ d) -ℤ (b +ℤ d) ≡ a -ℤ b
shift_sub a b d = grind int_laws

shift_eq :
    (c : MediaClock) (d : ℤ)
    → c.anchored ≡ true
    → leb_ℤ d (pos 0) ≡ false
    → shift c d ≡ record c { wall_start = c.wall_start +ℤ d }
unfolding shift
shift_eq c d e f = simp (e, f)

shift_idle : (c : MediaClock) (d : ℤ) → c.anchored ≡ false → shift c d ≡ c
unfolding shift
shift_idle c d e = if_split (λ x. x ≡ c) (leb_ℤ d (pos 0)) (λ _. refl) (λ _. simp e)

lateness_eq :
    (c : MediaClock) (pts now : ℤ)
    → c.anchored ≡ true
    → lateness c pts now ≡ late_by (sub_time now c.wall_start) (expected c pts)
unfolding lateness
lateness_eq c pts now e = simp e

lateness_idle : (c : MediaClock) (pts now : ℤ) → c.anchored ≡ false → lateness c pts now ≡ pos 0
unfolding lateness
lateness_idle c pts now e = simp e

wait_eq :
    (c : MediaClock) (pts extra now : ℤ)
    → c.anchored ≡ true
    → wait c pts extra now
      ≡ (positive (sleep_time (expected c pts) (sub_time now c.wall_start) extra), c)
unfolding wait
wait_eq c pts extra now e = simp e

wait_idle :
    (c : MediaClock) (pts extra now : ℤ) → c.anchored ≡ false → (wait c pts extra now).0 ≡ none
unfolding wait
wait_idle c pts extra now e = simp e

sub_time_shift : (now w d : ℤ) → sub_time (now +ℤ d) (w +ℤ d) ≡ sub_time now w
sub_time_shift now w d = ap saturate (shift_sub now w d)

-- A clock that is shifted by a positive duration gives, that much later, the lateness and the sleep
-- that it gave before.
shift-later :
    (c : MediaClock) (pts extra now d : ℤ)
    → pos 0 <ℤ d
    → (lateness (shift c d) pts (now +ℤ d) ≡ lateness c pts now)
      × ((wait (shift c d) pts extra (now +ℤ d)).0 ≡ (wait c pts extra now).0)
shift-later c pts extra now d h =
    let f : leb_ℤ d (pos 0) ≡ false = ground (arith, h) in
    elim (Bool-cases c.anchored) [
      | inl e ↦
          let same : sub_time (now +ℤ d) (c.wall_start +ℤ d) ≡ sub_time now c.wall_start =
            sub_time_shift now c.wall_start d in
          let m : MediaClock = record c { wall_start = c.wall_start +ℤ d } in
          rw
            (
              shift_eq c d e f,
              lateness_eq m pts (now +ℤ d) e,
              lateness_eq c pts now e,
              wait_eq m pts extra (now +ℤ d) e,
              wait_eq c pts extra now e,
              same,
            )
            (refl, refl)
      | inr e ↦
          rw
            (
              shift_idle c d e,
              lateness_idle c pts (now +ℤ d) e,
              lateness_idle c pts now e,
              wait_idle c pts extra (now +ℤ d) e,
              wait_idle c pts extra now e,
            )
            (refl, refl)
    ]

-- Times within 2 ^ 61 nanoseconds, 73 years, of each other.
abbrev pub IsNear : ℤ → ℤ → Type 0
IsNear a b =
    (pos_part a + neg_part b ≤ pos_part b + neg_part a + 2 ^ 61)
    × (pos_part b + neg_part a ≤ pos_part a + neg_part b + 2 ^ 61)

abbrev IsShort : ℤ → Type 0
IsShort d = (pos_part d ≤ neg_part d + 2 ^ 61) × (neg_part d ≤ pos_part d + 2 ^ 61)

short : (a b : ℤ) → IsNear a b → IsShort (a -ℤ b)
short a b h = (omega (arith, -ℤ_parts a b), omega (arith, -ℤ_parts a b))

short-Fits64 : (d : ℤ) → IsShort d → Fits64 d
short-Fits64 (pos n) h = (omega arith, omega arith)
short-Fits64 (negsuc n) h = (omega arith, omega arith)

-- A difference of durations that are short, and a short one more.
difference-Fits64 : (a b : ℤ) → IsShort a → IsShort b → Fits64 (a -ℤ b)
difference-Fits64 a b h k =
    Fits64-of_parts (a -ℤ b) (omega (arith, -ℤ_parts a b)) (omega (arith, -ℤ_parts a b))

sum-Fits64 : (a : ℤ) (u : ℕ) → IsShort a → u < 2 ^ 61 → Fits64 (a +ℤ pos u)
sum-Fits64 a u h k =
    Fits64-of_parts (a +ℤ pos u) (omega (arith, +ℤ_parts a (pos u)))
      (omega (arith, +ℤ_parts a (pos u)))

expected_short :
    (c : MediaClock) (pts : ℤ) → IsNear pts c.pts_start → expected c pts ≡ pts -ℤ c.pts_start
expected_short c pts h =
    wrap64_of_fits (pts -ℤ c.pts_start)
      (short-Fits64 (pts -ℤ c.pts_start) (short pts c.pts_start h))

sub_time_short : (a b : ℤ) → Fits64 (a -ℤ b) → sub_time a b ≡ a -ℤ b
sub_time_short a b h = saturate_of_fits (a -ℤ b) h

oversleeps : (now due w : ℤ) (u : ℕ) → ((now +ℤ (due -ℤ (now -ℤ w))) +ℤ pos u) -ℤ w ≡ due +ℤ pos u
oversleeps now due w u = grind int_laws

caught_up : (now w due : ℤ) → now -ℤ (w +ℤ ((now -ℤ w) -ℤ due)) ≡ due
caught_up now w due = grind int_laws

shift_none : (c : MediaClock) → shift c (pos 0) ≡ c
unfolding shift
shift_none c = refl

late_by_more : (due : ℤ) (u : ℕ) → u < 2 ^ 62 → late_by (due +ℤ pos u) due ≡ pos u
late_by_more due u h =
    if_split (λ x. x ≡ pos u) (leb_ℤ (due +ℤ pos u) due)
      (λ e. ground (arith, +ℤ_parts due (pos u), e))
      (λ _.
        let more : (due +ℤ pos u) -ℤ due ≡ pos u = grind int_laws in
        rw more (wrap64_of_fits (pos u) (omega arith, omega arith)))

positive-some : (x s : ℤ) → positive x ≡ some s → (s ≡ x) × (leb_ℤ s (pos 0) ≡ false)
positive-some x s h = elim (Bool-cases (leb_ℤ x (pos 0))) [
  | inl e ↦ absurd (none-ne-some s (simp e at h))
  | inr e ↦
      let same : x ≡ s = some-injective x s (simp e at h) in
      (sym same, subst (λ y. leb_ℤ y (pos 0) ≡ false) same e)
]

-- If wait says that a packet is to sleep, then a packet that passes u nanoseconds after that sleep
-- is late by exactly u, for times within 2 ^ 61 nanoseconds.
wait-lateness :
    (c : MediaClock) (pts now s : ℤ) (u : ℕ)
    → c.anchored ≡ true
    → IsNear pts c.pts_start
    → IsNear now c.wall_start
    → u < 2 ^ 61
    → (wait c pts (pos 0) now).0 ≡ some s
    → lateness c pts ((now +ℤ s) +ℤ pos u) ≡ pos u
wait-lateness c pts now s u e h k l w =
    let a : ℤ = now -ℤ c.wall_start in
    let due : ℤ = pts -ℤ c.pts_start in
    let near_a : IsShort a = short now c.wall_start k in
    let near_due : IsShort due = short pts c.pts_start h in
    let due_eq : expected c pts ≡ due = expected_short c pts h in
    let sleep : (s ≡ wrap64 (expected c pts -ℤ sub_time now c.wall_start))
        × (leb_ℤ s (pos 0) ≡ false) =
      positive-some (sleep_time (expected c pts) (sub_time now c.wall_start) (pos 0)) s
        (sym (ap (λ x. x.0) (wait_eq c pts (pos 0) now e)) ∙ w) in
    let s_eq : s ≡ due -ℤ a =
      sleep.0
      ∙ ap₂ (λ x y. wrap64 (x -ℤ y)) due_eq
          (sub_time_short now c.wall_start (short-Fits64 a near_a))
      ∙ wrap64_of_fits (due -ℤ a) (difference-Fits64 due a near_due near_a) in
    let woken : ℤ = (now +ℤ s) +ℤ pos u in
    let over : woken -ℤ c.wall_start ≡ due +ℤ pos u = rw s_eq (oversleeps now due c.wall_start u) in
    let at : sub_time woken c.wall_start ≡ due +ℤ pos u =
      ap saturate over ∙ saturate_of_fits (due +ℤ pos u) (sum-Fits64 due u near_due l) in
    rw (lateness_eq c pts woken e, at, due_eq) (late_by_more due u (omega arith))

late_by_none : (a due : ℤ) → leb_ℤ a due ≡ true → late_by a due ≡ pos 0
late_by_none a due e = rw e refl

late_by_some : (a due : ℤ) → leb_ℤ a due ≡ false → late_by a due ≡ wrap64 (a -ℤ due)
late_by_some a due e = rw e refl

leb_ℤ_refl : (a : ℤ) → leb_ℤ a a ≡ true
leb_ℤ_refl a = ground arith

-- After a shift by the lateness, a packet is on time.
lateness-shifted :
    (c : MediaClock) (pts now : ℤ)
    → IsNear pts c.pts_start
    → IsNear now c.wall_start
    → lateness (shift c (lateness c pts now)) pts now ≡ pos 0
lateness-shifted c pts now h k = elim (Bool-cases c.anchored) [
  | inr e ↦ rw (shift_idle c (lateness c pts now) e) (lateness_idle c pts now e)
  | inl e ↦
      let a : ℤ = now -ℤ c.wall_start in
      let due : ℤ = pts -ℤ c.pts_start in
      let near_a : IsShort a = short now c.wall_start k in
      let a_eq : sub_time now c.wall_start ≡ a =
        sub_time_short now c.wall_start (short-Fits64 a near_a) in
      let due_eq : expected c pts ≡ due = expected_short c pts h in
      let late_eq : lateness c pts now ≡ late_by a due =
        lateness_eq c pts now e ∙ ap₂ late_by a_eq due_eq in
      elim (Bool-cases (leb_ℤ a due)) [
        | inl f ↦
            let on_time : lateness c pts now ≡ pos 0 = late_eq ∙ late_by_none a due f in
            rw (on_time, shift_none c) on_time
        | inr f ↦
            let d : ℤ = a -ℤ due in
            let late : lateness c pts now ≡ d =
              late_eq
              ∙ late_by_some a due f
              ∙ wrap64_of_fits d (difference-Fits64 a due near_a (short pts c.pts_start h)) in
            let is_more : leb_ℤ d (pos 0) ≡ false = ground (arith, -ℤ_parts a due, f) in
            let m : MediaClock = record c { wall_start = c.wall_start +ℤ d } in
            let back : sub_time now m.wall_start ≡ due =
              ap saturate (caught_up now c.wall_start due)
              ∙ saturate_of_fits due (short-Fits64 due (short pts c.pts_start h)) in
            rw (late, shift_eq c d e is_more, lateness_eq m pts now e, back, due_eq)
              (late_by_none due due (leb_ℤ_refl due))
      ]
]
