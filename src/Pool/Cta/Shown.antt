-- ===== src/Pool/Cta/Shown.antt =====
-- When the messages at times of a stream are shown in a segment that starts at an offset.
use streamly.Prelude.{
  ◌<◌, ◌^◌, ◌≡◌, ◌≢◌, ◌↔◌, inl, inr, refl, sym, ◌∙◌, true, ◌||◌, List, [], ◌∷◌, All, Any,
  Bool-cases, arith,
}
use streamly.Prelude.Text.{Text, is_empty}
use streamly.Prelude.Signed.{
  ℤ, ◌-ℤ◌, ◌≤ℤ◌, ◌<ℤ◌, leb_ℤ, wrap64, wrap64_of_fits, Fits64, pos_part, neg_part,
}
use streamly.Pool.Session.{TimedCta}
use streamly.Pool.Cta.{CtaWindow, timed_windows, not_negative}

-- A message `text` at stream time t.
abbrev pub ShowsAt : Text → ℤ → TimedCta → Type 0
ShowsAt text t c = (c.text ≡ text) × ((c.start_ms ≤ℤ t) × (t <ℤ c.end_ms))

-- The same of a window, at a time of the segment.
abbrev pub OpenAt : Text → ℤ → CtaWindow → Type 0
OpenAt text t w = (w.text ≡ text) × ((w.start_ms ≤ℤ t) × (t <ℤ w.end_ms))

-- A time of a stream: from 0 to 2 ^ 62 milliseconds.
abbrev pub IsTime : ℤ → Type 0
IsTime t = (pos_part t < 2 ^ 62) × (neg_part t ≡ 0)

abbrev pub HasTimes : TimedCta → Type 0
HasTimes c = IsTime c.start_ms × IsTime c.end_ms

sub-Fits64 : (a b : ℤ) → IsTime a → IsTime b → Fits64 (a -ℤ b)
unfolding ◌-ℤ◌
sub-Fits64 a b h k = ground arith

start_iff :
    (a off t : ℤ)
    → IsTime a
    → IsTime off
    → off ≤ℤ t
    → (not_negative (wrap64 (a -ℤ off)) ≤ℤ (t -ℤ off)) ↔ (a ≤ℤ t)
unfolding ◌-ℤ◌
start_iff a off t h k l = rw (wrap64_of_fits (a -ℤ off) (sub-Fits64 a off h k)) (ground arith)

end_iff : (a off t : ℤ) → IsTime a → IsTime off → ((t -ℤ off) <ℤ wrap64 (a -ℤ off)) ↔ (t <ℤ a)
unfolding ◌-ℤ◌
end_iff a off t h k = rw (wrap64_of_fits (a -ℤ off) (sub-Fits64 a off h k)) (ground arith)

empty_text : (l : Text) → is_empty l ≡ true → l ≡ []
empty_text [] e = refl
empty_text (x ∷ l) e = cc

-- A message that the loop skips is not shown from the offset on.
skipped :
    (c : TimedCta) (text : Text) (off t : ℤ)
    → text ≢ []
    → off ≤ℤ t
    → (is_empty c.text || leb_ℤ c.end_ms off) ≡ true
    → ¬ (ShowsAt text t c)
skipped c text off t n l e (same, (from, till)) = elim (Bool-cases (is_empty c.text)) [
  | inl b ↦ n (sym same ∙ empty_text c.text b)
  | inr b ↦ let k : leb_ℤ c.end_ms off ≡ true = rw b at e in ground (arith, k, l, till)
]

-- For stream times in the range of 0 to 2 ^ 62 milliseconds: in a segment that starts at an offset,
-- a window with a text is open exactly at the times at which a message with that text is shown in
-- the stream, from the offset on.
pub timed_windows-Shown :
    (l : List TimedCta) (text : Text) (off t : ℤ)
    → All HasTimes l
    → IsTime off
    → off ≤ℤ t
    → text ≢ []
    → Any (OpenAt text (t -ℤ off)) (timed_windows l off) ↔ Any (ShowsAt text t) l
unfolding timed_windows
timed_windows-Shown [] text off t h k le n = (λ x. x, λ x. x)
timed_windows-Shown (c ∷ l) text off t h k le n =
    let ih = timed_windows-Shown l text off t h.1 k le n in
    let from = start_iff c.start_ms off t h.0.0 k le in
    let till = end_iff c.end_ms off t h.0.1 k in
    elim (Bool-cases (is_empty c.text || leb_ℤ c.end_ms off)) [
      | inl e ↦ rw e (
        λ x. inr (ih.0 x),
        λ x. elim x [ inl y ↦ absurd (skipped c text off t n le e y) | inr y ↦ ih.1 y ],
      )
      | inr e ↦ rw e (
        λ x. elim x [ inl y ↦ inl (y.0, (from.0 y.1.0, till.0 y.1.1)) | inr y ↦ inr (ih.0 y) ],
        λ x. elim x [ inl y ↦ inl (y.0, (from.1 y.1.0, till.1 y.1.1)) | inr y ↦ inr (ih.1 y) ],
      )
    ]
