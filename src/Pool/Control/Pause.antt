-- ===== src/Pool/Control/Pause.antt =====
-- What `Pause` and `Resume` of internal/pool/pool.go do to a stream's position.
use streamly.Prelude.{
  sym, ◌∙◌, ◌⊎◌, not, ◌||◌, true, false, Option-cases, inl, inr, none, some, ◌≡◌, refl, arith, ap,
  if◌then◌else◌,
}
use streamly.Prelude.Signed.{ℤ, pos, ◌+ℤ◌, ◌-ℤ◌, Fits64, int_laws}
use streamly.Pool.Session.{
  Session, Request, capped, is_live, position_ms, sub_time, saturate, clock, to_ms,
}
use streamly.Pool.Control.{pause, resume, shifted}

pub saturate_of_fits : (d : ℤ) → Fits64 d → saturate d ≡ d
unfolding saturate
saturate_of_fits d h = ground arith

cancel_shift : (t p t' u : ℤ) → (t' +ℤ u) -ℤ (t +ℤ (t' -ℤ p)) ≡ (p +ℤ u) -ℤ t
cancel_shift t p t' u = grind int_laws

sub_time_shift :
    (t p t' u : ℤ)
    → Fits64 (t' -ℤ p)
    → sub_time (t' +ℤ u) (t +ℤ sub_time t' p) ≡ sub_time (p +ℤ u) t
sub_time_shift t p t' u h = rw (saturate_of_fits (t' -ℤ p) h, cancel_shift t p t' u) refl

pause_eq :
    (s : Session) (p : ℤ)
    → s.busy ≡ true
    → s.paused ≡ false
    → is_live s ≡ false
    → (pause s p).0 ≡ record s { paused = true; paused_at = some p }
unfolding pause
pause_eq s p b q l =
    let guard : (s.paused || not s.busy || is_live s) ≡ false = rw (q, b, l) refl in rw guard refl

resume_eq :
    (s : Session) (p t : ℤ)
    → (resume (record s { paused = true; paused_at = some p }) t).0
      ≡ record s { started_at = shifted s.started_at (some p) t; paused = false; paused_at = none }
unfolding resume
resume_eq s p t = refl

position_eq :
    (s : Session) (r : Request) (a now : ℤ)
    → s.request ≡ some r
    → s.started_at ≡ some a
    → position_ms s now ≡ capped s.duration_ms (to_ms (sub_time (clock s now) a))
unfolding position_ms
position_eq s r a now e f = rw (e, f) refl

position_none :
    (s : Session) (now : ℤ) → (s.request ≡ none) ⊎ (s.started_at ≡ none) → position_ms s now ≡ pos 0
unfolding position_ms
position_none s now (inl e) = rw e refl
position_none s now (inr f) = elim (Option-cases s.request) [
  | inl e ↦ rw e refl
  | inr (r, e) ↦ rw (e, f) refl
]

clock_running : (s : Session) (now : ℤ) → s.paused ≡ false → clock s now ≡ now
clock_running s now q = ap (λ x. if x then elim s.paused_at [ none ↦ now | some t ↦ t ] else now) q

-- While a stream is paused its position stays that of the pause, and once it is resumed it runs on
-- from there: for a busy session that is neither paused nor live, paused at p and resumed at t,
-- less than 292 years after, the position at any time is that of p before the resume, and u after
-- the resume it is the one that the stream, never paused, has u after p.
pub pause-resume :
    (s : Session) (p t u : ℤ)
    → s.busy ≡ true
    → s.paused ≡ false
    → is_live s ≡ false
    → Fits64 (t -ℤ p)
    → (position_ms (pause s p).0 u ≡ position_ms s p)
      × (position_ms (resume (pause s p).0 t).0 (t +ℤ u) ≡ position_ms s (p +ℤ u))
pause-resume s p t u b q l h =
    rw (pause_eq s p b q l, resume_eq s p t)
      (elim (Option-cases s.request) [
        | inl e ↦ still (inl e) (inl e)
        | inr (r, e) ↦ elim (Option-cases s.started_at) [
          | inl f ↦ still (inr f) (inr (ap (λ x. shifted x (some p) t) f))
          | inr (a, f) ↦ (
            position_eq paused_s r a u e f
                ∙ (ap (λ x. at (sub_time x a)) (sym (clock_running s p q))
                    ∙ sym (position_eq s r a p e f)),
            position_eq resumed_s r (a +ℤ sub_time t p) (t +ℤ u) e
                  (ap (λ x. shifted x (some p) t) f)
                ∙ (ap at (sub_time_shift a p t u h)
                    ∙ (ap (λ x. at (sub_time x a)) (sym (clock_running s (p +ℤ u) q))
                        ∙ sym (position_eq s r a (p +ℤ u) e f))),
          )
        ]
      ])
  where
    at : ℤ → ℤ
    at d = capped s.duration_ms (to_ms d)

    paused_s : Session
    paused_s = record s { paused = true; paused_at = some p }

    resumed_s : Session
    resumed_s = record s {
      started_at = shifted s.started_at (some p) t;
      paused = false;
      paused_at = none;
    }

    still :
        (s.request ≡ none) ⊎ (s.started_at ≡ none)
        → (s.request ≡ none) ⊎ (shifted s.started_at (some p) t ≡ none)
        → (position_ms paused_s u ≡ position_ms s p)
          × (position_ms resumed_s (t +ℤ u) ≡ position_ms s (p +ℤ u))
    still h h' = (
      position_none paused_s u h ∙ sym (position_none s p h),
      position_none resumed_s (t +ℤ u) h' ∙ sym (position_none s (p +ℤ u) h),
    )
