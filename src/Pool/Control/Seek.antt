-- ===== src/Pool/Control/Seek.antt =====
-- What `Seek` of internal/pool/pool.go answers, and what the segment loop then takes.
use streamly.Prelude.{
  ℕ, true, false, Option, none, some, List, [], ◌≡◌, refl, sym, arith, ◌⊎◌, inl, inr, Bool-cases,
  Option-cases, ◌*◌, ◌≤◌, ◌-◌, if◌then◌else◌,
}
use streamly.Prelude.Signed.{ℤ, pos, negsuc, ◌-ℤ◌, ◌≤ℤ◌, ◌<ℤ◌, ltb_ℤ, ltb_ℤ_iff, wrap64, scale}
use mathlib.Core.Path.{subst}
use streamly.Source.{is_hls_url}
use streamly.Pool.Session.{Session, Request, Effect, cancel}
use streamly.Pool.Control.{
  each, seek, take_seek, Sought, to, refused, no_active_stream, is_live_stream, unseekable,
  seek_target, seek_limit,
}

-- Durations below 285 years, so that their nanoseconds fit.
abbrev pub IsDuration : Option ℤ → Type 0
IsDuration none = Unit
IsDuration (some (pos ms)) = ms ≤ 9_000_000_000_000
IsDuration (some (negsuc ms)) = ⊥

abbrev pub Within : ℤ → Option ℤ → Type 0
Within t none = Unit
Within t (some (pos ms)) = t ≤ℤ pos (ms * 1_000_000 - 2_000_000_000)
Within t (some (negsuc ms)) = ⊥

pub data Clamped (target : ℤ) : Option ℤ → ℤ → Type 0 where
  kept : (d : Option ℤ) → pos 0 ≤ℤ target → Within target d → Clamped target d target
  raised : (d : Option ℤ) → target <ℤ pos 0 → Clamped target d (pos 0)
  cut :
      (ms : ℕ)
      → pos (ms * 1_000_000 - 2_000_000_000) <ℤ target
      → Clamped target (some (pos ms)) (pos (ms * 1_000_000 - 2_000_000_000))

pub data SeekAnswer (s : Session) (target : ℤ) : Sought × Session × List Effect → Type 0 where
  idle :
      (s.busy ≡ false) ⊎ (s.request ≡ none) → SeekAnswer s target (refused no_active_stream, s, [])
  live :
      (r : Request)
      → s.busy ≡ true
      → s.request ≡ some r
      → r.live ≡ true
      → SeekAnswer s target (refused is_live_stream, s, [])
  hls :
      (r : Request)
      → s.busy ≡ true
      → s.request ≡ some r
      → r.live ≡ false
      → is_hls_url r.initial_url ≡ true
      → SeekAnswer s target (refused unseekable, s, [])
  accepted :
      (r : Request) (t : ℤ) (s' : Session) (acts : List Effect)
      → s.busy ≡ true
      → s.request ≡ some r
      → r.live ≡ false
      → is_hls_url r.initial_url ≡ false
      → Clamped target s.duration_ms t
      → take_seek s' ≡ (some t, record s { pending_seek = none })
      → SeekAnswer s target (to t, s', acts)

seek_limit_eq :
    (ms : ℕ) → ms ≤ 9_000_000_000_000 → seek_limit (pos ms) ≡ pos (ms * 1_000_000 - 2_000_000_000)
unfolding wrap64 scale ◌-ℤ◌
seek_limit_eq ms h = ground arith

cut_zero : (n : ℕ) → (if ltb_ℤ (pos n) (pos 0) then pos n else pos 0) ≡ pos 0
cut_zero n = ground arith

seek_target-Clamped :
    (d : Option ℤ) (target : ℤ) → IsDuration d → Clamped target d (seek_target d target)
seek_target-Clamped none target h = elim (Bool-cases (ltb_ℤ target (pos 0))) [
  | inl e ↦ rw e (raised none (ground (arith, ltb_ℤ_iff target (pos 0), e)))
  | inr e ↦ rw e (kept none (ground (arith, ltb_ℤ_iff target (pos 0), e)) tt)
]
seek_target-Clamped (some (negsuc ms)) target h = absurd h
seek_target-Clamped (some (pos ms)) target h =
    rw (seek_limit_eq ms h) (elim (Bool-cases (ltb_ℤ target (pos 0))) [
      | inl e ↦ rw e (
          subst (Clamped target (some (pos ms))) (sym (cut_zero (ms * 1_000_000 - 2_000_000_000)))
            (raised _ (ground (arith, ltb_ℤ_iff target (pos 0), e))))
      | inr e ↦ rw e (elim (Bool-cases (ltb_ℤ (pos (ms * 1_000_000 - 2_000_000_000)) target)) [
        | inl f ↦
            rw f
              (cut ms (ground (arith, ltb_ℤ_iff (pos (ms * 1_000_000 - 2_000_000_000)) target, f)))
        | inr f ↦ rw f (
            kept _ (ground (arith, ltb_ℤ_iff target (pos 0), e))
              (ground (arith, ltb_ℤ_iff (pos (ms * 1_000_000 - 2_000_000_000)) target, f)))
      ])
    ])

-- Where the duration, if known, is below 285 years: `Seek` refuses a session that is not busy or
-- has no request, a live one and one of an HLS playlist, and then changes nothing; else it accepts
-- the target, clamped to what lies between 0 and two seconds before the end, and the segment loop's
-- `takeSeek` gives exactly this target and leaves none.
pub seek-SeekAnswer :
    (s : Session) (target : ℤ) → IsDuration s.duration_ms → SeekAnswer s target (seek s target)
unfolding seek take_seek
seek-SeekAnswer s target h = elim (Bool-cases s.busy) [
  | inr b ↦ give (simp b) (idle (inl b))
  | inl b ↦ elim (Option-cases s.request) [
    | inl e ↦ give (simp (b, e)) (idle (inr e))
    | inr (r, e) ↦ elim (Bool-cases r.live) [
      | inl l ↦ give (simp (b, e, l)) (live r b e l)
      | inr l ↦ elim (Bool-cases (is_hls_url r.initial_url)) [
        | inl u ↦ give (simp (b, e, l, u)) (hls r b e l u)
        | inr u ↦ give (simp (b, e, l, u)) (
            accepted r (seek_target s.duration_ms target)
              (record s { pending_seek = some (seek_target s.duration_ms target) })
              (each s.segment_cancel cancel) b e l u (seek_target-Clamped s.duration_ms target h)
              refl)
      ]
    ]
  ]
]
  where
    give :
        {x : Sought × Session × List Effect}
        → seek s target ≡ x
        → SeekAnswer s target x
        → SeekAnswer s target (seek s target)
    give e t = subst (SeekAnswer s target) (sym e) t
