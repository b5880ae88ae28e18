-- ===== src/Transcode/Pause.antt =====
-- `pauseState` of internal/transcode/transcode.go, and the cards of a `Session`. Its lock makes
-- each operation a step.
pub mod Events
use streamly.Prelude.{
  ℕ, suc, ◌%◌, ◌^◌, ◌+◌, Bool, true, false, not, ◌&&◌, ◌||◌, Option, none, some, List,
  if◌then◌else◌, ◌==◌,
}
use streamly.Prelude.Signed.{ℤ, pos}
use streamly.Pool.Session.{sub_time}

pub record PauseState : Type 0 where
  pub paused : Bool
  pub since : Option ℤ
  pub last : ℤ
  pub epoch : ℕ

abbrev pub new_pause_state : PauseState
new_pause_state = record { paused = false; since = none; last = pos 0; epoch = 0 }

unfoldable pub pause : PauseState → ℤ → PauseState
pause p now = if p.paused then p else record p { paused = true; since = some now }

-- A paused state has a time, so that `Since` of the zero time does not occur; it would saturate.
abbrev pub since_of : Option ℤ → ℤ → ℤ
since_of none now = pos 9_223_372_036_854_775_807
since_of (some t) now = sub_time now t

unfoldable pub resume : PauseState → ℤ → PauseState
resume p now = if not p.paused then p else record {
  paused = false;
  since = none;
  last = since_of p.since now;
  epoch = (p.epoch + 1) % 2 ^ 64;
}

-- The duration of the last pause, and its epoch.
unfoldable pub event : PauseState → ℕ → ℤ × ℕ
event p last_seen = if p.epoch == last_seen then (pos 0, last_seen) else (p.last, p.epoch)

-- The card frames of a session: the cache, what it has a card and an encoder for.
pub record Session : Type 0 where
  pub pause : Option PauseState
  pub has_card : Bool
  pub frame_epoch : ℕ
  pub frame_data : Option (List ℕ)
  pub frame_bad : Bool

abbrev pub is_paused : Session → Bool
is_paused s = elim s.pause [ none ↦ false | some p ↦ p.paused ]

abbrev pub is_some : Option (List ℕ) → Bool
is_some none = false
is_some (some d) = true

-- `frame`, where the encoder answers `encoded`, none for an error. A card that could not be encoded
-- is not tried again in its epoch.
unfoldable pub frame : Session → ℕ → Option (List ℕ) → Option (List ℕ) × Session
frame s epoch encoded =
    if s.frame_epoch == epoch && (is_some s.frame_data || s.frame_bad) then (s.frame_data, s) else (
      encoded,
      record s { frame_epoch = epoch; frame_data = encoded; frame_bad = not (is_some encoded) },
    )

unfoldable pub pause_frame : Session → Option (List ℕ) → Option (List ℕ) × Session
pause_frame s encoded = elim s.pause [
  | none ↦ (none, s)
  | some p ↦ if not s.has_card || not p.paused then (none, s) else frame s p.epoch encoded
]

unfoldable pub loading_frame : Session → Option (List ℕ) → Option (List ℕ) × Session
loading_frame s encoded = if not s.has_card then (none, s) else frame s 0 encoded

abbrev pub pause_event : Session → ℕ → ℤ × ℕ
pause_event s last_seen = elim s.pause [ none ↦ (pos 0, last_seen) | some p ↦ event p last_seen ]
