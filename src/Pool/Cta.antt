-- ===== src/Pool/Cta.antt =====
-- The on-screen messages of internal/pool/playback.go: those at times of the stream, and those of
-- the next segment. Times are int64 milliseconds.
pub mod Shown
use streamly.Prelude.{ℕ, Bool, true, false, ◌||◌, List, [], ◌∷◌, ◌++◌, if◌then◌else◌}
use streamly.Prelude.Text.{Text, codes, eq_text, has_prefix, is_empty}
use streamly.Prelude.Signed.{ℤ, pos, ◌+ℤ◌, ◌-ℤ◌, leb_ℤ, ltb_ℤ, wrap64}
use streamly.Pool.Session.{Session, SegmentCta, TimedCta, to_ms}

pub record CtaWindow : Type 0 where
  pub text : Text
  pub start_ms : ℤ
  pub end_ms : ℤ

abbrev pub intro_skip_cta_text : Text
intro_skip_cta_text = codes "Use /skip-intro to jump ahead"

abbrev pub live_cta_duration_ms : ℤ
live_cta_duration_ms = pos 8000

unfoldable pub set_timed_cta : Session → TimedCta → Session
set_timed_cta s cta = record s { timed_ctas = s.timed_ctas ++ (cta ∷ []) }

unfoldable pub has_intro_cta : List TimedCta → Bool
has_intro_cta [] = false
has_intro_cta (c ∷ l) = eq_text c.text intro_skip_cta_text || has_intro_cta l

unfoldable pub has_credits_cta : List TimedCta → Bool
has_credits_cta [] = false
has_credits_cta (c ∷ l) = has_prefix c.text (codes "Check #") || has_credits_cta l

abbrev pub not_negative : ℤ → ℤ
not_negative a = if ltb_ℤ a (pos 0) then pos 0 else a

-- The first loop of `buildCTAWindows`.
unfoldable pub timed_windows : List TimedCta → ℤ → List CtaWindow
timed_windows [] offset_ms = []
timed_windows (c ∷ l) offset_ms =
    let rest = timed_windows l offset_ms in
    if is_empty c.text || leb_ℤ c.end_ms offset_ms
    then rest
    else record {
      text = c.text;
      start_ms = not_negative (wrap64 (c.start_ms -ℤ offset_ms));
      end_ms = wrap64 (c.end_ms -ℤ offset_ms);
    }
      ∷ rest

-- The second loop.
unfoldable pub segment_windows : List SegmentCta → ℤ → List CtaWindow
segment_windows [] start_ms = []
segment_windows (c ∷ l) start_ms =
    let rest = segment_windows l start_ms in
    let duration = if leb_ℤ c.duration_ms (pos 0) then live_cta_duration_ms else c.duration_ms in
    if is_empty c.text
    then rest
    else record { text = c.text; start_ms = start_ms; end_ms = wrap64 (start_ms +ℤ duration) }
      ∷ rest

-- The windows, and the session, whose messages for the next segment are used up.
unfoldable pub build_cta_windows : Session → ℤ → List CtaWindow × Session
build_cta_windows s offset = (
  timed_windows s.timed_ctas (to_ms offset)
      ++ segment_windows s.pending_segment_ctas (to_ms offset),
  record s { pending_segment_ctas = [] },
)
