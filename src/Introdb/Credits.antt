-- ===== src/Introdb/Credits.antt =====
-- `CreditsStart` of internal/introdb/timing.go. Its first threshold is exact for durations below
-- 2 ^ 51; the second, a product of floats, is a parameter.
pub mod Latest
mod Tests
use streamly.Prelude.{
  ℕ, Bool, true, false, not, ◌||◌, ◌&&◌, Option, none, some, List, [], ◌∷◌, if◌then◌else◌,
}
use streamly.Prelude.Signed.{ℤ, pos, ltb_ℤ, leb_ℤ, scale, quot}
use streamly.Introdb.Record.{SegmentTimestamp, MediaRecord}
use streamly.Introdb.Skip.{of_ms, has_end}

-- A segment with an end that starts at the threshold or after it.
abbrev pub is_late : ℤ → SegmentTimestamp → Bool
is_late threshold s = has_end s && not (ltb_ℤ s.start_ms threshold)

abbrev pub better : Option SegmentTimestamp → SegmentTimestamp → Bool
better none s = true
better (some b) s = ltb_ℤ b.start_ms s.start_ms

-- The first loop.
unfoldable pub best_of :
    ℤ → List SegmentTimestamp → Option SegmentTimestamp → Option SegmentTimestamp
best_of threshold [] best = best
best_of threshold (s ∷ l) best =
    best_of threshold l (if is_late threshold s && better best s then some s else best)

-- The second loop, which goes from the last segment to the first.
unfoldable pub last_late : ℤ → List SegmentTimestamp → Option SegmentTimestamp
last_late threshold [] = none
last_late threshold (s ∷ l) = elim (last_late threshold l) [
  | some t ↦ some t
  | none ↦ if is_late threshold s then some s else none
]

abbrev pub is_nil : List SegmentTimestamp → Bool
is_nil [] = true
is_nil (s ∷ l) = false

unfoldable pub credits_start : (ℤ → ℤ) → Option MediaRecord → ℤ → Option ℤ
credits_start late_threshold none duration_ms = none
credits_start late_threshold (some media) duration_ms =
    if leb_ℤ duration_ms (pos 0) || is_nil media.intro
    then none
    else elim (best_of (quot (scale duration_ms 3) 4) media.intro none) [
      | some s ↦ some (of_ms s.start_ms)
      | none ↦ elim (last_late (late_threshold duration_ms) media.intro) [
        | some s ↦ some (of_ms s.start_ms)
        | none ↦ none
      ]
    ]
