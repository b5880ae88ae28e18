-- ===== src/Introdb/Credits/Latest.antt =====
-- Which segment the credits are taken from.
use streamly.Prelude.{
  ◌≡◌, true, false, ◌&&◌, Option, none, some, List, ◌∷◌, ◌++◌, if◌then◌else◌, All,
}
use streamly.Prelude.Signed.{ℤ, ◌≤ℤ◌}
use streamly.Introdb.Record.{SegmentTimestamp}
use streamly.Introdb.Skip.{of_ms}
use streamly.Introdb.Credits.{is_late, better}

-- A segment that is late starts no later than the best; without a best, it is not late.
abbrev pub Covered : ℤ → Option SegmentTimestamp → SegmentTimestamp → Type 0
Covered threshold none s = is_late threshold s ≡ false
Covered threshold (some b) s = is_late threshold s ≡ true → s.start_ms ≤ℤ b.start_ms

abbrev pub IsLate : ℤ → Option SegmentTimestamp → Type 0
IsLate threshold none = Unit
IsLate threshold (some b) = is_late threshold b ≡ true

abbrev pick : ℤ → SegmentTimestamp → Option SegmentTimestamp → Option SegmentTimestamp
pick threshold s best = if is_late threshold s && better best s then some s else best

-- The last late segment of a list: behind it none is.
abbrev pub IsLast : ℤ → List SegmentTimestamp → Option SegmentTimestamp → Type 0
IsLast threshold l none = All (λ s. is_late threshold s ≡ false) l
IsLast threshold l (some b) =
    (front : List SegmentTimestamp) × ((back : List SegmentTimestamp) × ((front ++ (b ∷ back) ≡ l)
        × ((is_late threshold b ≡ true) × All (λ s. is_late threshold s ≡ false) back)))

abbrev pub start_of : Option SegmentTimestamp → Option ℤ
start_of none = none
start_of (some s) = some (of_ms s.start_ms)

-- The start of the best segment or, without one, that of the last one past the second threshold.
abbrev pub Starts : ℤ → List SegmentTimestamp → Option ℤ → Option SegmentTimestamp → Type 0
Starts second l answer (some b) = answer ≡ some (of_ms b.start_ms)
Starts second l answer none =
    (last : Option SegmentTimestamp) × (IsLast second l last × (answer ≡ start_of last))

-- Where the credits start: with the latest segment past the first threshold, or, where none is,
-- with the last one past the second.
abbrev pub IsCreditsStart : ℤ → ℤ → List SegmentTimestamp → Option ℤ → Type 0
IsCreditsStart first second l answer =
    (best : Option SegmentTimestamp) × (IsLate first best
      × (All (Covered first best) l × Starts second l answer best))
