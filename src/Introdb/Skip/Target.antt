-- ===== src/Introdb/Skip/Target.antt =====
-- What `IntroSkipTarget` answers.
use streamly.Prelude.{List, [], ◌∷◌, ◌++◌, ◌≡◌, ◌≢◌, All, Any}
use streamly.Prelude.Signed.{ℤ, ◌≤ℤ◌, ◌<ℤ◌}
use streamly.Introdb.Record.{SegmentTimestamp}
use streamly.Introdb.Skip.{Result, ok, err, no_intro_data, not_in_intro, past_intro, end_of, of_ms}

-- The position lies in the segment: from its start on, and before its end.
abbrev pub Holds : ℤ → SegmentTimestamp → Type 0
Holds p s = (s.start_ms ≤ℤ p) × (p <ℤ end_of s)

-- The first one of a list that holds the position.
abbrev pub IsFirstHolding : List SegmentTimestamp → ℤ → SegmentTimestamp → Type 0
IsFirstHolding l p s =
    (front : List SegmentTimestamp) × ((back : List SegmentTimestamp) × ((l ≡ front ++ (s ∷ back))
        × (All (λ t. ¬ (Holds p t)) front × Holds p s)))

abbrev pub EndsAfter : ℤ → SegmentTimestamp → Type 0
EndsAfter p s = p <ℤ end_of s

-- The answer for viable segments `v` at position `p`.
pub data Answer (v : List SegmentTimestamp) (p : ℤ) : Result ℤ → Type 0 where
  no_data : v ≡ [] → Answer v p (err no_intro_data)
  inside : (s : SegmentTimestamp) → IsFirstHolding v p s → Answer v p (ok (of_ms (end_of s)))
  before :
      (s : SegmentTimestamp) (l : List SegmentTimestamp)
      → v ≡ s ∷ l
      → All (λ t. ¬ (Holds p t)) v
      → EndsAfter p s
      → Answer v p (ok (of_ms (end_of s)))
  between :
      (s : SegmentTimestamp) (l : List SegmentTimestamp)
      → v ≡ s ∷ l
      → All (λ t. ¬ (Holds p t)) v
      → ¬ (EndsAfter p s)
      → Any (EndsAfter p) l
      → Answer v p (err not_in_intro)
  past : v ≢ [] → All (λ t. ¬ (EndsAfter p t)) v → Answer v p (err past_intro)
