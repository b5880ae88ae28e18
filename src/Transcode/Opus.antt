-- ===== src/Transcode/Opus.antt =====
-- internal/transcode/opus_duration.go. The frame sizes are in tenths of a millisecond: 2.5 ms is
-- the only one that is not whole, and the products of the code's floats are exact.
pub mod Bounds
use streamly.Prelude.{
  ℕ, ◌*◌, ◌/◌, ◌%◌, Bool, Option, none, some, List, [], ◌∷◌, ◌++◌, get_elem?, if◌then◌else◌, ◌==◌,
}

abbrev pub opus_frame_sizes : List ℕ
opus_frame_sizes =
    100 ∷ 200 ∷ 400 ∷ 600 ∷ 100 ∷ 200 ∷ 400 ∷ 600 ∷ 100 ∷ 200 ∷ 400 ∷ 600 ∷ 100 ∷ 200 ∷ 100 ∷ 200
    ∷ 25 ∷ 50 ∷ 100 ∷ 200 ∷ 25 ∷ 50 ∷ 100 ∷ 200 ∷ 25 ∷ 50 ∷ 100 ∷ 200 ∷ 25 ∷ 50 ∷ 100 ∷ 200 ∷ []

-- The count of frames, 0 where it is missing.
unfoldable pub frame_count : ℕ → List ℕ → ℕ
frame_count first rest =
    if first % 4 == 0
    then 1
    else if first % 4 == 3
    then elim rest [ [] ↦ 0 | second ∷ _ ↦ second % 64 ]
    else 2

-- In nanoseconds.
unfoldable pub opus_packet_duration : List ℕ → ℕ
opus_packet_duration [] = 0
opus_packet_duration (first ∷ rest) = elim (get_elem? opus_frame_sizes (first / 8)) [
  | none ↦ 0
  | some size ↦ size * frame_count first rest * 100_000
]
