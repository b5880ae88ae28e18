-- ===== src/Pool/Vod/Retries.antt =====
-- How `playVodHLS` ends.
use streamly.Prelude.{
  ℕ, suc, ◌+◌, ◌≤◌, ◌≡◌, ◌⊎◌, true, false, none, some, List, ◌∷◌, ◌++◌, length, All,
}
use streamly.Prelude.Text.{Text}
use streamly.Prelude.Signed.{◌≤ℤ◌, ◌<ℤ◌}
use streamly.Pool.Vod.{
  Attempt, Error, Outcome, finished, failed, cancelled, error_of, hls_startup_retry_window,
}

-- An attempt that is tried again: an error less than 15 seconds after its start.
abbrev pub FailsEarly : Attempt → Type 0
FailsEarly a =
    (a.done_before ≡ false)
    × ((a.done_after ≡ false)
        × (((e : Error) × (error_of a ≡ some e)) × (a.duration <ℤ hls_startup_retry_window)))

-- The attempt that ends the loop, with `left` more retries allowed, and how many segments it plays.
pub data Last (left : ℕ) (a : Attempt) : ℕ → Outcome → Type 0 where
  cancelled_before : a.done_before ≡ true → Last left a 0 cancelled
  cancelled_after : a.done_before ≡ false → a.done_after ≡ true → Last left a 1 cancelled
  finishes :
      a.done_before ≡ false → a.done_after ≡ false → error_of a ≡ none → Last left a 1 finished
  gives_up :
      (e : Error)
      → a.done_before ≡ false
      → a.done_after ≡ false
      → error_of a ≡ some e
      → (left ≡ 0) ⊎ (hls_startup_retry_window ≤ℤ a.duration)
      → Last left a 1 (failed e)

pub data Ending (left : ℕ) : List Attempt → List Text × Outcome → Type 0 where
  unanswered :
      (before : List Attempt) (urls : List Text)
      → All FailsEarly before
      → length urls ≡ length before
      → length before ≤ suc left
      → Ending left before (urls, cancelled)
  ends :
      (before : List Attempt) (a : Attempt) (rest : List Attempt) (urls : List Text) (spare n : ℕ)
      (o : Outcome)
      → All FailsEarly before
      → length before + spare ≡ left
      → Last spare a n o
      → length urls ≡ length before + n
      → Ending left (before ++ (a ∷ rest)) (urls, o)
