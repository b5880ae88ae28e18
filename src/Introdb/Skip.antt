-- ===== src/Introdb/Skip.antt =====
-- internal/introdb/skip.go and timing.go. Times are int64: a duration in nanoseconds, the rest in
-- milliseconds. `sort.Slice` is a parameter, since it leaves the order of equal starts open.
pub mod Viable
pub mod Target
use streamly.Prelude.{
  Bool, true, false, ◌&&◌, ◌||◌, Option, none, some, List, [], ◌∷◌, if◌then◌else◌, All,
}
use streamly.Prelude.Signed.{ℤ, pos, ◌-ℤ◌, ◌≤ℤ◌, scale, quot, wrap64, ltb_ℤ, leb_ℤ}
use mathlib.Core.List.{Permᴰ}
use streamly.Introdb.Record.{SegmentTimestamp, MediaRecord}

pub data Error : Type 0 where
  no_intro_data not_in_intro past_intro : Error

pub data Result (A : Type 0) : Type 0 where
  ok : A → Result A
  err : Error → Result A

-- In order of the starts, equal ones in any order.
abbrev pub IsSorted : List SegmentTimestamp → Type 0
IsSorted [] = Unit
IsSorted (s ∷ l) = All (λ t. s.start_ms ≤ℤ t.start_ms) l × IsSorted l

-- `sort.Slice` by `StartMs`: the same segments, in order.
pub record Sort : Type 0 where
  pub sort : List SegmentTimestamp → List SegmentTimestamp
  pub sort_perm : (l : List SegmentTimestamp) → Permᴰ (sort l) l
  pub sort_sorted : (l : List SegmentTimestamp) → IsSorted (sort l)

abbrev pub min_intro_duration_ms : ℤ
min_intro_duration_ms = pos 15_000

-- `*segment.EndMs`. A nil pointer would panic; the callers below keep to segments with an end.
abbrev pub end_of : SegmentTimestamp → ℤ
end_of s = elim s.end_ms [ none ↦ pos 0 | some e ↦ e ]

abbrev pub has_end : SegmentTimestamp → Bool
has_end s = elim s.end_ms [ none ↦ false | some e ↦ true ]

unfoldable pub intro_duration : SegmentTimestamp → ℤ
intro_duration s = wrap64 (end_of s -ℤ s.start_ms)

-- The first loop of `viableIntros`.
unfoldable pub with_end : List SegmentTimestamp → List SegmentTimestamp
with_end [] = []
with_end (s ∷ l) = let rest = with_end l in if has_end s then s ∷ rest else rest

-- The last loop: short segments are dropped from the front, but for the last one.
unfoldable pub drop_short : List SegmentTimestamp → List SegmentTimestamp
drop_short [] = []
drop_short (s ∷ []) = s ∷ []
drop_short (s ∷ (t ∷ l)) =
    let rest = drop_short (t ∷ l) in
    if ltb_ℤ (intro_duration s) min_intro_duration_ms then rest else s ∷ (t ∷ l)

-- Go's `time.Duration(ms) * time.Millisecond` and `d.Milliseconds()`.
abbrev pub of_ms : ℤ → ℤ
of_ms ms = wrap64 (scale ms 1_000_000)

abbrev pub to_ms : ℤ → ℤ
to_ms d = quot d 1_000_000

-- The loop over the segments that hold the position.
unfoldable pub first_holding : List SegmentTimestamp → ℤ → Option SegmentTimestamp
first_holding [] p = none
first_holding (s ∷ l) p =
    let rest = first_holding l p in
    if leb_ℤ s.start_ms p && ltb_ℤ p (end_of s) then some s else rest

unfoldable pub some_ends_after : List SegmentTimestamp → ℤ → Bool
some_ends_after [] p = false
some_ends_after (s ∷ l) p = ltb_ℤ p (end_of s) || some_ends_after l p

-- What `IntroSkipTarget` does with the viable segments.
unfoldable pub target_of : List SegmentTimestamp → ℤ → Result ℤ
target_of [] p = err no_intro_data
target_of (intro ∷ l) p = elim (first_holding (intro ∷ l) p) [
  | some s ↦ ok (of_ms (end_of s))
  | none ↦
      if ltb_ℤ p (end_of intro)
      then ok (of_ms (end_of intro))
      else if some_ends_after l p
      then err not_in_intro
      else err past_intro
]

module _ (s : Sort) where
  unfoldable pub viable_intros : List SegmentTimestamp → List SegmentTimestamp
  viable_intros segments = drop_short (s.sort (with_end segments))

  unfoldable pub intro_skip_target : Option MediaRecord → ℤ → Result ℤ
  intro_skip_target none position = err no_intro_data
  intro_skip_target (some r) position = target_of (viable_intros r.intro) (to_ms position)

  -- `IntroWindow`: the window, or none where the code answers `false`.
  unfoldable pub intro_window : Option MediaRecord → Option (ℤ × ℤ)
  intro_window none = none
  intro_window (some r) = elim (viable_intros r.intro) [
    | [] ↦ none
    | intro ∷ l ↦ if has_end intro then some (intro.start_ms, end_of intro) else none
  ]
