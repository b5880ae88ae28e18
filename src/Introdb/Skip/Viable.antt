-- ===== src/Introdb/Skip/Viable.antt =====
-- The segments that `viableIntros` keeps.
use mathlib.Core.List.{Permᴰ}
use mathlib.Core.List.Permᴰ
use mathlib.Core.Path.{subst}
use streamly.Prelude.{
  none, some, if◌then◌else◌, List, [], ◌∷◌, ◌++◌, ◌≡◌, refl, ap, inl, inr, ◌↔◌, arith, All,
  Option_split, Bool-cases,
}
use streamly.Prelude.Signed.{pos, ltb_ℤ, ◌≤ℤ◌, ◌<ℤ◌}
use streamly.Introdb.Record.{SegmentTimestamp}
use streamly.Introdb.Skip.{
  Sort, IsSorted, has_end, intro_duration, min_intro_duration_ms, with_end, drop_short,
  viable_intros,
}

abbrev pub IsShort : SegmentTimestamp → Type 0
IsShort s = intro_duration s <ℤ pos 15_000

-- What is dropped stood at the front, and is short.
drop_short-split :
    (l : List SegmentTimestamp)
    → (short : List SegmentTimestamp) × (l ≡ short ++ drop_short l) × All IsShort short
unfolding drop_short
drop_short-split [] = ([], refl, tt)
drop_short-split (s ∷ []) = ([], refl, tt)
drop_short-split (s ∷ (t ∷ l)) =
    elim (Bool-cases (ltb_ℤ (intro_duration s) min_intro_duration_ms)) [
      | inl e ↦
          let (short, split, all) = drop_short-split (t ∷ l) in
          rw e (s ∷ short, ap (◌∷◌ s) split, (ground arith, all))
      | inr e ↦ rw e ([], refl, tt)
    ]

drop_short-IsSorted : (l : List SegmentTimestamp) → IsSorted l → IsSorted (drop_short l)
unfolding drop_short
drop_short-IsSorted [] h = h
drop_short-IsSorted (s ∷ []) h = h
drop_short-IsSorted (s ∷ (t ∷ l)) h =
    elim (Bool-cases (ltb_ℤ (intro_duration s) min_intro_duration_ms)) [
      | inl e ↦ rw e (drop_short-IsSorted (t ∷ l) h.1)
      | inr e ↦ rw e h
    ]

-- The first segment is long enough, or the only one left.
abbrev pub StartsLong : List SegmentTimestamp → Type 0
StartsLong [] = Unit
StartsLong (s ∷ []) = Unit
StartsLong (s ∷ (t ∷ l)) = pos 15_000 ≤ℤ intro_duration s

drop_short-StartsLong : (l : List SegmentTimestamp) → StartsLong (drop_short l)
unfolding drop_short
drop_short-StartsLong [] = tt
drop_short-StartsLong (s ∷ []) = tt
drop_short-StartsLong (s ∷ (t ∷ l)) =
    elim (Bool-cases (ltb_ℤ (intro_duration s) min_intro_duration_ms)) [
      | inl e ↦ rw e (drop_short-StartsLong (t ∷ l))
      | inr e ↦ rw e (ground arith)
    ]

drop_short-eq_nil : (l : List SegmentTimestamp) → drop_short l ≡ [] → l ≡ []
unfolding drop_short
drop_short-eq_nil [] h = refl
drop_short-eq_nil (s ∷ []) h = h
drop_short-eq_nil (s ∷ (t ∷ l)) h =
    elim (Bool-cases (ltb_ℤ (intro_duration s) min_intro_duration_ms)) [
      | inl e ↦ cc (drop_short-eq_nil (t ∷ l) (rw e at h))
      | inr e ↦ rw e at h
    ]

perm-nil : {l k : List SegmentTimestamp} → Permᴰ l k → l ≡ [] → k ≡ []
perm-nil Permᴰ.nil e = refl
perm-nil (Permᴰ.cons _ _) e = cc
perm-nil (Permᴰ.swap _ _) e = cc
perm-nil (Permᴰ.trans p q) e = perm-nil q (perm-nil p e)

-- The segments that have an end.
abbrev pub ended : List SegmentTimestamp → List SegmentTimestamp
ended [] = []
ended (s ∷ l) = elim s.end_ms [ none ↦ ended l | some e ↦ s ∷ ended l ]

with_end-ended : (l : List SegmentTimestamp) → with_end l ≡ ended l
unfolding with_end
with_end-ended [] = refl
with_end-ended (s ∷ l) =
    let rest : with_end l ≡ ended l = with_end-ended l in
    Option_split {A = List SegmentTimestamp}
      (λ m. (if has_end s then s ∷ with_end l else with_end l) ≡ m) s.end_ms
      (λ e. rw (e, rest) refl) (λ d e. rw (e, rest) refl)

-- The segments with an end, in order of their starts, less some short ones at the front. What is
-- left is led by a segment of at least 15 seconds or by the last, and is empty only where no
-- segment has an end.
abbrev pub IsViable : List SegmentTimestamp → List SegmentTimestamp → Type 0
IsViable l v =
    IsSorted v
    × (StartsLong v
        × (((short : List SegmentTimestamp) × (Permᴰ (short ++ v) (ended l) × All IsShort short))
            × ((v ≡ []) ↔ (ended l ≡ []))))

pub viable_intros-IsViable : (s : Sort) (l : List SegmentTimestamp) → IsViable l (viable_intros s l)
unfolding viable_intros drop_short
viable_intros-IsViable s l =
    let k : List SegmentTimestamp = s.sort (with_end l) in
    let p : Permᴰ k (ended l) = subst (Permᴰ k) (with_end-ended l) (s.sort_perm (with_end l)) in
    let (short, split, all) = drop_short-split k in
    (
      drop_short-IsSorted k (s.sort_sorted (with_end l)),
      (
        drop_short-StartsLong k,
        (
          (short, (subst (λ m. Permᴰ m (ended l)) split p, all)),
          (
            (λ e. perm-nil p (drop_short-eq_nil k e)),
            (λ e. ap drop_short (perm-nil (Permᴰ.symm p) e)),
          ),
        ),
      ),
    )
