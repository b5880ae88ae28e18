-- ===== src/Introdb/Tests.antt =====
-- A stable sort by the start, and the theorems on a record with three segments.
use streamly.Prelude.{
  ℕ, none, some, List, [], ◌∷◌, inl, inr, refl, All, All-perm, Bool-cases, if◌then◌else◌, arith,
}
use streamly.Prelude.Signed.{pos, ◌≤ℤ◌, leb_ℤ}
use mathlib.Core.List.{Permᴰ}
use mathlib.Core.List.Permᴰ
use streamly.Introdb.Record.{SegmentTimestamp, MediaRecord}
use streamly.Introdb.Skip.{Sort, IsSorted}

insert : SegmentTimestamp → List SegmentTimestamp → List SegmentTimestamp
insert s [] = s ∷ []
insert s (t ∷ l) =
    let rest = insert s l in if leb_ℤ s.start_ms t.start_ms then s ∷ (t ∷ l) else t ∷ rest

insertion_sort : List SegmentTimestamp → List SegmentTimestamp
insertion_sort [] = []
insertion_sort (s ∷ l) = insert s (insertion_sort l)

insert_perm : (s : SegmentTimestamp) (l : List SegmentTimestamp) → Permᴰ (insert s l) (s ∷ l)
unfolding insert
insert_perm s [] = Permᴰ.refl (s ∷ [])
insert_perm s (t ∷ l) = elim (Bool-cases (leb_ℤ s.start_ms t.start_ms)) [
  | inl e ↦ rw e (Permᴰ.refl (s ∷ (t ∷ l)))
  | inr e ↦ rw e (Permᴰ.trans (Permᴰ.cons refl (insert_perm s l)) (Permᴰ.swap refl refl))
]

sort_perm : (l : List SegmentTimestamp) → Permᴰ (insertion_sort l) l
unfolding insertion_sort
sort_perm [] = Permᴰ.nil
sort_perm (s ∷ l) = Permᴰ.trans (insert_perm s (insertion_sort l)) (Permᴰ.cons refl (sort_perm l))

After : SegmentTimestamp → SegmentTimestamp → Type 0
After s t = s.start_ms ≤ℤ t.start_ms

lower :
    (s t : SegmentTimestamp) (l : List SegmentTimestamp)
    → s.start_ms ≤ℤ t.start_ms
    → All (λ u. t.start_ms ≤ℤ u.start_ms) l
    → All (λ u. s.start_ms ≤ℤ u.start_ms) l
lower s t [] h k = tt
lower s t (u ∷ l) h k = (omega (arith, h, k.0), lower s t l h k.1)

insert-IsSorted :
    (s : SegmentTimestamp) (l : List SegmentTimestamp) → IsSorted l → IsSorted (insert s l)
unfolding insert
insert-IsSorted s [] h = (tt, tt)
insert-IsSorted s (t ∷ l) h = elim (Bool-cases (leb_ℤ s.start_ms t.start_ms)) [
  | inl e ↦ let k : s.start_ms ≤ℤ t.start_ms = ground (arith, e) in rw e ((k, lower s t l k h.0), h)
  | inr e ↦
      let k : t.start_ms ≤ℤ s.start_ms = ground (arith, e) in
      rw e (All-perm _ (Permᴰ.symm (insert_perm s l)) (k, h.0), insert-IsSorted s l h.1)
]

insertion_sort-IsSorted : (l : List SegmentTimestamp) → IsSorted (insertion_sort l)
unfolding insertion_sort
insertion_sort-IsSorted [] = tt
insertion_sort-IsSorted (s ∷ l) = insert-IsSorted s (insertion_sort l) (insertion_sort-IsSorted l)

abbrev sorter : Sort
sorter = record {
  sort = insertion_sort;
  sort_perm = sort_perm;
  sort_sorted = insertion_sort-IsSorted;
}

abbrev segment : ℕ → ℕ → SegmentTimestamp
segment a b = record { start_ms = pos a; end_ms = some (pos b) }

abbrev segments : List SegmentTimestamp
segments =
    segment 60_000 95_000
    ∷ (record { start_ms = pos 0; end_ms = none } ∷ (segment 2_000 5_000 ∷ []))

abbrev sample : MediaRecord
sample = record { tmdb_id = pos 1399; kind = "tv"; intro = segments }
