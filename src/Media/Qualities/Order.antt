-- ===== src/Media/Qualities/Order.antt =====
-- The order of a ranking.
use streamly.Prelude.{
  ℕ, ◌≤◌, ◌<◌, ◌≡◌, true, false, not, List, [], ◌∷◌, ◌++◌, if_split, All, All-append, All-map, leb,
  ltb, ◌==◌, arith,
}
use streamly.Media.Qualities.{
  FileQuality, quality_height, less, insert, slice_stable, at_least, below_reversed, ordered,
}
use streamly.Media.Qualities.Filters.{insert-All, at_least-All}

-- q may stand before r: those that reach the target come first, the lowest first, and the others
-- behind them, the highest first.
abbrev pub Ranks : ℕ → FileQuality → FileQuality → Type 0
Ranks target q r =
    (target ≤ quality_height q → target ≤ quality_height r → quality_height q ≤ quality_height r)
    × (quality_height q < target
        → (quality_height r < target) × (quality_height r ≤ quality_height q))

abbrev pub IsRanked : ℕ → List FileQuality → Type 0
IsRanked target [] = Unit
IsRanked target (q ∷ l) = All (Ranks target q) l × IsRanked target l

abbrev pub IsAscending : List FileQuality → Type 0
IsAscending [] = Unit
IsAscending (q ∷ l) = All (λ r. quality_height q ≤ quality_height r) l × IsAscending l

less-height : (r q : FileQuality) → less r q ≡ true → quality_height r ≤ quality_height q
unfolding less
less-height r q =
    if_split (λ b. b ≡ true → quality_height r ≤ quality_height q)
      (not (quality_height r == quality_height q)) (λ _ e. ground (arith, e))
      (λ e _. ground (arith, e))

not-less-height : (r q : FileQuality) → less r q ≡ false → quality_height q ≤ quality_height r
unfolding less
not-less-height r q =
    if_split (λ b. b ≡ false → quality_height q ≤ quality_height r)
      (not (quality_height r == quality_height q)) (λ _ e. ground (arith, e))
      (λ e _. ground (arith, e))

insert-IsAscending :
    (q : FileQuality) (l : List FileQuality) → IsAscending l → IsAscending (insert q l)
unfolding insert
insert-IsAscending q [] h = (record {}, record {})
insert-IsAscending q (r ∷ l) h =
    if_split IsAscending (less r q)
      (λ e. (
        insert-All (λ x. quality_height r ≤ quality_height x) q l (less-height r q e) h.0,
        insert-IsAscending q l h.1,
      ))
      (λ e.
        let first : quality_height q ≤ quality_height r = not-less-height r q e in
        ((first, All-map (λ x k. omega arith) l h.0), h))

pub slice_stable-IsAscending : (l : List FileQuality) → IsAscending (slice_stable l)
unfolding slice_stable
slice_stable-IsAscending [] = record {}
slice_stable-IsAscending (q ∷ l) =
    insert-IsAscending q (slice_stable l) (slice_stable-IsAscending l)

-- Those below the target, the highest first, are ranked.
below_reversed-IsRanked :
    (t : ℕ) (l later : List FileQuality)
    → IsAscending l
    → All (λ r. quality_height r < t) later
    → All (λ q. All (λ r. quality_height r ≤ quality_height q) later) l
    → IsRanked t later
    → All (λ r. quality_height r < t) (below_reversed t l later)
      × IsRanked t (below_reversed t l later)
unfolding below_reversed
below_reversed-IsRanked t [] later h b u k = (b, k)
below_reversed-IsRanked t (q ∷ l) later h b u k =
    if_split {A = List FileQuality}
      (λ x.
        All (λ r. quality_height r < t) (below_reversed t l x) × IsRanked t (below_reversed t l x))
      (ltb (quality_height q) t)
      (λ e.
        let low : quality_height q < t = ground (arith, e) in
        below_reversed-IsRanked t l (q ∷ later) h.1 (low, b) (both l h.0 u.1)
          (ranks later b u.0 low, k))
      (λ _. below_reversed-IsRanked t l later h.1 b u.1 k)
  where
    both :
        (l : List FileQuality)
        → All (λ r. quality_height q ≤ quality_height r) l
        → All (λ p. All (λ r. quality_height r ≤ quality_height p) later) l
        → All
            (λ p.
              (quality_height q ≤ quality_height p)
              × All (λ r. quality_height r ≤ quality_height p) later)
            l
    both [] h u = record {}
    both (p ∷ l) h u = ((h.0, u.0), both l h.1 u.1)

    ranks :
        (later : List FileQuality)
        → All (λ r. quality_height r < t) later
        → All (λ r. quality_height r ≤ quality_height q) later
        → quality_height q < t
        → All (Ranks t q) later
    ranks [] b u low = record {}
    ranks (r ∷ later) b u low =
        (((λ i j. absurd (omega arith)), (λ _. (b.0, u.0))), ranks later b.1 u.1 low)

at_least-IsRanked :
    (t : ℕ) (l below : List FileQuality)
    → IsAscending l
    → All (λ r. quality_height r < t) below
    → IsRanked t below
    → IsRanked t (at_least t l ++ below)
unfolding at_least
at_least-IsRanked t [] below h b k = k
at_least-IsRanked t (q ∷ l) below h b k =
    if_split {A = List FileQuality} (λ x. IsRanked t (x ++ below)) (leb t (quality_height q))
      (λ e.
        let high : t ≤ quality_height q = ground (arith, e) in
        (
          All-append (Ranks t q) (at_least t l) below
              (All-map (λ r i. ((λ _ _. i), (λ j. absurd (omega arith)))) (at_least t l)
                (at_least-All (λ r. quality_height q ≤ quality_height r) t l h.0))
              (All-map (λ r i. ((λ _ j. absurd (omega arith)), (λ j. absurd (omega arith)))) below
                b),
          at_least-IsRanked t l below h.1 b k,
        ))
      (λ _. at_least-IsRanked t l below h.1 b k)

below-nil : (l : List FileQuality) → All (λ q. All (λ r. quality_height r ≤ quality_height q) []) l
below-nil [] = record {}
below-nil (q ∷ l) = (record {}, below-nil l)

pub ordered-IsRanked : (t : ℕ) (l : List FileQuality) → IsRanked t (ordered t (slice_stable l))
ordered-IsRanked t l =
    let sorted : List FileQuality = slice_stable l in
    let h : IsAscending sorted = slice_stable-IsAscending l in
    let b : _ = below_reversed-IsRanked t sorted [] h (record {}) (below-nil sorted) (record {}) in
    at_least-IsRanked t sorted (below_reversed t sorted []) h b.0 b.1
