-- ===== src/Media/Qualities/Filters.antt =====
-- What holds of all files through the sorting and the filters of a ranking.
use streamly.Prelude.{
  ℕ, ◌≡◌, ◌↔◌, refl, not, false, and-true, not-true, inl, inr, true, List, [], ◌∷◌, ◌++◌,
  if◌then◌else◌, if_split, Bool-cases, All, All-append, leb, ltb, arith,
}
use streamly.Prelude.Text.{is_empty}
use streamly.Source.{is_hls_url}
use streamly.Media.Qualities.{
  FileQuality, is_progressive, quality_height, progressive, less, insert, slice_stable, at_least,
  below_reversed, ordered,
}

-- The quality has a URL, and it is not that of an HLS playlist.
abbrev pub IsProgressive : FileQuality → Type 0
IsProgressive q = (is_empty q.url ≡ false) × (is_hls_url q.url ≡ false)

pub is_progressive_iff : (q : FileQuality) → (is_progressive q ≡ true) ↔ IsProgressive q
unfolding is_progressive
is_progressive_iff q = (
  (λ e.
      let parts : _ = and-true (not (is_empty q.url)) (not (is_hls_url q.url)) e in
      (not-true (is_empty q.url) parts.0, not-true (is_hls_url q.url) parts.1)),
  (λ h. rw (h.0, h.1) refl),
)

module _ (P : FileQuality → Type 0) where
  pub insert-All : (q : FileQuality) (l : List FileQuality) → P q → All P l → All P (insert q l)
  unfolding insert
  insert-All q [] p h = (p, h)
  insert-All q (r ∷ l) p h =
      if_split (All P) (less r q) (λ _. (h.0, insert-All q l p h.1)) (λ _. (p, h))

  pub slice_stable-All : (l : List FileQuality) → All P l → All P (slice_stable l)
  unfolding slice_stable
  slice_stable-All [] h = h
  slice_stable-All (q ∷ l) h = insert-All q (slice_stable l) h.0 (slice_stable-All l h.1)

  All-insert : (q : FileQuality) (l : List FileQuality) → All P (insert q l) → P q × All P l
  unfolding insert
  All-insert q [] h = h
  All-insert q (r ∷ l) k =
      if_split (λ x. All P x → P q × (P r × All P l)) (less r q)
        (λ _ h. let p : _ = All-insert q l h.1 in (p.0, (h.0, p.1))) (λ _ h. h) k

  pub All-slice_stable : (l : List FileQuality) → All P (slice_stable l) → All P l
  unfolding slice_stable
  All-slice_stable [] h = h
  All-slice_stable (q ∷ l) h =
      let k : _ = All-insert q (slice_stable l) h in (k.0, All-slice_stable l k.1)

  pub at_least-All : (t : ℕ) (l : List FileQuality) → All P l → All P (at_least t l)
  unfolding at_least
  at_least-All t [] h = h
  at_least-All t (q ∷ l) h =
      if_split (All P) (leb t (quality_height q)) (λ _. (h.0, at_least-All t l h.1))
        (λ _. at_least-All t l h.1)

  below_reversed-All :
      (t : ℕ) (l later : List FileQuality)
      → All P l
      → All P later
      → All P (below_reversed t l later)
  unfolding below_reversed
  below_reversed-All t [] later h k = k
  below_reversed-All t (q ∷ l) later h k =
      below_reversed-All t l (if ltb (quality_height q) t then q ∷ later else later) h.1
        (if_split (All P) (ltb (quality_height q) t) (λ _. (h.0, k)) (λ _. k))

  pub ordered-All : (t : ℕ) (l : List FileQuality) → All P l → All P (ordered t l)
  ordered-All t l h =
      All-append P (at_least t l) (below_reversed t l []) (at_least-All t l h)
        (below_reversed-All t l [] h (record {}))

  All-below_reversed :
      (t : ℕ) (l later : List FileQuality)
      → All P (below_reversed t l later)
      → All (λ q. ltb (quality_height q) t ≡ true → P q) l × All P later
  unfolding below_reversed
  All-below_reversed t [] later h = (record {}, h)
  All-below_reversed t (q ∷ l) later h =
      let k : _ =
        All-below_reversed t l (if ltb (quality_height q) t then q ∷ later else later) h in
      let both : (ltb (quality_height q) t ≡ true → P q) × All P later =
        if_split (λ x. All P x → (ltb (quality_height q) t ≡ true → P q) × All P later)
          (ltb (quality_height q) t) (λ _ h'. ((λ _. h'.0), h'.1))
          (λ e h'. ((λ f. absurd (cc (e, f))), h')) k.1 in
      ((both.0, k.0), both.1)

  All-at_least :
      (t : ℕ) (l : List FileQuality)
      → All P (at_least t l)
      → All (λ q. leb t (quality_height q) ≡ true → P q) l
  unfolding at_least
  All-at_least t [] h = h
  All-at_least t (q ∷ l) k =
      if_split (λ x. All P x → All (λ r. leb t (quality_height r) ≡ true → P r) (q ∷ l))
        (leb t (quality_height q)) (λ _ h. ((λ _. h.0), All-at_least t l h.1))
        (λ e h. ((λ f. absurd (cc (e, f))), All-at_least t l h)) k

  All-parts : (xs ys : List FileQuality) → All P (xs ++ ys) → All P xs × All P ys
  All-parts [] ys h = (record {}, h)
  All-parts (x ∷ xs) ys h = let k : _ = All-parts xs ys h.1 in ((h.0, k.0), k.1)

  join_sides :
      (t : ℕ) (l : List FileQuality)
      → All (λ q. leb t (quality_height q) ≡ true → P q) l
      → All (λ q. ltb (quality_height q) t ≡ true → P q) l
      → All P l
  join_sides t [] h k = h
  join_sides t (q ∷ l) h k = (
    elim (Bool-cases (leb t (quality_height q))) [
      | inl e ↦ h.0 e
      | inr e ↦ k.0 (ground (arith, e))
    ],
    join_sides t l h.1 k.1,
  )

  pub All-ordered : (t : ℕ) (l : List FileQuality) → All P (ordered t l) → All P l
  All-ordered t l h =
      let k : _ = All-parts (at_least t l) (below_reversed t l []) h in
      join_sides t l (All-at_least t l k.0) (All-below_reversed t l [] k.1).0

  pub All-progressive :
      (l : List FileQuality) → All P (progressive l) → All (λ q. IsProgressive q → P q) l
  unfolding progressive
  All-progressive [] h = h
  All-progressive (q ∷ l) k =
      if_split (λ x. All P x → All (λ r. IsProgressive r → P r) (q ∷ l)) (is_progressive q)
        (λ _ h. ((λ _. h.0), All-progressive l h.1))
        (λ e h. ((λ f. absurd (cc (e, (is_progressive_iff q).1 f))), All-progressive l h)) k

  pub progressive-All :
      (l : List FileQuality) → All (λ q. IsProgressive q → P q) l → All P (progressive l)
  unfolding progressive
  progressive-All [] h = h
  progressive-All (q ∷ l) h =
      if_split (All P) (is_progressive q)
        (λ e. (h.0 ((is_progressive_iff q).0 e), progressive-All l h.1))
        (λ _. progressive-All l h.1)
