-- ===== src/Media/Qualities/Pick.antt =====
-- `PickQuality` of internal/media/media.go. `sort.Slice` is not stable: it is a parameter, of which
-- only what Go's documentation says is used.
use streamly.Prelude.{
  ℕ, ◌≤◌, ◌<◌, ◌≡◌, refl, sym, Option, none, some, List, [], ◌∷◌, ◌⊎◌, inl, inr, if◌then◌else◌,
  if_split, All, All-map, All-perm, Any, Any-perm, leb, arith, ◌≢◌,
}
use streamly.Media.Qualities.{FileQuality, quality_height, progressive}
use streamly.Media.Qualities.Filters.{IsProgressive, All-progressive, progressive-All}
use mathlib.Core.List.{Permᴰ}
use streamly.Media.Qualities.Order.{IsAscending}
use mathlib.Core.Path.{subst}

abbrev pub Sort : Type 0
Sort = List FileQuality → List FileQuality

-- The first of a sorted list that reaches the target, else its last.
unfoldable pub first_from : ℕ → List FileQuality → Option FileQuality
first_from target [] = none
first_from target (q ∷ l) =
    let rest = first_from target l in
    if leb target (quality_height q) then some q else elim rest [ none ↦ some q | some r ↦ some r ]

-- The progressive ones, where there are any.
unfoldable pub candidates : List FileQuality → List FileQuality
candidates qualities = elim (progressive qualities) [ [] ↦ qualities | q ∷ l ↦ q ∷ l ]

unfoldable pub pick_quality : Sort → List FileQuality → ℕ → Option FileQuality
pick_quality sort qualities target = first_from target (sort (candidates qualities))

-- `q` reaches the target and nothing that does is lower, or nothing reaches it and `q` is the
-- highest.
abbrev pub IsNearest : ℕ → FileQuality → List FileQuality → Type 0
IsNearest target q l =
    ((target ≤ quality_height q)
      × All (λ r. target ≤ quality_height r → quality_height q ≤ quality_height r) l)
    ⊎ All (λ r. (quality_height r < target) × (quality_height r ≤ quality_height q)) l

abbrev pub IsPicked : ℕ → Option FileQuality → List FileQuality → Type 0
IsPicked target none l = l ≡ []
IsPicked target (some q) l = Any (λ r. r ≡ q) l × IsNearest target q l

All-Any :
    (P : FileQuality → Type 0) {q : FileQuality} (l : List FileQuality)
    → All P l
    → Any (λ r. r ≡ q) l
    → P q
All-Any P [] h a = absurd a
All-Any P (r ∷ l) h (inl e) = subst P e h.0
All-Any P (r ∷ l) h (inr a) = All-Any P l h.1 a

abbrev IsPickedFrom : ℕ → List FileQuality → Option FileQuality → Type 0
IsPickedFrom target l o = IsPicked target o l

-- One more in front that does not reach the target.
lower-IsPicked :
    (target : ℕ) (q : FileQuality) (l : List FileQuality) (o : Option FileQuality)
    → quality_height q < target
    → All (λ r. quality_height q ≤ quality_height r) l
    → IsPicked target o l
    → IsPicked target (elim o [ none ↦ some q | some r ↦ some r ]) (q ∷ l)
lower-IsPicked target q l none below h e = (
  inl refl,
  inr (
    (below, omega arith),
    subst (All (λ r. (quality_height r < target) × (quality_height r ≤ quality_height q))) (sym e)
        (record {}),
  ),
)
lower-IsPicked target q l (some r) below h (a, inl (reach, near)) =
    (inr a, inl (reach, ((λ reaches. absurd (omega (arith, below, reaches))), near)))
lower-IsPicked target q l (some r) below h (a, inr all) =
    (inr a, inr ((below, All-Any (λ r. quality_height q ≤ quality_height r) l h a), all))

first_from-IsPicked :
    (target : ℕ) (l : List FileQuality) → IsAscending l → IsPicked target (first_from target l) l
unfolding first_from
first_from-IsPicked target [] h = refl
first_from-IsPicked target (q ∷ l) h =
    if_split (IsPickedFrom target (q ∷ l)) (leb target (quality_height q))
      (λ e. (inl refl, inl (ground (arith, e), ((λ _. omega arith), All-map (λ r le _. le) l h.0))))
      (λ e.
        lower-IsPicked target q l (first_from target l) (ground (arith, e)) h.0
          (first_from-IsPicked target l h.1))

All-nil : (l : List FileQuality) → All (λ _. ⊥) l → l ≡ []
All-nil [] h = refl
All-nil (q ∷ l) h = absurd h.0

perm-IsPicked :
    (target : ℕ) (o : Option FileQuality) {l m : List FileQuality}
    → Permᴰ l m
    → IsPicked target o l
    → IsPicked target o m
perm-IsPicked target none {l} {m} p e =
    All-nil m (All-perm (λ _. ⊥) p (subst (All (λ _. ⊥)) (sym e) (record {})))
perm-IsPicked target (some q) p (a, inl (reach, near)) = (
  Any-perm (λ r. r ≡ q) p a,
  inl (
    reach,
    All-perm (λ r. target ≤ quality_height r → quality_height q ≤ quality_height r) p near,
  ),
)
perm-IsPicked target (some q) p (a, inr all) = (
  Any-perm (λ r. r ≡ q) p a,
  inr (All-perm (λ r. (quality_height r < target) × (quality_height r ≤ quality_height q)) p all),
)

-- `q` is the nearest among the progressive ones.
abbrev pub IsNearestProgressive : ℕ → FileQuality → List FileQuality → Type 0
IsNearestProgressive target q l =
    ((target ≤ quality_height q)
      × All (λ r. IsProgressive r → target ≤ quality_height r → quality_height q ≤ quality_height r)
          l)
    ⊎ All
        (λ r. IsProgressive r → (quality_height r < target) × (quality_height r ≤ quality_height q))
        l

abbrev pub IsPickedProgressive : ℕ → Option FileQuality → List FileQuality → Type 0
IsPickedProgressive target none l = ⊥
IsPickedProgressive target (some q) l =
    Any (λ r. r ≡ q) l × (IsProgressive q × IsNearestProgressive target q l)

-- Picked of the progressive ones, or, where none is progressive, of all.
abbrev pub IsChoice : ℕ → Option FileQuality → List FileQuality → Type 0
IsChoice target o l =
    IsPickedProgressive target o l ⊎ (All (λ r. ¬ IsProgressive r) l × IsPicked target o l)

all-Any : (l : List FileQuality) → All (λ q. Any (λ r. r ≡ q) l) l
all-Any [] = record {}
all-Any (q ∷ l) = (inl refl, All-map (λ r h. inr h) l (all-Any l))

progressive-IsPicked :
    (target : ℕ) (o : Option FileQuality) (l : List FileQuality)
    → progressive l ≢ []
    → IsPicked target o (progressive l)
    → IsPickedProgressive target o l
progressive-IsPicked target none l some_one e = some_one e
progressive-IsPicked target (some q) l some_one (a, near) =
    let own : Any (λ r. r ≡ q) l × IsProgressive q =
      All-Any (λ s. Any (λ r. r ≡ s) l × IsProgressive s) (progressive l)
        (progressive-All (λ s. Any (λ r. r ≡ s) l × IsProgressive s) l
          (All-map (λ s b e. (b, e)) l (all-Any l)))
        a in
    (
      own.0,
      (
        own.1,
        elim near [
          | inl p ↦ inl (
            p.0,
            All-progressive (λ r. target ≤ quality_height r → quality_height q ≤ quality_height r) l
                p.1,
          )
          | inr all ↦ inr (
              All-progressive
                (λ r. (quality_height r < target) × (quality_height r ≤ quality_height q)) l all)
        ],
      ),
    )

candidates-IsChoice :
    (target : ℕ) (o : Option FileQuality) (l : List FileQuality)
    → IsPicked target o (candidates l)
    → IsChoice target o l
unfolding candidates
candidates-IsChoice target o l =
    nil_or_not (progressive l)
      (λ e h. inr (All-progressive (λ _. ⊥) l (subst (All (λ _. ⊥)) (sym e) (record {})), h))
      (λ n h. inl (progressive-IsPicked target o l n h))
  where
    nil_or_not :
        (p : List FileQuality)
        → (p ≡ [] → IsPicked target o l → IsChoice target o l)
        → (p ≢ [] → IsPicked target o p → IsChoice target o l)
        → IsPicked target o (elim p [ [] ↦ l | q ∷ r ↦ q ∷ r ])
        → IsChoice target o l
    nil_or_not [] f g h = f refl h
    nil_or_not (q ∷ r) f g h = g (λ e. cc e) h

module _ (sort : Sort) (sort-Perm : (l : List FileQuality) → Permᴰ (sort l) l)
    (sort-IsAscending : (l : List FileQuality) → IsAscending (sort l)) where
  -- If the sort gives its list in some order, that of the heights, the quality picked is one of
  -- those given: where any is progressive, a progressive one, and the lowest of the progressive
  -- ones that reaches the target or, if none of them does, the highest; where none is progressive,
  -- the lowest of all that reaches it or else the highest. It is none only of an empty list.
  pub pick_quality-IsPicked :
      (qualities : List FileQuality) (target : ℕ)
      → IsChoice target (pick_quality sort qualities target) qualities
  unfolding pick_quality
  pick_quality-IsPicked qualities target =
      candidates-IsChoice target (pick_quality sort qualities target) qualities (
        perm-IsPicked target (first_from target (sort (candidates qualities)))
          (sort-Perm (candidates qualities))
          (first_from-IsPicked target (sort (candidates qualities))
            (sort-IsAscending (candidates qualities))))
