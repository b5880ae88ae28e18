-- ===== src/H264/Nal/Rewritten.antt =====
-- What the rewriting of a frame does to its units.
use streamly.Prelude.{
  ℕ, ◌≡◌, ◌∙◌, refl, sym, ap, Bool, true, false, ◌||◌, ◌↔◌, inl, inr, List, [], ◌∷◌, ◌++◌, map,
  if_split, Option_split, Bool-cases, All, Any, none, some, ◌%◌, ◌==◌, if◌then◌else◌,
}
use streamly.H264.Nal.{
  split_nalus, has_type, nal_type_idr, nal_type_sps, any_idr, h264_contains_idr, rewrite_unit,
  rewrite_units, join_units, rewrite_h264_sps, start_code_3,
}
use streamly.H264.Sps.{rewrite_sps_vui}
use streamly.H264.Nal.Joined.{IsUnit, framed, split_nalus-framed}

any_idr-Any :
    (l : List (Bool × List ℕ))
    → (any_idr (map (λ p. p.1) l) ≡ true) ↔ Any (λ p. has_type nal_type_idr p.1 ≡ true) l
unfolding any_idr
any_idr-Any [] = ((λ e. cc e), (λ e. absurd e))
any_idr-Any (p ∷ l) = elim (Bool-cases (has_type nal_type_idr p.1)) [
  | inl e ↦ ((λ _. inl e), (λ _. rw e refl))
  | inr e ↦ (
    (λ f. inr ((any_idr-Any l).0 (simp e at f))),
    (λ f. rw e (elim f [ inl g ↦ absurd (cc (e, g)) | inr g ↦ (any_idr-Any l).1 g ])),
  )
]

-- Without a change, the units are as they were.
rewrite_unit-same : (u : List ℕ) → (rewrite_unit u).1 ≡ false → (rewrite_unit u).0 ≡ u
unfolding rewrite_unit
rewrite_unit-same u =
    if_split {A = List ℕ × Bool} (λ p. p.1 ≡ false → p.0 ≡ u) (has_type nal_type_sps u)
      (λ _.
        Option_split {A = List ℕ × Bool} (λ p. p.1 ≡ false → p.0 ≡ u) (rewrite_sps_vui u)
          (λ _ _. refl) (λ out _ e. cc e))
      (λ _ _. refl)

or-false : (a b : Bool) → (a || b) ≡ false → (a ≡ false) × (b ≡ false)
or-false true b e = cc e
or-false false b e = (refl, e)

rewrite_units-same :
    (units : List (List ℕ)) → (rewrite_units units).1 ≡ false → (rewrite_units units).0 ≡ units
unfolding rewrite_units
rewrite_units-same [] e = refl
rewrite_units-same (u ∷ units) e =
    let (f, g) = or-false (rewrite_unit u).1 (rewrite_units units).1 e in
    rw (rewrite_unit-same u f, rewrite_units-same units g) refl

join_units-framed :
    (units : List (List ℕ)) → join_units units ≡ framed (map (λ u. (false, u)) units)
unfolding join_units
join_units-framed [] = refl
join_units-framed (u ∷ units) = ap (λ l. start_code_3 ++ (u ++ l)) (join_units-framed units)

-- One unit after the rewriting: a parameter set (ITU-T H.264, 7.4.1: `nal_unit_type`, the low five
-- bits of the first byte, is 7) that can be read is rewritten, all else stays.
abbrev pub rewritten : List ℕ → List ℕ
rewritten [] = []
rewritten (x ∷ xs) =
    if x % 32 == 7
    then elim (rewrite_sps_vui (x ∷ xs)) [ none ↦ x ∷ xs | some out ↦ out ]
    else x ∷ xs

rewrite_unit-rewritten : (u : List ℕ) → (rewrite_unit u).0 ≡ rewritten u
unfolding rewrite_unit
rewrite_unit-rewritten [] = refl
rewrite_unit-rewritten (x ∷ xs) = elim (Bool-cases (x % 32 == 7)) [
  | inl e ↦
      rw (e, rewrite_unit)
        (Option_split {A = List ℕ × Bool}
          (λ p. p.0 ≡ elim (rewrite_sps_vui (x ∷ xs)) [ none ↦ x ∷ xs | some out ↦ out ])
          (rewrite_sps_vui (x ∷ xs)) (λ f. rw f refl) (λ out f. rw f refl))
  | inr e ↦ rw (e, rewrite_unit) refl
]

rewrite_units-rewritten : (units : List (List ℕ)) → (rewrite_units units).0 ≡ map rewritten units
unfolding rewrite_units
rewrite_units-rewritten [] = refl
rewrite_units-rewritten (u ∷ units) =
    rw (rewrite_unit-rewritten u, rewrite_units-rewritten units) refl

map-snd-false :
    (units : List (List ℕ))
    → map {A = Bool × List ℕ} (λ p. p.1) (map (λ u. (false, u)) units) ≡ units
map-snd-false [] = refl
map-snd-false (u ∷ units) = ap (◌∷◌ u) (map-snd-false units)

All-marked :
    (units : List (List ℕ))
    → All IsUnit units
    → All {A = Bool × List ℕ} (λ p. IsUnit p.1) (map (λ u. (false, u)) units)
All-marked [] h = h
All-marked (u ∷ units) h = (h.0, All-marked units h.1)

split-join_units :
    (units : List (List ℕ)) → All IsUnit units → split_nalus (join_units units) ≡ units
split-join_units units h =
    rw (join_units-framed units)
      (split_nalus-framed (map (λ u. (false, u)) units) (All-marked units h) ∙ map-snd-false units)

-- Rewriting a frame made of NAL units gives a frame whose units are the old ones, each parameter
-- set that can be read rewritten and all else kept, if the rewritten units are NAL units.
pub rewrite_h264_sps-framed :
    (l : List (Bool × List ℕ))
    → All (λ p. IsUnit p.1) l
    → All IsUnit (map (λ p. rewritten p.1) l)
    → split_nalus (rewrite_h264_sps (framed l)) ≡ map (λ p. rewritten p.1) l
unfolding rewrite_h264_sps
rewrite_h264_sps-framed l h k =
    let units : List (List ℕ) = map (λ p. p.1) l in
    let same : (rewrite_units (split_nalus (framed l))).0 ≡ map (λ p. rewritten p.1) l =
      ap (λ u. (rewrite_units u).0) (split_nalus-framed l h)
      ∙ rewrite_units-rewritten units
      ∙ map-map l in
    if_split (λ f. split_nalus f ≡ map (λ p. rewritten p.1) l)
      (rewrite_units (split_nalus (framed l))).1
      (λ _. rw same (split-join_units (map (λ p. rewritten p.1) l) k))
      (λ e. sym (rewrite_units-same (split_nalus (framed l)) e) ∙ same)
  where
    map-map :
        (l : List (Bool × List ℕ))
        → map rewritten (map {A = Bool × List ℕ} (λ p. p.1) l) ≡ map (λ p. rewritten p.1) l
    map-map [] = refl
    map-map (p ∷ l) = ap (◌∷◌ (rewritten p.1)) (map-map l)

-- The test for an IDR finds exactly the frames with a unit of that type.
h264_contains_idr-framed :
    (l : List (Bool × List ℕ))
    → All (λ p. IsUnit p.1) l
    → (h264_contains_idr (framed l) ≡ true) ↔ Any (λ p. has_type nal_type_idr p.1 ≡ true) l
unfolding h264_contains_idr
h264_contains_idr-framed l h = rw (split_nalus-framed l h) (any_idr-Any l)
