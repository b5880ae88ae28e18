-- ===== src/H264/Nal/Joined.antt =====
-- Frames that are made of units, and what splitting and rewriting do to them.
use mathlib.Core.Path.{subst}
use mathlib.Core.Option.{none-ne-some}
use streamly.Prelude.{
  ℕ, zero, suc, ◌+◌, ◌-◌, ◌*◌, ◌≤◌, ◌<◌, ◌≡◌, ◌≢◌, inl, inr, ◌∙◌, refl, sym, ap, Bool, true, false,
  none, some, List, [], ◌∷◌, ◌++◌, map, length, get_or, drop, take-append, drop-append, append-nil,
  length-append, drop-drop, arith, Bool-cases, Option-cases, All,
}
use streamly.H264.Nal.{start_code_3, starts, index, is_long, cut, keep, split_loop, split_nalus}
use streamly.H264.Nal.Split.{start_code}

abbrev pub EndsNonzero : List ℕ → Type 0
EndsNonzero [] = Unit
EndsNonzero (x ∷ []) = x ≢ 0
EndsNonzero (x ∷ (y ∷ l)) = EndsNonzero (y ∷ l)

-- A NAL unit, as the standard has it: not empty, no start code inside, and not ending in 0.
abbrev pub IsUnit : List ℕ → Type 0
IsUnit u = (u ≢ []) × (index u ≡ none) × EndsNonzero u

-- Units, each behind a start code of four bytes where its mark is set, or else of three.
abbrev pub framed : List (Bool × List ℕ) → List ℕ
framed [] = []
framed (p ∷ l) = start_code p.0 ++ (p.1 ++ framed l)

starts-nonzero : (x : ℕ) (r : List ℕ) → x ≢ 0 → starts (x ∷ r) ≡ false
unfolding starts
starts-nonzero x [] h = refl
starts-nonzero x (b ∷ []) h = refl
starts-nonzero x (b ∷ (c ∷ l)) h = ground (arith, h)

starts-second : (x y : ℕ) (r : List ℕ) → y ≢ 0 → starts (x ∷ (y ∷ r)) ≡ false
unfolding starts
starts-second x y [] h = refl
starts-second x y (c ∷ l) h = ground (arith, h)

starts-append :
    (x : ℕ) (xs r : List ℕ)
    → EndsNonzero (x ∷ xs)
    → starts (x ∷ xs) ≡ false
    → starts (x ∷ (xs ++ r)) ≡ false
unfolding starts
starts-append x [] r h e = starts-nonzero x r h
starts-append x (y ∷ []) r h e = starts-second x y r h
starts-append x (y ∷ (z ∷ l)) r h e = e

index-parts :
    (x : ℕ) (xs : List ℕ) → index (x ∷ xs) ≡ none → (starts (x ∷ xs) ≡ false) × (index xs ≡ none)
unfolding index
index-parts x xs e = elim (Bool-cases (starts (x ∷ xs))) [
  | inl f ↦ absurd (none-ne-some 0 (sym (simp f at e)))
  | inr f ↦ elim (Option-cases (index xs)) [
    | inl g ↦ (f, g)
    | inr (k, g) ↦ absurd (none-ne-some (suc k) (sym (simp (f, g) at e)))
  ]
]

EndsNonzero-tail : (x : ℕ) (xs : List ℕ) → EndsNonzero (x ∷ xs) → EndsNonzero xs
EndsNonzero-tail x [] h = record {}
EndsNonzero-tail x (y ∷ l) h = h

abbrev code_at : Bool → ℕ
code_at true = 1
code_at false = 0

index-append :
    (u r : List ℕ) (long : Bool)
    → index u ≡ none
    → EndsNonzero u
    → index (u ++ (start_code long ++ r)) ≡ some (length u + code_at long)
unfolding index starts
index-append [] r true h e = refl
index-append [] r false h e = refl
index-append (x ∷ xs) r long h e =
    let (f, g) = index-parts x xs h in
    rw
      (
        starts-append x xs (start_code long ++ r) e f,
        index-append xs r long g (EndsNonzero-tail x xs e),
      )
      (ap some (omega arith))

get_or-last : (u r : List ℕ) → u ≢ [] → EndsNonzero u → get_or (u ++ r) (length u - 1) 0 ≢ 0
get_or-last [] r n h = absurd (n refl)
get_or-last (x ∷ []) r n h = h
get_or-last (x ∷ (y ∷ l)) r n h =
    let k : suc (length (y ∷ l) - 1) ≡ suc (length (y ∷ l)) - 1 = omega arith in
    subst (λ k. get_or (x ∷ (y ∷ (l ++ r))) k 0 ≢ 0) k (get_or-last (y ∷ l) r (λ e. cc e) h)

get_or-length : (u r : List ℕ) → get_or (u ++ (0 ∷ r)) (length u) 0 ≡ 0
get_or-length [] r = refl
get_or-length (x ∷ u) r = get_or-length u r

cut-at :
    (u r : List ℕ) (long : Bool)
    → u ≢ []
    → EndsNonzero u
    → cut (u ++ (start_code long ++ r)) (length u + code_at long) ≡ (u, r)
cut-at u r true n e =
    let l : List ℕ = u ++ (start_code true ++ r) in
    let same : length u + 1 - 1 ≡ length u = omega arith in
    let zero_before : get_or l (length u + 1 - 1) 0 ≡ 0 =
      rw same (get_or-length u (start_code_3 ++ r)) in
    let it_is : is_long l (length u + 1) ≡ true = ground (arith, zero_before) in
    let behind : drop (length u + 4) l ≡ r =
      sym (drop-drop (length u) 4 l) ∙ ap (drop 4) (drop-append u (start_code true ++ r)) in
    rw (it_is, same, take-append u (start_code true ++ r), behind) refl
cut-at u r false n e =
    let l : List ℕ = u ++ (start_code false ++ r) in
    let same : length u + 0 ≡ length u = omega arith in
    let other : get_or l (length u - 1) 0 ≢ 0 = get_or-last u (start_code false ++ r) n e in
    let it_is : is_long l (length u) ≡ false = ground (arith, other) in
    let behind : drop (length u + 3) l ≡ r =
      sym (drop-drop (length u) 3 l) ∙ ap (drop 3) (drop-append u (start_code false ++ r)) in
    rw (same, it_is, take-append u (start_code false ++ r), behind) refl

keep-unit : (u : List ℕ) (units : List (List ℕ)) → u ≢ [] → keep u units ≡ u ∷ units
keep-unit [] units n = absurd (n refl)
keep-unit (x ∷ xs) units n = refl

-- One round of the loop, at a start code or before one.
split_loop-found :
    (fuel : ℕ) (l : List ℕ) (pos : ℕ)
    → l ≢ []
    → index l ≡ some pos
    → split_loop (suc fuel) l ≡ keep (cut l pos).0 (split_loop fuel (cut l pos).1)
unfolding split_loop
split_loop-found fuel [] pos n e = absurd (n refl)
split_loop-found fuel (x ∷ xs) pos n e = rw (e, split_loop) refl

split_loop-last :
    (fuel : ℕ) (u : List ℕ) → u ≢ [] → index u ≡ none → split_loop (suc fuel) u ≡ u ∷ []
unfolding split_loop
split_loop-last fuel [] n e = absurd (n refl)
split_loop-last fuel (x ∷ xs) n e = rw (e, split_loop) refl

split_loop-code :
    (fuel : ℕ) (long : Bool) (r : List ℕ)
    → split_loop (suc fuel) (start_code long ++ r) ≡ split_loop fuel r
unfolding split_loop index starts
split_loop-code fuel true r = refl
split_loop-code fuel false r = refl

append-not-nil : (u r : List ℕ) → u ≢ [] → (u ++ r) ≢ []
append-not-nil [] r n e = n refl
append-not-nil (x ∷ u) r n e = cc e

split_loop-unit :
    (fuel : ℕ) (u r : List ℕ) (long : Bool)
    → IsUnit u
    → split_loop (suc fuel) (u ++ (start_code long ++ r)) ≡ u ∷ split_loop fuel r
split_loop-unit fuel u r long (n, i, e) =
    let l : List ℕ = u ++ (start_code long ++ r) in
    split_loop-found fuel l (length u + code_at long) (append-not-nil u (start_code long ++ r) n)
      (index-append u r long i e)
    ∙ rw (cut-at u r long n e) (keep-unit u (split_loop fuel r) n)

-- Behind the first start code.
split_loop-framed :
    (fuel : ℕ) (u : List ℕ) (l : List (Bool × List ℕ))
    → length l < fuel
    → IsUnit u
    → All (λ p. IsUnit p.1) l
    → split_loop fuel (u ++ framed l) ≡ u ∷ map (λ p. p.1) l
split_loop-framed zero u l h v vs = absurd (omega arith)
split_loop-framed (suc fuel) u [] h v vs = rw (append-nil u) (split_loop-last fuel u v.0 v.1)
split_loop-framed (suc fuel) u (p ∷ l) h v vs =
    split_loop-unit fuel u (p.1 ++ framed l) p.0 v
    ∙ ap (◌∷◌ u) (split_loop-framed fuel p.1 l (omega arith) vs.0 vs.1)

length-framed : (l : List (Bool × List ℕ)) → 3 * length l ≤ length (framed l)
length-framed [] = omega arith
length-framed (p ∷ l) =
    let r : List ℕ = p.1 ++ framed l in
    let code : 3 ≤ length (start_code p.0) = code_length p.0 in
    omega (arith, length-framed l, length-append p.1 (framed l), length-append (start_code p.0) r)
  where
    code_length : (long : Bool) → 3 ≤ length (start_code long)
    code_length true = omega arith
    code_length false = omega arith

-- Splitting a frame that is made of NAL units (not empty, without a start code, not ending in 0),
-- each behind a start code of three or four bytes, gives back the units.
pub split_nalus-framed :
    (l : List (Bool × List ℕ)) → All (λ p. IsUnit p.1) l → split_nalus (framed l) ≡ map (λ p. p.1) l
unfolding split_nalus split_loop
split_nalus-framed [] vs = refl
split_nalus-framed (p ∷ l) vs =
    let frame : List ℕ = framed (p ∷ l) in
    let some_left : length l < length frame - 1 = omega (arith, length-framed (p ∷ l)) in
    let fuel : suc (length frame - 1) ≡ length frame = omega (arith, length-framed (p ∷ l)) in
    subst (λ n. split_loop n frame ≡ map (λ q. q.1) (p ∷ l)) fuel
      (split_loop-code (length frame - 1) p.0 (p.1 ++ framed l)
        ∙ split_loop-framed (length frame - 1) p.1 l some_left vs.0 vs.1)
