-- ===== src/H264/Nal/Split.antt =====
-- What splitting a frame gives, whatever its bytes.
use mathlib.Core.Path.{subst}
use mathlib.Core.Option.{some-injective, none-ne-some}
use streamly.Prelude.{
  ℕ, zero, suc, ◌+◌, ◌-◌, ◌≤◌, ◌≡◌, ◌≢◌, inl, inr, refl, ap, Bool, true, false, none, some, List,
  [], ◌∷◌, ◌++◌, length, get_or, take, drop, length-drop, drop-drop, drop-drop, arith, if_split,
  Option_split, Bool-cases, Option-cases,
}
use streamly.H264.Nal.{start_code_3, starts, index, is_long, cut, keep, split_loop, split_nalus}

-- A start code: 0 0 1, or 0 0 0 1.
abbrev pub start_code : Bool → List ℕ
start_code true = 0 ∷ start_code_3
start_code false = start_code_3

-- Splitting, as a relation: a frame is cut at its start codes, no piece has one inside, and the
-- empty pieces are left out.
pub data IsSplit : List ℕ → List (List ℕ) → Type 0 where
  at_end : IsSplit [] []
  last_unit : (u : List ℕ) → u ≢ [] → index u ≡ none → IsSplit u (u ∷ [])
  at_code :
      (u rest : List ℕ) (long : Bool) (units : List (List ℕ))
      → index u ≡ none
      → IsSplit rest units
      → IsSplit (u ++ start_code long ++ rest) (keep u units)

-- The frame at the start code that `index` finds.
starts-code : (l : List ℕ) → starts l ≡ true → start_code_3 ++ drop 3 l ≡ l
unfolding starts
starts-code [] e = cc e
starts-code (a ∷ []) e = cc e
starts-code (a ∷ (b ∷ [])) e = cc e
starts-code (a ∷ (b ∷ (c ∷ l))) e =
    let p : 0 ≡ a = ground (arith, e) in
    let q : 0 ≡ b = ground (arith, e) in let r : 1 ≡ c = ground (arith, e) in rw⁻¹ (p, q, r) refl

-- The first start code of a list, found byte by byte.
abbrev pub Found : List ℕ → ℕ → Type 0
Found [] n = ⊥
Found (x ∷ xs) zero = starts (x ∷ xs) ≡ true
Found (x ∷ xs) (suc n) = (starts (x ∷ xs) ≡ false) × Found xs n

index-Found : (l : List ℕ) (n : ℕ) → index l ≡ some n → Found l n
unfolding index
index-Found [] n e = absurd (none-ne-some n e)
index-Found (x ∷ xs) n e = elim (Bool-cases (starts (x ∷ xs))) [
  | inl f ↦ subst (Found (x ∷ xs)) (some-injective 0 n (simp f at e)) f
  | inr f ↦ elim (Option-cases (index xs)) [
    | inl g ↦ absurd (none-ne-some n (simp (f, g) at e))
    | inr (k, g) ↦
        subst (Found (x ∷ xs)) (some-injective (suc k) n (simp (f, g) at e)) (f, index-Found xs k g)
  ]
]

Found-code : (l : List ℕ) (n : ℕ) → Found l n → take n l ++ start_code_3 ++ drop 3 (drop n l) ≡ l
Found-code [] n f = absurd f
Found-code (x ∷ xs) zero f = starts-code (x ∷ xs) f
Found-code (x ∷ xs) (suc n) (_, f) = ap (◌∷◌ x) (Found-code xs n f)

-- Where the byte before it is 0 too.
Found-long-code :
    (l : List ℕ) (n m : ℕ)
    → Found l m
    → m ≡ suc n
    → get_or l n 0 ≡ 0
    → take n l ++ (0 ∷ start_code_3) ++ drop 4 (drop n l) ≡ l
Found-long-code [] n m f h z = absurd f
Found-long-code (x ∷ xs) n zero f h z = absurd (omega arith)
Found-long-code (x ∷ xs) zero (suc m) (_, f) h z =
    let m0 : m ≡ 0 = omega arith in rw z (ap (◌∷◌ 0) (Found-code xs 0 (subst (Found xs) m0 f)))
Found-long-code (x ∷ xs) (suc n) (suc m) (_, f) h z =
    ap (◌∷◌ x) (Found-long-code xs n m f (omega arith) z)

starts-take : (k : ℕ) (l : List ℕ) → starts l ≡ false → starts (take k l) ≡ false
unfolding starts
starts-take zero l e = refl
starts-take (suc k) [] e = refl
starts-take (suc zero) (a ∷ l) e = refl
starts-take (suc (suc k)) (a ∷ []) e = refl
starts-take (suc (suc zero)) (a ∷ (b ∷ l)) e = refl
starts-take (suc (suc (suc k))) (a ∷ (b ∷ [])) e = refl
starts-take (suc (suc (suc k))) (a ∷ (b ∷ (c ∷ l))) e = e

-- Nothing before the first start code holds one.
Found-take-none : (k : ℕ) (l : List ℕ) (n : ℕ) → Found l n → k ≤ n → index (take k l) ≡ none
unfolding index
Found-take-none zero l n f h = refl
Found-take-none (suc k) [] n f h = absurd f
Found-take-none (suc k) (x ∷ xs) zero f h = absurd (omega arith)
Found-take-none (suc k) (x ∷ xs) (suc n) (e, f) h =
    rw (starts-take (suc k) (x ∷ xs) e, Found-take-none k xs n f (omega arith)) refl

cut-IsSplit :
    (l : List ℕ) (pos : ℕ) (units : List (List ℕ))
    → Found l pos
    → IsSplit (cut l pos).1 units
    → IsSplit l (keep (cut l pos).0 units)
cut-IsSplit l pos units f =
    if_split {A = List ℕ × List ℕ} (λ p. IsSplit p.1 units → IsSplit l (keep p.0 units))
      (is_long l pos)
      (λ e h.
        let n : ℕ = pos - 1 in
        subst (λ a. IsSplit a (keep (take n l) units))
          (rw⁻¹ (drop-drop n 4 l)
            (Found-long-code l n pos f (ground (arith, e)) (ground (arith, e))))
          (at_code (take n l) (drop (n + 4) l) true units (Found-take-none n l pos f (omega arith))
            h))
      (λ e h.
        subst (λ a. IsSplit a (keep (take pos l) units))
          (rw⁻¹ (drop-drop pos 3 l) (Found-code l pos f))
          (at_code (take pos l) (drop (pos + 3) l) false units
            (Found-take-none pos l pos f (omega arith)) h))

-- A round leaves less.
length-cut : (x : ℕ) (xs : List ℕ) (pos : ℕ) → length (cut (x ∷ xs) pos).1 ≤ length xs
length-cut x xs pos =
    if_split {A = List ℕ × List ℕ} (λ p. length p.1 ≤ length xs) (is_long (x ∷ xs) pos)
      (λ _. omega (arith, length-drop (pos - 1 + 4) (x ∷ xs)))
      (λ _. omega (arith, length-drop (pos + 3) (x ∷ xs)))

split_loop-IsSplit : (fuel : ℕ) (l : List ℕ) → length l ≤ fuel → IsSplit l (split_loop fuel l)
unfolding split_loop
split_loop-IsSplit fuel [] h = at_end
split_loop-IsSplit zero (x ∷ xs) h = absurd (omega arith)
split_loop-IsSplit (suc fuel) (x ∷ xs) h =
    Option_split (IsSplit (x ∷ xs)) (index (x ∷ xs)) (λ e. last_unit (x ∷ xs) (λ f. cc f) e)
      (λ pos e.
        let rest : List ℕ = (cut (x ∷ xs) pos).1 in
        cut-IsSplit (x ∷ xs) pos (split_loop fuel rest) (index-Found (x ∷ xs) pos e)
          (split_loop-IsSplit fuel rest (omega (arith, length-cut x xs pos))))

-- For every frame, splitting ends within its length, and its answer cuts the frame at start codes
-- into pieces that have none inside, the empty ones left out.
pub split_nalus-IsSplit : (frame : List ℕ) → IsSplit frame (split_nalus frame)
unfolding split_nalus
split_nalus-IsSplit frame = split_loop-IsSplit (length frame) frame (omega arith)
