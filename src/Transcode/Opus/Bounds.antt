-- ===== src/Transcode/Opus/Bounds.antt =====
-- What an Opus packet can last.
use mathlib.Core.Path.{subst}
use mathlib.Core.Option.{some-injective, none-ne-some}
use native.Mathlib.Nat.{mul_assoc, mul_comm, mul-le-mul}
use streamly.Prelude.{
  ℕ, zero, suc, ◌*◌, ◌/◌, ◌%◌, ◌≤◌, ◌≡◌, ◌∙◌, ap, refl, some, List, [], ◌∷◌, get_elem?,
  Option_split, ◌==◌, leb, Bool, true, false, ◌&&◌, arith,
}
use streamly.Transcode.Opus.{opus_frame_sizes, frame_count, opus_packet_duration}

-- A multiple of 2.5 ms, of at most 63 frames of 60 ms.
abbrev pub IsOpusDuration : ℕ → Type 0
IsOpusDuration d = (d % 2_500_000 ≡ 0) × (d ≤ 63 * 60_000_000)

-- A multiple of 2.5 ms, of at most 60 ms, in tenths of a millisecond.
abbrev is_frame_size : ℕ → Bool
is_frame_size size = size % 25 == 0 && leb size 600

abbrev all_frame_sizes : List ℕ → Bool
all_frame_sizes [] = true
all_frame_sizes (x ∷ l) = is_frame_size x && all_frame_sizes l

and-parts : (a b : Bool) → (a && b) ≡ true → (a ≡ true) × (b ≡ true)
and-parts true b e = (refl, e)
and-parts false b e = cc e

get_elem-size :
    (l : List ℕ) (i x : ℕ)
    → all_frame_sizes l ≡ true
    → get_elem? l i ≡ some x
    → is_frame_size x ≡ true
get_elem-size [] i x h e = absurd (none-ne-some x e)
get_elem-size (y ∷ l) zero x h e =
    subst (λ z. is_frame_size z ≡ true) (some-injective y x e)
      (and-parts (is_frame_size y) (all_frame_sizes l) h).0
get_elem-size (y ∷ l) (suc i) x h e =
    get_elem-size l i x (and-parts (is_frame_size y) (all_frame_sizes l) h).1 e

frame_count-bound : (first : ℕ) (rest : List ℕ) → frame_count first rest ≤ 63
unfolding frame_count
frame_count-bound first [] = ground arith
frame_count-bound first (second ∷ rest) = ground arith

product : (k c : ℕ) → k * 25 * c * 100_000 ≡ k * c * 2_500_000
product k c = omega (arith, mul_assoc k 25 c, mul_comm 25 c, mul_assoc k c 25)

product-bound : (size c : ℕ) → size ≤ 600 → c ≤ 63 → size * c ≤ 600 * 63
product-bound size c h k = mul-le-mul h k

-- The duration of an Opus packet is a multiple of 2.5 ms and at most 63 frames of 60 ms, whatever
-- its bytes.
opus_packet_duration-IsOpusDuration : (frame : List ℕ) → IsOpusDuration (opus_packet_duration frame)
unfolding opus_packet_duration
opus_packet_duration-IsOpusDuration [] = (refl, omega arith)
opus_packet_duration-IsOpusDuration (first ∷ rest) =
    Option_split IsOpusDuration (get_elem? opus_frame_sizes (first / 8)) (λ _. (refl, omega arith))
      (λ size e.
        let is_size : is_frame_size size ≡ true =
          get_elem-size opus_frame_sizes (first / 8) size refl e in
        let c : ℕ = frame_count first rest in
        let at_most : size * c ≤ 600 * 63 =
          product-bound size c (ground (arith, is_size)) (frame_count-bound first rest) in
        let k : size ≡ size / 25 * 25 = ground (arith, is_size) in
        let whole : size * c * 100_000 ≡ size / 25 * c * 2_500_000 =
          ap (λ s. s * c * 100_000) k ∙ product (size / 25) c in
        (rw whole (multiple (size / 25 * c)), omega (arith, at_most)))
  where
    multiple : (m : ℕ) → (m * 2_500_000) % 2_500_000 ≡ 0
    multiple m = omega arith
