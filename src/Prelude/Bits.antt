-- ===== src/Prelude/Bits.antt =====
-- Words as sequences of bits, most significant first, and `|` of disjoint fields as a sum.
use Prim.Native.Nat.{
  ℕ, zero, suc, ◌+◌, ◌-◌, ◌*◌, ◌/◌, ◌%◌, ◌^◌, ◌≤◌, ◌<◌, max, bit_or, digits, bit_or-bitwise,
}
use mathlib.Core.Path.{◌≡◌, refl, sym, ap, ap₂, ◌∙◌}
use mathlib.Core.Bool.{Bool, true, false}
use mathlib.Core.List.{List, [], ◌∷◌, ◌++◌}
use native.Mathlib.Omega.{arith}
use native.Mathlib.Nat.{
  pow-suc, one-le-pow, suc-add, zero-add, add-zero, mod-add-div', mul_right_comm,
  div-div-eq-div-mul, add-mul-div_right, add-mul-mod_self_right, mod-lt, mod-eq_of_lt, div-add-mod,
  mul_assoc, mul_comm,
}
use streamly.Prelude.Tests.{◌==◌}
use streamly.Prelude.Lists.{length}

pub pow-add : (a b : ℕ) → 2 ^ (a + b) ≡ 2 ^ a * 2 ^ b
pow-add zero b = rw zero-add (omega arith)
pow-add (suc a) b =
    rw (suc-add, pow-suc 2 (a + b), pow-suc 2 a, pow-add a b) (mul_right_comm (2 ^ a) (2 ^ b) 2)

-- The definition behind `bit_or` takes fuel: how much does not matter.
or_digits_fuel :
    (n m a b : ℕ) → a ≤ n → a ≤ m → digits (λ y. y) max n a b ≡ digits (λ y. y) max m a b
or_digits_fuel zero zero a b p q = refl
or_digits_fuel zero (suc m) zero b p q = refl
or_digits_fuel zero (suc m) (suc a) b p q = absurd (omega arith)
or_digits_fuel (suc n) zero zero b p q = refl
or_digits_fuel (suc n) zero (suc a) b p q = absurd (omega arith)
or_digits_fuel (suc n) (suc m) zero b p q = refl
or_digits_fuel (suc n) (suc m) (suc a) b p q =
    rw (or_digits_fuel n m (suc a / 2) (b / 2) (omega arith) (omega arith))

bit_or_halves : (a b : ℕ) → bit_or a b ≡ bit_or (a / 2) (b / 2) * 2 + max (a % 2) (b % 2)
bit_or_halves zero b = omega (arith, bit_or-bitwise 0 b, bit_or-bitwise 0 (b / 2))
bit_or_halves (suc a) b = omega (
  arith,
  bit_or-bitwise (suc a) b,
  bit_or-bitwise (suc a / 2) (b / 2),
  or_digits_fuel a (suc a / 2) (suc a / 2) (b / 2) (omega arith) (omega arith),
)

bit_or-zero_fuel : (n a : ℕ) → a ≤ n → bit_or a 0 ≡ a
bit_or-zero_fuel n zero h = refl
bit_or-zero_fuel zero (suc a) h = absurd (omega arith)
bit_or-zero_fuel (suc n) (suc a) h =
    omega (arith, bit_or_halves (suc a) 0, bit_or-zero_fuel n (suc a / 2) (omega arith))

mul-two-pow : (q k : ℕ) → q * 2 ^ suc k ≡ 2 * (q * 2 ^ k)
mul-two-pow q k = rw pow-suc (omega (arith, mul_assoc q (2 ^ k) 2))

-- `(q << k) | r` is a sum when `r` fits the `k` bits that the shift has freed.
pub bit_or-shifted : (k q r : ℕ) → r < 2 ^ k → bit_or (q * 2 ^ k) r ≡ q * 2 ^ k + r
bit_or-shifted zero q r fits =
    let e : r ≡ 0 = omega arith in
    let f : q * 1 ≡ q = omega arith in rw (e, f) (omega (arith, bit_or-zero_fuel q q (omega arith)))
bit_or-shifted (suc k) q r fits =
    let half : q * 2 ^ suc k / 2 ≡ q * 2 ^ k = omega (arith, mul-two-pow q k) in
    bit_or_halves (q * 2 ^ suc k) r
    ∙ rw half (
        omega (
          arith,
          mul-two-pow q k,
          pow-suc 2 k,
          bit_or-shifted k q (r / 2) (omega (arith, pow-suc 2 k)),
        ))

abbrev bit_at : ℕ → ℕ → Bool
bit_at i v = (v / 2 ^ i % 2) == 1

-- The `n` low bits of `v`.
abbrev pub bits : ℕ → ℕ → List Bool
bits zero v = []
bits (suc n) v = bit_at n v ∷ bits n v

pub length-bits : (n v : ℕ) → length (bits n v) ≡ n
length-bits zero v = refl
length-bits (suc n) v = ap suc (length-bits n v)

div-pow : (a b v : ℕ) → v / 2 ^ (a + b) ≡ v / 2 ^ b / 2 ^ a
div-pow a b v = rw (div-div-eq-div-mul, pow-add a b, mul_comm (2 ^ a) (2 ^ b))

pub bits-append : (a b v : ℕ) → bits (a + b) v ≡ bits a (v / 2 ^ b) ++ bits b v
bits-append zero b v = rw zero-add
bits-append (suc a) b v =
    rw (suc-add a b) (ap₂ ◌∷◌ (ap (λ t. (t % 2) == 1) (div-pow a b v)) (bits-append a b v))

-- Only the value modulo 2 ^ n counts.
pub bits-add_mul : (n v k : ℕ) → bits n (v + k * 2 ^ n) ≡ bits n v
bits-add_mul zero v k = refl
bits-add_mul (suc n) v k =
    let e : v + k * 2 ^ suc n ≡ v + k * 2 * 2 ^ n = omega (arith, mul-two-pow k n) in
    rw e (ap₂ ◌∷◌ (ap (λ t. t == 1) (shifted n)) (bits-add_mul n v (k * 2)))
  where
    shifted : (n : ℕ) → (v + k * 2 * 2 ^ n) / 2 ^ n % 2 ≡ v / 2 ^ n % 2
    shifted n = rw (add-mul-div_right v (k * 2) (one-le-pow n 2 (omega arith))) (omega arith)

pub bits-mod : (n v : ℕ) → bits n (v % 2 ^ n) ≡ bits n v
bits-mod n v = sym (bits-add_mul n (v % 2 ^ n) (v / 2 ^ n)) ∙ ap (bits n) (mod-add-div' v (2 ^ n))

abbrev pub bit_value : Bool → ℕ
bit_value true = 1
bit_value false = 0

-- The uint32 that is `acc` with these bits shifted in.
abbrev pub value : ℕ → List Bool → ℕ
value acc [] = acc
value acc (b ∷ bs) = value ((acc * 2 + bit_value b) % 2 ^ 32) bs

mod-double : (v p : ℕ) → 0 < p → v % (p * 2) ≡ v / p % 2 * p + v % p
mod-double v p h =
    let t : ℕ = v / p % 2 in
    let s : ℕ = v / p / 2 in
    let halves : v / p ≡ t + s * 2 = omega arith in
    let small : t * p + v % p < p * 2 = grind (arith, mod-lt v h) in
    let split : v ≡ t * p + v % p + s * (p * 2) =
      omega (arith, div-add-mod v p, ap (λ (x : ℕ). p * x) halves) in
    ap (λ x. x % (p * 2)) split
    ∙ add-mul-mod_self_right (t * p + v % p) s (p * 2)
    ∙ mod-eq_of_lt small

mod-mul-add : (x p r m : ℕ) → (x % m * p + r) % m ≡ (x * p + r) % m
mod-mul-add x p r m =
    let split : x * p + r ≡ x % m * p + r + x / m * p * m = grind (arith, div-add-mod x m) in
    sym (ap (λ y. y % m) split ∙ add-mul-mod_self_right (x % m * p + r) (x / m * p) m)

pub value-bits :
    (n v acc : ℕ) → acc < 2 ^ 32 → value acc (bits n v) ≡ (acc * 2 ^ n + v % 2 ^ n) % 2 ^ 32
value-bits zero v acc h = omega arith
value-bits (suc n) v acc h =
    let t : ℕ = bit_value (bit_at n v) in
    let bit : t ≡ v / 2 ^ n % 2 = ground arith in
    value-bits n v ((acc * 2 + t) % 2 ^ 32) (omega arith)
    ∙ mod-mul-add (acc * 2 + t) (2 ^ n) (v % 2 ^ n) (2 ^ 32)
    ∙ ap (λ x. x % 2 ^ 32)
        (rw (pow-suc, mod-double v (2 ^ n) (one-le-pow n 2 (omega arith)), ← bit) (grind arith))

shift_fields : (acc c p r : ℕ) → 0 < c → r < p → (acc * p + r) % (c * p) ≡ acc % c * p + r
shift_fields acc c p r h fits =
    let split : acc * p + r ≡ acc % c * p + r + acc / c * (c * p) =
      omega (arith, ap (λ (x : ℕ). x * p) (div-add-mod acc c)) in
    let below : acc % c * p + r < c * p = grind (arith, mod-lt acc h) in
    ap (λ x. x % (c * p)) split
    ∙ add-mul-mod_self_right (acc % c * p + r) (acc / c) (c * p)
    ∙ mod-eq_of_lt below

shift_high : (acc c p : ℕ) → 0 < c → 0 < p → acc * p % (c * p) ≡ acc % c * p
shift_high acc c p h k =
    rw (← add-zero (acc * p)) (shift_fields acc c p 0 h k ∙ add-zero (acc % c * p))

word_split : (n : ℕ) → n ≤ 32 → 2 ^ 32 ≡ 2 ^ (32 - n) * 2 ^ n
word_split n h = ap (λ x. 2 ^ x) (the_sum n h) ∙ pow-add (32 - n) n
  where
    the_sum : (n : ℕ) → n ≤ 32 → 32 ≡ 32 - n + n
    the_sum n h = omega arith

-- `(acc << n) | r` on a uint32, for a field of at most 32 bits.
pub or_shift :
    (n acc r : ℕ)
    → n ≤ 32
    → r < 2 ^ n
    → bit_or (acc * 2 ^ n % 2 ^ 32) r ≡ (acc * 2 ^ n + r) % 2 ^ 32
or_shift n acc r h fits =
    let c : ℕ = 2 ^ (32 - n) in
    let cp : 0 < c = one-le-pow (32 - n) 2 (omega arith) in
    ap (λ m. bit_or (acc * 2 ^ n % m) r) (word_split n h)
    ∙ ap (λ x. bit_or x r) (shift_high acc c (2 ^ n) cp (one-le-pow n 2 (omega arith)))
    ∙ bit_or-shifted n (acc % c) r fits
    ∙ sym (ap (λ m. (acc * 2 ^ n + r) % m) (word_split n h) ∙ shift_fields acc c (2 ^ n) r cp fits)
