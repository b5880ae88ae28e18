-- ===== src/H264/Golomb.antt =====
-- Exp-Golomb codes, for `readUE`, `readSE`, `writeUE` and `writeSE` of
-- internal/streamer/h264_bitstream.go.
use native.Mathlib.Nat.{pow-suc, mod-eq_of_lt, mod-eq-sub-mod, div-eq_of_lt-le, zero-div, zero-add}
use streamly.Prelude.{
  ℕ, zero, suc, ◌+◌, ◌-◌, ◌*◌, ◌/◌, ◌%◌, ◌^◌, ◌≤◌, ◌<◌, Bool, true, false, List, [], ◌∷◌, ◌++◌, ◌≡◌,
  refl, ap, ◌∙◌, ◌⊎◌, Option, none, some, arith, length, append_assoc,
}
use native.Mathlib.Decide.{dec_lt}
use mathlib.Core.Path.{subst, ap₂}
use streamly.Prelude.Bits.{bits, value-bits, length-bits}
use streamly.H264.Reader.{
  BitReader, read_bits, leading_zeros, read_ue, read_se, signed_of_ue, ◌>>=◌,
}
use streamly.H264.Reader.Refine.{
  take_value, take_value-append, Agrees, Agrees-bind, read_bits-Agrees, Agrees-some, Agrees-none,
  length-remaining,
}
use streamly.H264.Reader.Remaining.{IsReader, remaining}
use streamly.H264.Writer.{
  BitWriter, len32, len32_loop, write_bits, write_ue, write_se, ue_of_signed,
}
use streamly.H264.Writer.Refine.{write_bits-written}
use streamly.H264.Writer.Written.{IsWriter, written}

-- The code of an unsigned value: zeros, as many as the bits of `u + 1` behind the first, and those.
pub ue_code : ℕ → List Bool
ue_code u = bits (len32 (u + 1) - 1) 0 ++ bits (len32 (u + 1)) (u + 1)

-- The zeros before the first one bit.
count_zeros : ℕ → List Bool → Option (ℕ × List Bool)
count_zeros n [] = none
count_zeros n (true ∷ l) = some (n, l)
count_zeros n (false ∷ l) = count_zeros (n + 1) l

pub take_ue : List Bool → Option (ℕ × List Bool)
unfolding count_zeros
take_ue l = do
  (leading, l1) ← count_zeros 0 l
  (rest, l2) ← take_value leading 0 l1
  some ((2 ^ leading % 2 ^ 64 + rest + (2 ^ 64 - 1)) % 2 ^ 64, l2)

leading_zeros-Agrees :
    (fuel leading : ℕ) (r : BitReader)
    → IsReader r
    → length (remaining r) < fuel
    → Agrees r.buf (leading_zeros fuel leading r) (count_zeros leading (remaining r))
unfolding leading_zeros count_zeros take_value
leading_zeros-Agrees zero leading r v h = absurd (omega arith)
leading_zeros-Agrees (suc fuel) leading r v h =
    by_first (λ q w k. leading_zeros-Agrees fuel (leading + 1) q w k) (remaining r) refl
  where
    one : Agrees r.buf (read_bits 1 r) (take_value 1 0 (remaining r))
    one = read_bits-Agrees 1 r v

    by_first :
        ((q : BitReader)
          → IsReader q
          → length (remaining q) < fuel
          → Agrees q.buf
              (leading_zeros fuel (leading + 1) q)
              (count_zeros (leading + 1) (remaining q)))
        → (l : List Bool) → remaining r ≡ l
        → Agrees r.buf (leading_zeros (suc fuel) leading r) (count_zeros leading l)
    by_first ih [] e = rw (Agrees-none r.buf (read_bits 1 r) (rw e at one)) tt
    by_first ih (true ∷ l) e =
        let (r', er, v', el, eb) = Agrees-some (read_bits 1 r) (rw e at one) in
        rw er (refl, v', el, eb)
    by_first ih (false ∷ l) e =
        let (r', er, v', el, eb) = Agrees-some (read_bits 1 r) (rw e at one) in
        rw (er, ← el, ← eb) (ih r' v' (omega (arith, ap length e, ap length el)))

-- `readUE` reads an Exp-Golomb code off the remaining bits, or panics.
pub read_ue-Agrees : (r : BitReader) → IsReader r → Agrees r.buf (read_ue r) (take_ue (remaining r))
unfolding read_ue take_ue
read_ue-Agrees r v =
    Agrees-bind (leading_zeros (8 * length r.buf + 1) 0 r) (count_zeros 0 (remaining r)) _ _
      (leading_zeros-Agrees (8 * length r.buf + 1) 0 r v (omega (arith, length-remaining r)))
      (λ k r1 v1 e1.
        Agrees-bind (read_bits k r1) (take_value k 0 (remaining r1)) _ _
          (subst (λ l. Agrees l (read_bits k r1) (take_value k 0 (remaining r1))) e1
            (read_bits-Agrees k r1 v1))
          (λ x r2 v2 e2. (refl, v2, refl, e2)))

len32_loop-zero : (fuel : ℕ) → len32_loop fuel 0 ≡ 0
unfolding len32_loop
len32_loop-zero zero = refl
len32_loop-zero (suc fuel) = refl

len32_loop_bounds :
    (fuel x : ℕ)
    → 0 < x
    → x < 2 ^ fuel
    → (k : ℕ) × (len32_loop fuel x ≡ suc k) × (2 ^ k ≤ x) × (x < 2 ^ suc k)
unfolding len32_loop
len32_loop_bounds zero x p h = absurd (omega arith)
len32_loop_bounds (suc fuel) x p h = elim (dec_lt 0 (x / 2)) [
  | no small ↦ (0, ground (arith, len32_loop-zero fuel), omega arith, omega arith)
  | yes big ↦
      let (k, e, lo, hi) = len32_loop_bounds fuel (x / 2) big (omega (arith, pow-suc 2 fuel)) in
      (
        suc k,
        ground (arith, e),
        omega (arith, lo, pow-suc 2 k),
        omega (arith, hi, pow-suc 2 (suc k)),
      )
]

-- `len32` is the number of bits of a positive uint32.
len32_bounds :
    (x : ℕ) → 0 < x → x < 2 ^ 32 → (k : ℕ) × (len32 x ≡ suc k) × (2 ^ k ≤ x) × (x < 2 ^ suc k)
len32_bounds x p h = len32_loop_bounds 32 x p h

count_zeros-bits : (n k : ℕ) (l : List Bool) → count_zeros n (bits k 0 ++ l) ≡ count_zeros (n + k) l
unfolding count_zeros
count_zeros-bits n zero l = ap (λ m. count_zeros m l) (omega arith)
count_zeros-bits n (suc k) l =
    rw zero-div (count_zeros-bits (n + 1) k l ∙ ap (λ m. count_zeros m l) (next n k))
  where
    next : (n k : ℕ) → n + 1 + k ≡ n + suc k
    next n k = omega arith

pub take_value-bits :
    (k x : ℕ) (l : List Bool)
    → take_value k 0 (bits k x ++ l) ≡ some ((0 * 2 ^ k + x % 2 ^ k) % 2 ^ 32, l)
unfolding take_value
take_value-bits k x l =
    take_value-append k 0 (bits k x) l (omega (arith, length-bits k x))
    ∙ ap₂ (λ c y. take_value c y l) none_left (value-bits k x 0 (omega arith))
  where
    none_left : k - length (bits k x) ≡ 0
    none_left = omega (arith, length-bits k x)

-- The code of `u` when `u + 1` has `k` bits behind its first.
ue_code-bits :
    (u k : ℕ)
    → len32 (u + 1) ≡ suc k
    → 2 ^ k ≤ u + 1
    → u + 1 < 2 ^ suc k
    → ue_code u ≡ bits k 0 ++ (true ∷ bits k (u + 1))
unfolding ue_code
ue_code-bits u k e lo hi =
    let pred : suc k - 1 ≡ k = omega arith in
    rw (e, pred) (ap (λ b. bits k 0 ++ (b ∷ bits k (u + 1))) (rw top refl))
  where
    top : (u + 1) / 2 ^ k ≡ 1
    top = div-eq_of_lt-le (2 ^ k) (omega (arith, lo)) (omega (arith, hi, pow-suc 2 k))

-- Reading takes exactly the code of a value off the bits, whatever follows it.
pub take_ue-ue_code :
    (u : ℕ) (l : List Bool) → u < 2 ^ 32 - 1 → take_ue (ue_code u ++ l) ≡ some (u, l)
unfolding take_ue
take_ue-ue_code u l h =
    let (k, e, lo, hi) = len32_bounds (u + 1) (omega arith) (omega arith) in
    let low : (u + 1) % 2 ^ k ≡ u + 1 - 2 ^ k =
      mod-eq-sub-mod lo ∙ mod-eq_of_lt (omega (arith, hi, pow-suc 2 k)) in
    let zeros : count_zeros 0 (bits k 0 ++ (true ∷ (bits k (u + 1) ++ l)))
        ≡ some (k, bits k (u + 1) ++ l) =
      count_zeros-bits 0 k _
      ∙ unfold count_zeros in ap (λ m. some (m, bits k (u + 1) ++ l)) (zero-add k) in
    rw (ue_code-bits u k e lo hi, append_assoc, zeros)
      (rw take_value-bits (ap (λ y. some (y, l)) (omega (arith, low, lo))))

-- The int values whose Exp-Golomb codes fit 32 bits: from -(2 ^ 31 - 1) to 2 ^ 31 - 1, as the
-- numbers that their 64 bits spell.
abbrev pub IsSigned : ℕ → Type 0
IsSigned a = (a < 2 ^ 31) ⊎ ((2 ^ 64 - 2 ^ 31 < a) × (a < 2 ^ 64))

signed_code :
    (a : ℕ) → IsSigned a → (ue_of_signed a < 2 ^ 32 - 1) × (signed_of_ue (ue_of_signed a) ≡ a)
signed_code a h = ground arith

pub take_se : List Bool → Option (ℕ × List Bool)
take_se l = do (u, l1) ← take_ue l; some (signed_of_ue u, l1)

pub read_se-Agrees : (r : BitReader) → IsReader r → Agrees r.buf (read_se r) (take_se (remaining r))
unfolding read_se take_se
read_se-Agrees r v =
    Agrees-bind (read_ue r) (take_ue (remaining r)) _ _ (read_ue-Agrees r v)
      (λ u r1 v1 e1. (refl, v1, refl, e1))

-- What `writeUE` appends for any `int`; this is the code of a value below 2 ^ 32 - 1.
pub ue_bits : ℕ → List Bool
ue_bits u = let v = (u + 1) % 2 ^ 64 % 2 ^ 32 in bits (len32 v - 1) 0 ++ bits (len32 v) v

pub ue_bits-ue_code : (u : ℕ) → u < 2 ^ 32 - 1 → ue_bits u ≡ ue_code u
unfolding ue_bits ue_code
ue_bits-ue_code u h = let e : (u + 1) % 2 ^ 64 % 2 ^ 32 ≡ u + 1 = omega arith in rw e

pub write_ue-bits :
    (u : ℕ) (w : BitWriter)
    → IsWriter w
    → IsWriter (write_ue u w) × (written (write_ue u w) ≡ written w ++ ue_bits u)
unfolding write_ue ue_bits
write_ue-bits u w k =
    let v : ℕ = (u + 1) % 2 ^ 64 % 2 ^ 32 in
    let (k1, w1) = write_bits-written 0 (len32 v - 1) w k in
    let (k2, w2) = write_bits-written v (len32 v) (write_bits 0 (len32 v - 1) w) k1 in
    (k2, w2 ∙ ap (λ l. l ++ bits (len32 v) v) w1 ∙ append_assoc (written w) _ _)

-- The Exp-Golomb code of a signed value, and its round trip.
pub se_code : ℕ → List Bool
se_code a = ue_code (ue_of_signed a)

pub take_se-se_code : (a : ℕ) (l : List Bool) → IsSigned a → take_se (se_code a ++ l) ≡ some (a, l)
unfolding take_se se_code
take_se-se_code a l h =
    let (small, back) = signed_code a h in
    rw (take_ue-ue_code (ue_of_signed a) l small) (ap (λ y. some (y, l)) back)

pub write_se-bits :
    (a : ℕ) (w : BitWriter)
    → IsWriter w
    → IsWriter (write_se a w) × (written (write_se a w) ≡ written w ++ ue_bits (ue_of_signed a))
unfolding write_se
write_se-bits a w k = write_ue-bits (ue_of_signed a) w k

pub se_bits-se_code : (a : ℕ) → IsSigned a → ue_bits (ue_of_signed a) ≡ se_code a
unfolding se_code
se_bits-se_code a h = ue_bits-ue_code (ue_of_signed a) (signed_code a h).0
