-- ===== src/H264/Writer/Written.antt =====
-- The bits that a `bitWriter` has been given, and what a field put behind them does to a byte.
use Prim.Native.Nat.{bit_or}
use native.Mathlib.Nat.{
  mod-lt, one-le-pow, mul-mod_left, mod-eq_of_lt, div-add-mod', mul-div_cancel, add_comm,
  div-eq_of_lt, div-lt_iff_lt-mul, mul-le-mul_right, mul-add-div_right,
}
use mathlib.Core.Path.{ap₂}
use streamly.Prelude.{
  ℕ, suc, ◌+◌, ◌-◌, ◌*◌, ◌/◌, ◌%◌, ◌^◌, ◌≤◌, ◌<◌, Bool, false, ◌&&◌, List, [], ◌∷◌, ◌++◌, ◌≡◌, refl,
  ap, ◌∙◌, inl, inr, arith, ◌==◌, leb, length, All, All-append, Bool-cases, append_assoc,
  append-nil,
}
use streamly.Prelude.Bits.{bits, bits-append, pow-add, bits-mod, bits-add_mul, bit_or-shifted}
use streamly.H264.Escape.{
  zeros_at, zeros_at-eq_two, zeros_before, unescape, unescape-append, byte_bits, byte_bits-append,
}
use streamly.H264.Writer.{BitWriter, guarded, flush, field_byte}

-- The bits written so far, the pending ones included.
unfoldable pub written : BitWriter → List Bool
written w =
    byte_bits (unescape 0 w.arr) ++ bits w.bit_offset (w.pending_byte / 2 ^ (8 - w.bit_offset))

-- The pending byte holds `bit_offset` bits and zeros behind them.
pub record IsWriter (w : BitWriter) : Type 0 where
  pub inside : w.bit_offset < 8
  pub clean : w.pending_byte % 2 ^ (8 - w.bit_offset) ≡ 0
  pub byte : w.pending_byte < 256
  pub bytes : All (λ b. b < 256) w.arr

unescape-guarded :
    (arr : List ℕ) (b : ℕ) → unescape 0 (guarded arr b ++ b ∷ []) ≡ unescape 0 arr ++ b ∷ []
unfolding unescape
unescape-guarded arr b =
    let two : (zeros_at 0 arr (length arr) == 2) ≡ zeros_before arr (length arr) =
      zeros_at-eq_two arr (length arr) (omega arith) in
    elim (Bool-cases (leb b 3 && zeros_before arr (length arr))) [
      | inl t ↦
          let z : zeros_at 0 arr (length arr) ≡ 2 = ground arith in
          rw (t, append_assoc, unescape-append, z)
      | inr t ↦
          let keep : (zeros_at 0 arr (length arr) == 2 && b == 3) ≡ false = ground arith in
          rw (t, unescape-append, keep)
    ]

pub written-flush :
    (w : BitWriter) → written (flush w) ≡ byte_bits (unescape 0 w.arr) ++ bits 8 w.pending_byte
unfolding written flush byte_bits
written-flush w =
    append-nil _
    ∙ ap byte_bits (unescape-guarded w.arr w.pending_byte)
    ∙ byte_bits-append (unescape 0 w.arr) (w.pending_byte ∷ [])

guarded-bytes : (arr : List ℕ) (b : ℕ) → All (λ c. c < 256) arr → All (λ c. c < 256) (guarded arr b)
guarded-bytes arr b k = elim (Bool-cases (leb b 3 && zeros_before arr (length arr))) [
  | inl t ↦ rw t (All-append _ arr (3 ∷ []) k (omega arith))
  | inr t ↦ rw t k
]

pub flush-IsWriter :
    (w : BitWriter) → w.pending_byte < 256 → All (λ b. b < 256) w.arr → IsWriter (flush w)
unfolding flush
flush-IsWriter w h k = record {
  inside = omega arith;
  clean = refl;
  byte = omega arith;
  bytes =
      All-append _ (guarded w.arr w.pending_byte) (w.pending_byte ∷ [])
        (guarded-bytes w.arr w.pending_byte k) (h, tt);
}

-- A field of `n` bits put behind `o` pending ones, all within a byte.
module _ (o n p x : ℕ) (fits : o + n ≤ 8) (clean : p % 2 ^ (8 - o) ≡ 0) (byte : p < 256) where
  unfoldable pub q : ℕ
  q = p / 2 ^ (8 - o)

  unfoldable pub joined : ℕ
  joined = bit_or p (field_byte x n (8 - o))

  unfoldable pub room : ℕ
  room = 2 ^ (8 - (o + n))

  room-split : 2 ^ (8 - o) ≡ 2 ^ n * room
  unfolding room
  room-split = ap (λ k. 2 ^ k) the_sum ∙ pow-add n (8 - (o + n))
    where
      the_sum : 8 - o ≡ n + (8 - (o + n))
      the_sum = omega arith

  word-split : 256 ≡ 2 ^ o * 2 ^ (8 - o)
  word-split = ap (λ k. 2 ^ k) the_sum ∙ pow-add o (8 - o)
    where
      the_sum : 8 ≡ o + (8 - o)
      the_sum = omega arith

  pending_lem : p ≡ q * 2 ^ (8 - o)
  unfolding q
  pending_lem = omega (arith, div-add-mod' p (2 ^ (8 - o)))

  low-lt : x % 2 ^ n < 2 ^ n
  low-lt = mod-lt x (one-le-pow n 2 (omega arith))

  room-pos : 0 < room
  unfolding room
  room-pos = one-le-pow (8 - (o + n)) 2 (omega arith)

  low-lt-room : x % 2 ^ n * room < 2 ^ (8 - o)
  low-lt-room = rw room-split (grind (arith, low-lt, room-pos))

  room-le-word : 2 ^ (8 - o) ≤ 256
  room-le-word = rw word-split (grind (arith, one-le-pow o 2 (omega arith)))

  field-eq : field_byte x n (8 - o) ≡ x % 2 ^ n * room
  unfolding room
  field-eq =
      ap (λ k. x % 2 ^ n * 2 ^ k % 256) same
      ∙ mod-eq_of_lt (omega (arith, low-lt-room, room-le-word))
    where
      same : 8 - o - n ≡ 8 - (o + n)
      same = omega arith

  q-lt : q < 2 ^ o
  unfolding q
  q-lt = (div-lt_iff_lt-mul (one-le-pow (8 - o) 2 (omega arith))).1 (omega (arith, word-split))

  joined-eq : joined ≡ (q * 2 ^ n + x % 2 ^ n) * room
  unfolding joined
  joined-eq =
      ap (bit_or p) field-eq
      ∙ ap (λ y. bit_or y (x % 2 ^ n * room)) pending_lem
      ∙ bit_or-shifted (8 - o) q (x % 2 ^ n * room) low-lt-room
      ∙ omega (arith, ap (λ (y : ℕ). q * y) room-split)

  pub joined-lt : joined < 256
  joined-lt =
      let whole : suc q * 2 ^ (8 - o) ≤ 2 ^ o * 2 ^ (8 - o) = mul-le-mul_right (2 ^ (8 - o)) q-lt in
      let sum : joined ≡ q * 2 ^ (8 - o) + x % 2 ^ n * room =
        joined-eq ∙ omega (arith, ap (λ (y : ℕ). q * y) room-split) in
      omega (arith, sum, whole, word-split, low-lt-room)

  pub joined-clean : joined % room ≡ 0
  joined-clean = rw joined-eq (mul-mod_left (q * 2 ^ n + x % 2 ^ n) room)

  pub bits-joined : bits (o + n) (joined / room) ≡ bits o q ++ bits n x
  bits-joined =
      ap (bits (o + n))
        (ap (λ y. y / room) joined-eq ∙ mul-div_cancel (q * 2 ^ n + x % 2 ^ n) room-pos)
      ∙ bits-append o n (q * 2 ^ n + x % 2 ^ n)
      ∙ ap₂ ◌++◌ (ap (bits o) high) low
    where
      high : (q * 2 ^ n + x % 2 ^ n) / 2 ^ n ≡ q
      high =
          mul-add-div_right (one-le-pow n 2 (omega arith)) q (x % 2 ^ n)
          ∙ omega (arith, div-eq_of_lt low-lt)

      low : bits n (q * 2 ^ n + x % 2 ^ n) ≡ bits n x
      low =
          ap (bits n) (add_comm (q * 2 ^ n) (x % 2 ^ n))
          ∙ bits-add_mul n (x % 2 ^ n) q
          ∙ bits-mod n x
