-- ===== src/H264/Reader.antt =====
-- `bitReader` of internal/streamer/h264_bitstream.go. A method that changes `*bitReader` returns
-- the new reader; `none` is a panic, by the explicit `panic` or by an index out of range. A left
-- shift of a uint32 is `* 2 ^ n % 2 ^ 32`, a right shift `/ 2 ^ n`, a mask of the n low bits `% 2 ^
-- n`. A Go `int` is the natural number below 2 ^ 64 that its bits spell.
pub mod Remaining
pub mod Round
pub mod Refine
use Prim.Native.Nat.{bit_or}
use streamly.Prelude.{
  ℕ, zero, suc, ◌+◌, ◌-◌, ◌*◌, ◌/◌, ◌%◌, ◌^◌, ◌&&◌, Option, none, some, List, ◌==◌, leb, ltb,
  if◌then◌else◌, length, get_or, get_elem?,
}
use streamly.H264.Escape.{zeros_before}

pub record BitReader : Type 0 where
  pub buf : List ℕ
  pub byte_offset : ℕ
  pub bit_offset : ℕ

abbrev pub new_bit_reader : List ℕ → BitReader
new_bit_reader buf = record { buf = buf; byte_offset = 0; bit_offset = 0 }

-- The emulation-prevention byte is skipped. The read at `byte_offset` itself is in range here.
pub skip_emulation : BitReader → BitReader
skip_emulation r =
    if r.bit_offset == 0 && (zeros_before r.buf r.byte_offset && get_or r.buf r.byte_offset 0 == 3)
    then record r { byte_offset = suc r.byte_offset }
    else r

abbrev pub shl32 : ℕ → ℕ → ℕ
shl32 x n = x * 2 ^ n % 2 ^ 32

-- What `numBits` bits of the current byte leave of the offsets.
abbrev pub advance : BitReader → ℕ → BitReader
advance r n =
    if r.bit_offset + n == 8
    then record r { byte_offset = suc r.byte_offset; bit_offset = 0 }
    else record r { bit_offset = r.bit_offset + n }

-- The loop's second branch, at `numBits` n: the count left, the result so far and the reader.
abbrev pub read_part : ℕ → ℕ → ℕ → BitReader → ℕ → ℕ × ℕ × BitReader
read_part n count result r b =
    (count - n, bit_or (shl32 result n) (b / 2 ^ (8 - r.bit_offset - n) % 2 ^ n), advance r n)

abbrev pub num_bits : ℕ → ℕ → ℕ
num_bits room count = if ltb room count then room else count

-- The two branches of the loop's body, on the byte `b` at the current offset.
pub read_chunk : ℕ → ℕ → BitReader → ℕ → ℕ × ℕ × BitReader
read_chunk count result r b =
    if r.bit_offset == 0 && leb 8 count
    then (count - 8, bit_or (shl32 result 8) b, record r { byte_offset = suc r.byte_offset })
    else read_part (num_bits (8 - r.bit_offset) count) count result r b

-- One round of the loop.
pub read_round : ℕ → ℕ → BitReader → Option (ℕ × ℕ × BitReader)
unfolding read_chunk skip_emulation
read_round count result r =
    let q = skip_emulation r in
    let byte = get_elem? q.buf q.byte_offset in
    if leb (length r.buf) r.byte_offset
    then none
    else elim byte [ none ↦ none | some b ↦ some (read_chunk count result q b) ]

infixl 5 ◌>>=◌
abbrev pub ◌>>=◌ {ℓ κ} : {A : Type ℓ} {B : Type κ} → Option A → (A → Option B) → Option B
none >>= f = none
some a >>= f = f a

-- The loop, with fuel: every round takes a bit at least, so `count` rounds are enough.
pub read_loop : ℕ → ℕ → ℕ → BitReader → Option (ℕ × BitReader)
unfolding read_round
read_loop fuel zero result r = some (result, r)
read_loop zero (suc c) result r = none
read_loop (suc fuel) (suc c) result r = do
  (left, result', r') ← read_round (suc c) result r
  read_loop fuel left result' r'

unfoldable pub read_bits : ℕ → BitReader → Option (ℕ × BitReader)
unfolding read_loop
read_bits count r = read_loop count count 0 r

-- `for r.readBits(1) == 0 { leading++ }`, with fuel.
unfoldable pub leading_zeros : ℕ → ℕ → BitReader → Option (ℕ × BitReader)
leading_zeros zero leading r = none
leading_zeros (suc fuel) leading r = do
  (b, r') ← read_bits 1 r
  let more = leading_zeros fuel (leading + 1) r'
  if b == 0 then more else some (leading, r')

-- Every round takes a bit, so one round more than the buffer has bits is enough.
-- `1 << leading` is 0 from 64 on, and the sum wraps at 64 bits.
unfoldable pub read_ue : BitReader → Option (ℕ × BitReader)
read_ue r = do
  (leading, r1) ← leading_zeros (8 * length r.buf + 1) 0 r
  (rest, r2) ← read_bits leading r1
  some ((2 ^ leading % 2 ^ 64 + rest + (2 ^ 64 - 1)) % 2 ^ 64, r2)

-- Go's `a / 2` on an `int`, which rounds towards zero.
abbrev pub half_int : ℕ → ℕ
half_int a = if ltb a (2 ^ 63) then a / 2 else (2 ^ 64 - (2 ^ 64 - a) / 2) % 2 ^ 64

abbrev pub neg_int : ℕ → ℕ
neg_int a = (2 ^ 64 - a) % 2 ^ 64

-- What `readSE` makes of the unsigned code. An `int` is even when its bits spell an even number.
abbrev pub signed_of_ue : ℕ → ℕ
signed_of_ue u = if u % 2 == 0 then half_int (neg_int u) else half_int ((u + 1) % 2 ^ 64)

unfoldable pub read_se : BitReader → Option (ℕ × BitReader)
read_se r = do (u, r') ← read_ue r; some (signed_of_ue u, r')
