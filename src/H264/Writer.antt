-- ===== src/H264/Writer.antt =====
-- `bitWriter` of internal/streamer/h264_bitstream.go: a method returns the new writer. Shifts,
-- masks and the Go `int` are spelled as in Reader.
pub mod Written
pub mod Round
pub mod Refine
use Prim.Native.Nat.{bit_or}
use streamly.Prelude.{
  ℕ, zero, suc, ◌+◌, ◌-◌, ◌*◌, ◌/◌, ◌%◌, ◌^◌, ◌&&◌, Bool, List, [], ◌∷◌, ◌++◌, ◌==◌, leb, ltb,
  if◌then◌else◌, length, get_or,
}
use streamly.H264.Escape.{zeros_before}

pub record BitWriter : Type 0 where
  pub arr : List ℕ
  pub pending_byte : ℕ
  pub bit_offset : ℕ

abbrev pub new_bit_writer : BitWriter
new_bit_writer = record { arr = []; pending_byte = 0; bit_offset = 0 }

-- `append(w.arr, 3)` where the pending byte would spell a start code or an emulation byte.
abbrev pub guarded : List ℕ → ℕ → List ℕ
guarded arr b = if leb b 3 && zeros_before arr (length arr) then arr ++ 3 ∷ [] else arr

unfoldable pub flush : BitWriter → BitWriter
flush w = record {
  arr = guarded w.arr w.pending_byte ++ w.pending_byte ∷ [];
  pending_byte = 0;
  bit_offset = 0;
}

-- `value & mask << (8 - count)`, cut to a byte.
abbrev pub field_byte : ℕ → ℕ → ℕ → ℕ
field_byte v n room = v % 2 ^ n * 2 ^ (room - n) % 256

-- The second branch: `numBits` n bits of the value go behind the pending ones.
abbrev pub write_part : ℕ → ℕ → ℕ → BitWriter → ℕ × BitWriter
write_part n v count w =
    let q = record w {
      pending_byte = bit_or w.pending_byte (field_byte (v / 2 ^ (count - n)) n (8 - w.bit_offset));
      bit_offset = w.bit_offset + n;
    } in
    (count - n, if w.bit_offset + n == 8 then flush (record q { bit_offset = 0 }) else q)

abbrev pub room_bits : ℕ → ℕ → ℕ
room_bits room count = if ltb count room then count else room

-- One round of the loop: the count left and the writer. At a byte boundary a whole byte replaces
-- the pending one, and fewer bits are put on top of it.
pub write_round : ℕ → ℕ → BitWriter → ℕ × BitWriter
unfolding flush
write_round v count w =
    if w.bit_offset == 0
    then if leb 8 count
      then (count - 8, flush (record w { pending_byte = v / 2 ^ (count - 8) % 256 }))
      else (
        0,
        record w {
          pending_byte = bit_or w.pending_byte (field_byte v count 8);
          bit_offset = count;
        },
      )
    else write_part (room_bits (8 - w.bit_offset) count) v count w

-- The loop, with fuel: every round writes a bit at least, so `count` rounds are enough.
pub write_loop : ℕ → ℕ → ℕ → BitWriter → BitWriter
unfolding write_round
write_loop fuel v zero w = w
write_loop zero v (suc c) w = w
write_loop (suc fuel) v (suc c) w =
    let (left, w') = write_round v (suc c) w in write_loop fuel v left w'

unfoldable pub write_bits : ℕ → ℕ → BitWriter → BitWriter
unfolding write_loop
write_bits v count w = write_loop count v count w

-- `bits.Len32`.
unfoldable pub len32_loop : ℕ → ℕ → ℕ
len32_loop zero v = 0
len32_loop (suc fuel) v = let rest = len32_loop fuel (v / 2) in if v == 0 then 0 else suc rest

abbrev pub len32 : ℕ → ℕ
len32 = len32_loop 32

-- `value++` wraps at 64 bits. A count of -1 writes nothing, as a count of 0 does.
unfoldable pub write_ue : ℕ → BitWriter → BitWriter
write_ue value w =
    let v = (value + 1) % 2 ^ 64 % 2 ^ 32 in
    let bit_count = len32 v in write_bits v bit_count (write_bits 0 (bit_count - 1) w)

-- The unsigned code of a signed value: an `int` is positive below 2 ^ 63, but for 0.
abbrev pub ue_of_signed : ℕ → ℕ
ue_of_signed a =
    if a == 0
    then 0
    else if leb (2 ^ 63) a
    then (2 ^ 64 - 2 * a % 2 ^ 64) % 2 ^ 64
    else (2 * a + (2 ^ 64 - 1)) % 2 ^ 64

unfoldable pub write_se : ℕ → BitWriter → BitWriter
write_se value w = write_ue (ue_of_signed value) w
