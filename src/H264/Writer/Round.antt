-- ===== src/H264/Writer/Round.antt =====
-- One round of the loop of `writeBits`.
use Prim.Native.Nat.{bit_or}
use native.Mathlib.Nat.{div-one, sub_self, zero-add}
use mathlib.Core.Path.{subst}
use streamly.Prelude.{
  ℕ, ◌+◌, ◌-◌, ◌/◌, ◌%◌, ◌^◌, ◌≤◌, ◌<◌, ◌++◌, ◌≡◌, refl, sym, ap, ◌∙◌, inl, inr, arith, ◌==◌, leb,
  Bool-cases, append_assoc, append-nil,
}
use streamly.Prelude.Bits.{bits, bits-mod}
use streamly.H264.Escape.{unescape, byte_bits}
use streamly.H264.Writer.{BitWriter, flush, field_byte, write_part, room_bits, write_round}
use streamly.H264.Writer.Written.{
  written, IsWriter, written-flush, flush-IsWriter, q, joined, room, joined-lt, joined-clean,
  bits-joined,
}

-- What a round, or the loop, does: it appends some of the value's bits, the highest first.
pub record Wrote (v count : ℕ) (w : BitWriter) (out : ℕ × BitWriter) : Type 0 where
  pub size : ℕ
  pub some_written : 0 < size
  pub at_most : size ≤ count
  pub left : out.0 ≡ count - size
  pub appends : written out.1 ≡ written w ++ bits size (v / 2 ^ (count - size))
  pub valid : IsWriter out.1

bits-eight : (m y : ℕ) → m ≡ 8 → bits 8 y ≡ bits m (y / 2 ^ (8 - m))
bits-eight m y e =
    subst (λ i. bits 8 y ≡ bits i (y / 2 ^ (8 - i))) (sym e) (ap (bits 8) (sym (div-one y)))

-- A writer whose offset is `o`, with a field put behind its pending bits.
place : ℕ → ℕ → ℕ → BitWriter → BitWriter
place o n x w = record w {
  pending_byte = bit_or w.pending_byte (field_byte x n (8 - o));
  bit_offset = o + n;
}

module _ (w : BitWriter) (o : ℕ) (at : o ≡ w.bit_offset) (k : IsWriter w) (n x : ℕ) where
  clean_at : w.pending_byte % 2 ^ (8 - o) ≡ 0
  clean_at = subst (λ i. w.pending_byte % 2 ^ (8 - i) ≡ 0) (sym at) k.clean

  appended :
      o + n ≤ 8
      → byte_bits (unescape 0 w.arr)
          ++ bits (o + n) ((place o n x w).pending_byte / 2 ^ (8 - (o + n)))
        ≡ written w ++ bits n x
  unfolding place written joined q room
  appended fits =
      ap (λ l. byte_bits (unescape 0 w.arr) ++ l)
        (bits-joined o n w.pending_byte x fits clean_at k.byte)
      ∙ sym (
          append_assoc (byte_bits (unescape 0 w.arr)) (bits o (w.pending_byte / 2 ^ (8 - o)))
            (bits n x))
      ∙ ap (λ i. byte_bits (unescape 0 w.arr) ++ bits i (w.pending_byte / 2 ^ (8 - i)) ++ bits n x)
          at

  place-written : o + n ≤ 8 → written (place o n x w) ≡ written w ++ bits n x
  unfolding place written
  place-written fits = appended fits

  place-IsWriter : o + n < 8 → IsWriter (place o n x w)
  unfolding place joined room
  place-IsWriter h = record {
    inside = h;
    clean = joined-clean o n w.pending_byte x (omega arith) clean_at k.byte;
    byte = joined-lt o n w.pending_byte x (omega arith) clean_at k.byte;
    bytes = k.bytes;
  }

  full-written : o + n ≡ 8 → written (flush (place o n x w)) ≡ written w ++ bits n x
  unfolding place
  full-written e =
      written-flush (place o n x w)
      ∙ ap (λ l. byte_bits (unescape 0 w.arr) ++ l)
          (bits-eight (o + n) (place o n x w).pending_byte e)
      ∙ appended (omega arith)

  full-IsWriter : o + n ≤ 8 → IsWriter (flush (place o n x w))
  unfolding place joined
  full-IsWriter h =
      flush-IsWriter (place o n x w) (joined-lt o n w.pending_byte x h clean_at k.byte) k.bytes

module _ (v count : ℕ) (w : BitWriter) (k : IsWriter w) where
  write_part-Wrote :
      (n : ℕ) → 0 < n → n ≤ count → n ≤ 8 - w.bit_offset → Wrote v count w (write_part n v count w)
  unfolding place flush
  write_part-Wrote n p c fits = elim (Bool-cases (w.bit_offset + n == 8)) [
    | inl full ↦ rw full (record {
      size = n;
      some_written = p;
      at_most = c;
      left = refl;
      appends = full-written w w.bit_offset refl k n _ (ground arith);
      valid = full-IsWriter w w.bit_offset refl k n (v / 2 ^ (count - n)) (omega arith);
    })
    | inr part ↦ rw part (record {
      size = n;
      some_written = p;
      at_most = c;
      left = refl;
      appends = place-written w w.bit_offset refl k n _ (ground arith);
      valid = place-IsWriter w w.bit_offset refl k n (v / 2 ^ (count - n)) (ground arith);
    })
  ]

  write_whole-Wrote :
      8 ≤ count
      → w.bit_offset ≡ 0
      → Wrote v count w (count - 8, flush (record w { pending_byte = v / 2 ^ (count - 8) % 256 }))
  unfolding written
  write_whole-Wrote c at = record {
    size = 8;
    some_written = omega arith;
    at_most = c;
    left = refl;
    appends =
        written-flush (record w { pending_byte = v / 2 ^ (count - 8) % 256 })
        ∙ rw (at, append-nil)
            (ap (λ l. byte_bits (unescape 0 w.arr) ++ l) (bits-mod 8 (v / 2 ^ (count - 8))));
    valid = flush-IsWriter _ (omega arith) k.bytes;
  }

  write_few-Wrote :
      0 < count
      → count < 8
      → w.bit_offset ≡ 0
      → Wrote v count w (
        0,
        record w {
          pending_byte = bit_or w.pending_byte (field_byte v count 8);
          bit_offset = count;
        },
      )
  unfolding place
  write_few-Wrote p c at =
      let whole : v / 2 ^ (count - count) ≡ v = rw (sub_self count) (div-one v) in
      subst
        (λ m. Wrote v count w (
          0,
          record w { pending_byte = bit_or w.pending_byte (field_byte v count 8); bit_offset = m },
        ))
        (zero-add count)
        (record {
          size = count;
          some_written = p;
          at_most = omega arith;
          left = omega arith;
          appends =
              place-written w 0 (sym at) k count v (omega arith)
              ∙ ap (λ y. written w ++ bits count y) (sym whole);
          valid = place-IsWriter w 0 (sym at) k count v (omega arith);
        })

  pub write_round-Wrote : 0 < count → Wrote v count w (write_round v count w)
  unfolding write_round
  write_round-Wrote c = elim (Bool-cases (w.bit_offset == 0)) [
    | inr inner ↦ rw inner (
        write_part-Wrote (room_bits (8 - w.bit_offset) count) (ground (arith, k.inside))
          (ground arith) (ground arith))
    | inl start ↦ elim (Bool-cases (leb 8 count)) [
      | inl many ↦ rw (start, many) (write_whole-Wrote (ground arith) (ground arith))
      | inr few ↦ rw (start, few) (write_few-Wrote c (ground arith) (ground arith))
    ]
  ]
