-- ===== src/H264/RoundTrip.antt =====
-- The bit reader of internal/streamer/h264_bitstream.go on the bytes of its bit writer.
use mathlib.Core.Path.{subst}
use native.Mathlib.Nat.{mod-eq_of_lt, pow-le-pow_right}
use streamly.Prelude.{
  ℕ, ◌+◌, ◌-◌, ◌*◌, ◌%◌, ◌^◌, ◌≤◌, ◌<◌, Bool, false, List, [], ◌++◌, ◌≡◌, refl, ap, ◌∙◌, Option,
  some, replicate, arith,
}
use streamly.Prelude.Bits.{bits}
use streamly.H264.Escape.{unescape, byte_bits}
use streamly.H264.Reader.{BitReader, new_bit_reader, read_bits, read_ue, read_se}
use streamly.H264.Reader.Remaining.{IsReader, remaining}
use streamly.H264.Reader.Refine.{Agrees, Agrees-some, take_value, read_bits-Agrees}
use streamly.H264.Writer.{
  BitWriter, new_bit_writer, flush, write_bits, write_ue, write_se, ue_of_signed,
}
use streamly.H264.Writer.Written.{IsWriter, written, flush-IsWriter}
use streamly.H264.Writer.Refine.{write_bits-written}
use streamly.H264.Golomb.{
  take_ue, take_se, ue_bits, IsSigned, read_ue-Agrees, read_se-Agrees, take_ue-ue_code,
  take_se-se_code, ue_bits-ue_code, se_bits-se_code, write_ue-bits, write_se-bits, take_value-bits,
}
use streamly.H264.Sps.Payload.{
  new_bit_reader-IsReader, remaining-new, new_bit_writer-IsWriter, flush-Pads,
}

-- The reader of the bytes that a writer has flushed.
abbrev pub reread : BitWriter → BitReader
reread w = new_bit_reader (flush w).arr

-- A value is read, and the reader is left in a sound state.
abbrev pub Reads : Option (ℕ × BitReader) → ℕ → Type 0
Reads m v = (r : BitReader) × (m ≡ some (v, r)) × IsReader r

reread-IsReader : (w : BitWriter) → IsWriter w → IsReader (reread w)
reread-IsReader w k = new_bit_reader-IsReader (flush w).arr (flush-IsWriter w k.byte k.bytes).bytes

written-new : written new_bit_writer ≡ []
unfolding written byte_bits unescape
written-new = refl

-- The bits of the reader are those written, and some padding.
reread-remaining :
    (w : BitWriter) (c : List Bool)
    → IsWriter w
    → written w ≡ written new_bit_writer ++ c
    → (pad : List Bool) × (remaining (reread w) ≡ c ++ pad)
reread-remaining w c k e =
    let (zeros, lo, hi, p) = flush-Pads w k in
    (
      replicate zeros false,
      remaining-new (flush w).arr
          ∙ p
          ∙ ap (λ l. l ++ replicate zeros false) (e ∙ ap (λ l. l ++ c) written-new),
    )

small : (n v : ℕ) → n ≤ 32 → v < 2 ^ n → (0 * 2 ^ n + v % 2 ^ n) % 2 ^ 32 ≡ v
small n v h b =
    let low : v % 2 ^ n ≡ v = mod-eq_of_lt b in
    let top : 2 ^ n ≤ 2 ^ 32 = pow-le-pow_right (omega arith) h in rw low (omega (arith, b, top))

-- A field of n ≤ 32 bits, written into fresh bytes and flushed, is read back.
write_bits-read_bits :
    (n v : ℕ) → n ≤ 32 → v < 2 ^ n → Reads (read_bits n (reread (write_bits v n new_bit_writer))) v
write_bits-read_bits n v h b =
    let (k, e) = write_bits-written v n new_bit_writer new_bit_writer-IsWriter in
    let (pad, f) = reread-remaining (write_bits v n new_bit_writer) (bits n v) k e in
    let r = reread (write_bits v n new_bit_writer) in
    let agrees = read_bits-Agrees n r (reread-IsReader (write_bits v n new_bit_writer) k) in
    let (r', eq, valid, _, _) = Agrees-some (read_bits n r) (
      subst (Agrees r.buf (read_bits n r)) (ap (take_value n 0) f ∙ take_value-bits n v pad)
        agrees) in
    (r', eq ∙ ap (λ x. some (x, r')) (small n v h b), valid)

-- An Exp-Golomb code, written into fresh bytes and flushed, is read back: that of every unsigned
-- value whose code fits the writer's 32 bits.
pub write_ue-read_ue :
    (v : ℕ) → v < 2 ^ 32 - 1 → Reads (read_ue (reread (write_ue v new_bit_writer))) v
write_ue-read_ue v h =
    let (k, e) = write_ue-bits v new_bit_writer new_bit_writer-IsWriter in
    let (pad, f) = reread-remaining (write_ue v new_bit_writer) (ue_bits v) k e in
    let r = reread (write_ue v new_bit_writer) in
    let agrees = read_ue-Agrees r (reread-IsReader (write_ue v new_bit_writer) k) in
    let taken =
      ap take_ue (f ∙ ap (λ l. l ++ pad) (ue_bits-ue_code v h)) ∙ take_ue-ue_code v pad h in
    let (r', eq, valid, _, _) =
      Agrees-some (read_ue r) (subst (Agrees r.buf (read_ue r)) taken agrees) in
    (r', eq, valid)

-- The signed code, written into fresh bytes and flushed, is read back, for the int values from
-- -(2 ^ 31 - 1) to 2 ^ 31 - 1.
write_se-read_se : (a : ℕ) → IsSigned a → Reads (read_se (reread (write_se a new_bit_writer))) a
write_se-read_se a h =
    let (k, e) = write_se-bits a new_bit_writer new_bit_writer-IsWriter in
    let (pad, f) = reread-remaining (write_se a new_bit_writer) (ue_bits (ue_of_signed a)) k e in
    let r = reread (write_se a new_bit_writer) in
    let agrees = read_se-Agrees r (reread-IsReader (write_se a new_bit_writer) k) in
    let taken =
      ap take_se (f ∙ ap (λ l. l ++ pad) (se_bits-se_code a h)) ∙ take_se-se_code a pad h in
    let (r', eq, valid, _, _) =
      Agrees-some (read_se r) (subst (Agrees r.buf (read_se r)) taken agrees) in
    (r', eq, valid)
