-- ===== src/H264/Sps/Payload.antt =====
-- What `rewriteSPSVUI` of internal/streamer/h264.go does to the payload of a parameter set.
use streamly.Prelude.{
  ℕ, zero, suc, append-nil, append_assoc, ◌+◌, ◌-◌, ◌≤◌, ◌<◌, ◌/◌, ◌^◌, Bool, false, List, [], ◌∷◌,
  ◌++◌, ◌≡◌, refl, sym, ap, ◌∙◌, Option, none, some, All, replicate, arith,
}
use mathlib.Core.Path.{subst, ap₂}
use streamly.Prelude.Bits.{bits, bits-append, bits-mod}
use streamly.H264.Escape.{unescape, byte_bits}
use streamly.H264.Reader.{new_bit_reader}
use streamly.H264.Reader.Remaining.{IsByte, IsReader, remaining}
use streamly.H264.Writer.{flush, new_bit_writer, BitWriter}
use streamly.H264.Writer.Written.{IsWriter, written, written-flush}
use streamly.H264.Script.{Script, Machines, Streams, run, run_bits, put_bits, ◌>>◌}
use streamly.H264.Script.Refine.{SameRun, run-SameRun}
use streamly.H264.Sps.{rewrite_sps_vui, sps_script, finished}

pub new_bit_reader-IsReader : (l : List ℕ) → All IsByte l → IsReader (new_bit_reader l)
new_bit_reader-IsReader l h = record { inside = omega arith; bytes = h }

pub remaining-new : (l : List ℕ) → remaining (new_bit_reader l) ≡ byte_bits (unescape 0 l)
unfolding remaining
remaining-new l = refl

-- A NAL unit whose payload is the written bits and at least one zero up to the next byte; none
-- where the script fails.
abbrev pub Pads : List Bool → List ℕ → Type 0
Pads o nal =
    (zeros : ℕ) × (1 ≤ zeros)
    × (zeros ≤ 8)
    × (byte_bits (unescape 0 nal) ≡ o ++ replicate zeros false)

abbrev pub Writes : Option (Unit {0} × Streams) → Option (List ℕ) → Type 0
Writes none none = Unit
Writes (some (_, (l, o))) (some nal) = Pads o nal
Writes _ _ = ⊥

pub new_bit_writer-IsWriter : IsWriter new_bit_writer
new_bit_writer-IsWriter = record {
  inside = omega arith;
  clean = refl;
  byte = omega arith;
  bytes = tt;
}

bits-zero : (n : ℕ) → bits n 0 ≡ replicate n false
bits-zero zero = refl
bits-zero (suc n) = ap₂ ◌∷◌ (ground arith) (bits-zero n)

eight_eq : (o : ℕ) → o < 8 → 8 ≡ o + (8 - o)
eight_eq o h = omega arith

pub flush-Pads : (w : BitWriter) → IsWriter w → Pads (written w) (flush w).arr
unfolding written flush
flush-Pads w k = (8 - w.bit_offset, omega (arith, k.inside), omega arith, payload)
  where
    o : ℕ
    o = w.bit_offset

    p : ℕ
    p = w.pending_byte

    padding : bits (8 - o) p ≡ replicate (8 - o) false
    padding = sym (bits-mod (8 - o) p) ∙ ap (bits (8 - o)) k.clean ∙ bits-zero (8 - o)

    whole : bits 8 p ≡ bits o (p / 2 ^ (8 - o)) ++ replicate (8 - o) false
    whole =
        ap (λ m. bits m p) (eight_eq o k.inside)
        ∙ bits-append o (8 - o) p
        ∙ ap (λ l. bits o (p / 2 ^ (8 - o)) ++ l) padding

    payload : byte_bits (unescape 0 (flush w).arr) ≡ written w ++ replicate (8 - o) false
    payload =
        sym (append-nil _)
        ∙ written-flush w
        ∙ ap (λ l. byte_bits (unescape 0 w.arr) ++ l) whole
        ∙ sym (append_assoc (byte_bits (unescape 0 w.arr)) _ _)

finished-Writes :
    (m : Option (Unit {0} × Machines)) (s : Option (Unit {0} × Streams))
    → SameRun m s
    → Writes s (finished m)
finished-Writes none none h = tt
finished-Writes (some (a, (r, w))) (some (b, (l, o))) (e, v, k, el, eo) =
    subst (λ x. Pads x (flush w).arr) eo (flush-Pads w k)
finished-Writes none (some x) h = absurd h
finished-Writes (some x) none h = absurd h

-- Rewriting a parameter set gives a NAL unit exactly where the rewriting of its payload's bits, the
-- emulation-prevention bytes taken out, succeeds; what a decoder reads back of the new unit is the
-- bits that it wrote, behind the same header, and one to eight zeros.
pub rewrite_sps_vui-Writes :
    (header : ℕ) (body : List ℕ)
    → All IsByte body
    → Writes
        (run_bits (put_bits header 8 >> sps_script) (byte_bits (unescape 0 body)) [])
        (rewrite_sps_vui (header ∷ body))
unfolding rewrite_sps_vui written byte_bits unescape
rewrite_sps_vui-Writes header body h =
    let r = new_bit_reader-IsReader body h in
    let k = new_bit_writer-IsWriter in
    subst
      (λ l.
        Writes (run_bits script l []) (finished (run script (new_bit_reader body) new_bit_writer)))
      (remaining-new body)
      (finished-Writes (run script (new_bit_reader body) new_bit_writer) _
        (run-SameRun script (new_bit_reader body) new_bit_writer r k))
  where
    script : Script (Unit {0})
    script = put_bits header 8 >> sps_script
