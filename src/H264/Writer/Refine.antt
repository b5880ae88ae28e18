-- ===== src/H264/Writer/Refine.antt =====
-- The writer as a list of bits that grows at its end.
use mathlib.Core.Path.{ap₂}
use streamly.Prelude.{
  ℕ, zero, suc, ◌+◌, ◌-◌, ◌≤◌, ◌++◌, ◌≡◌, sym, ap, ◌∙◌, arith, append_assoc, append-nil,
}
use streamly.Prelude.Bits.{bits, bits-append}
use streamly.H264.Writer.{BitWriter, write_round, write_loop, write_bits}
use streamly.H264.Writer.Written.{written, IsWriter}
use streamly.H264.Writer.Round.{Wrote, write_round-Wrote}

rejoin : (n c : ℕ) → n ≤ c → n + (c - n) ≡ c
rejoin n c h = omega arith

write_loop-written :
    (fuel v count : ℕ) (w : BitWriter)
    → IsWriter w
    → count ≤ fuel
    → IsWriter (write_loop fuel v count w)
      × (written (write_loop fuel v count w) ≡ written w ++ bits count v)
unfolding write_loop
write_loop-written fuel v zero w k h = (k, sym (append-nil (written w)))
write_loop-written zero v (suc c) w k h = absurd (omega arith)
write_loop-written (suc fuel) v (suc c) w k h =
    let out : ℕ × BitWriter = write_round v (suc c) w in
    let ch : Wrote v (suc c) w out = write_round-Wrote v (suc c) w k (omega arith) in
    let (valid, rest) =
      write_loop-written fuel v out.0 out.1 ch.valid
        (omega (arith, ch.left, ch.some_written, ch.at_most)) in
    (valid, rest ∙ joined_bits ch)
  where
    joined_bits :
        (ch : Wrote v (suc c) w (write_round v (suc c) w))
        → written (write_round v (suc c) w).1 ++ bits (write_round v (suc c) w).0 v
          ≡ written w ++ bits (suc c) v
    joined_bits ch =
        ap₂ (λ l n. l ++ bits n v) ch.appends ch.left
        ∙ append_assoc (written w) _ _
        ∙ ap (λ l. written w ++ l)
            (sym (bits-append ch.size (suc c - ch.size) v)
              ∙ ap (λ n. bits n v) (rejoin ch.size (suc c) ch.at_most))

-- Writing `count` bits appends exactly those of the value, whatever emulation-prevention bytes
-- the writer has to insert.
pub write_bits-written :
    (v count : ℕ) (w : BitWriter)
    → IsWriter w
    → IsWriter (write_bits v count w) × (written (write_bits v count w) ≡ written w ++ bits count v)
unfolding write_bits
write_bits-written v count w k = write_loop-written count v count w k (omega arith)
