-- ===== src/H264/Reader/Round.antt =====
-- One round of the loop of `readBits`.
use streamly.Prelude.{
  ℕ, suc, ◌+◌, ◌-◌, ◌*◌, ◌/◌, ◌%◌, ◌^◌, ◌≤◌, ◌<◌, Bool, true, false, ◌&&◌, List, [], ◌++◌, ◌≡◌,
  refl, sym, ap, ◌∙◌, ◌⊎◌, inl, inr, none, some, arith, ◌==◌, leb, if◌then◌else◌, length, get_elem?,
  drop, All, Bool-cases, Option-cases, append_assoc,
}
use mathlib.Core.Path.{subst}
use streamly.Prelude.Bits.{bits, value, value-bits, bits-append, length-bits, or_shift}
use native.Mathlib.Nat.{mod-lt, one-le-pow}
use streamly.H264.Escape.{zeros_at, unescape, byte_bits}
use streamly.H264.Reader.{
  BitReader, skip_emulation, advance, read_part, num_bits, read_chunk, read_round,
}
use streamly.H264.Reader.Remaining.{
  payload_bits, rest_bits, remaining, IsByte, IsReader, get_elem?-lt, drop-get_elem?, drop-over,
  drop-get_elem?-none, zeros_at-get_elem?, remaining-skip,
}

-- What one round does to a reader `q` whose current byte `b` is payload: it takes the bits `taken`.
pub record Chunk (count result : ℕ) (l : List Bool) (buf : List ℕ) (out : ℕ × ℕ × BitReader)
    : Type 0 where
  pub taken : List Bool
  pub some_taken : 0 < length taken
  pub at_most : length taken ≤ count
  pub left : out.0 ≡ count - length taken
  pub splits : l ≡ taken ++ remaining out.2
  pub is_value : out.1 ≡ value result taken
  pub inside : out.2.bit_offset < 8
  pub same_buf : out.2.buf ≡ buf

module _ (count result b : ℕ) (q : BitReader) (k : q.bit_offset < 8) (bh : b < 256)
    (pos_count : 0 < count) (small : result < 2 ^ 32)
    (here : get_elem? q.buf q.byte_offset ≡ some b) where
  payload : List Bool
  payload = payload_bits (zeros_at 0 q.buf q.byte_offset) q.bit_offset (drop q.byte_offset q.buf)

  payload-cons :
      payload
      ≡ bits (8 - q.bit_offset) b
        ++ byte_bits
            (unescape (zeros_at 0 q.buf (suc q.byte_offset)) (drop (suc q.byte_offset) q.buf))
  unfolding payload payload_bits
  payload-cons =
      rw (drop-get_elem? q.buf q.byte_offset here, zeros_at-get_elem? 0 q.buf q.byte_offset here)

  Chunk-whole :
      (q.bit_offset == 0 && leb 8 count) ≡ true
      → Chunk count result payload q.buf (read_chunk count result q b)
  unfolding read_chunk remaining rest_bits
  Chunk-whole w =
      let o : q.bit_offset ≡ 0 = ground arith in
      let c : 8 ≤ count = ground arith in
      rw w (record {
        taken = bits 8 b;
        some_taken = omega arith;
        at_most = c;
        left = refl;
        splits = rw (payload-cons, o);
        is_value =
            or_shift 8 result b (omega arith) bh
            ∙ sym
                (value-bits 8 b result small ∙ ap (λ x. (result * 256 + x) % 2 ^ 32) (omega arith));
        inside = k;
        same_buf = refl;
      })

  payload_split :
      (n : ℕ)
      → n ≤ 8 - q.bit_offset
      → bits (8 - q.bit_offset) b
        ≡ bits n (b / 2 ^ (8 - q.bit_offset - n)) ++ bits (8 - q.bit_offset - n) b
  payload_split n room = ap (λ m. bits m b) (omega arith) ∙ bits-append n (8 - q.bit_offset - n) b

  remaining-advance :
      (n : ℕ)
      → 0 < n
      → n ≤ 8 - q.bit_offset
      → bits (8 - q.bit_offset - n) b
          ++ byte_bits
              (unescape (zeros_at 0 q.buf (suc q.byte_offset)) (drop (suc q.byte_offset) q.buf))
        ≡ remaining (advance q n)
  unfolding remaining rest_bits payload_bits
  remaining-advance n p room = elim (Bool-cases (q.bit_offset + n == 8)) [
    | inl full ↦ let e : 8 - q.bit_offset - n ≡ 0 = ground arith in rw (full, e)
    | inr more ↦
        let e : 8 - (q.bit_offset + n) ≡ 8 - q.bit_offset - n = omega arith in
        let inner : (q.bit_offset + n == 0) ≡ false = ground arith in
        rw (
          more,
          inner,
          drop-get_elem? q.buf q.byte_offset here,
          e,
          zeros_at-get_elem? 0 q.buf q.byte_offset here,
        )
  ]

  Chunk-part :
      (n : ℕ)
      → 0 < n
      → n ≤ count
      → n ≤ 8 - q.bit_offset
      → Chunk count result payload q.buf (read_part n count result q b)
  Chunk-part n p c room = record {
    taken = bits n v;
    some_taken = rw length-bits p;
    at_most = rw length-bits c;
    left = rw length-bits;
    splits =
        payload-cons
        ∙ rw (payload_split n room) (
            append_assoc (bits n v) (bits (8 - q.bit_offset - n) b) _
            ∙ ap (λ l. bits n v ++ l) (remaining-advance n p room));
    is_value =
        or_shift n result (v % 2 ^ n) (omega arith) (mod-lt v (one-le-pow n 2 (omega arith)))
        ∙ sym (value-bits n v result small);
    inside = ground arith;
    same_buf = ground arith;
  }
    where
      v : ℕ
      v = b / 2 ^ (8 - q.bit_offset - n)

  chunk : Chunk count result payload q.buf (read_chunk count result q b)
  unfolding read_chunk
  chunk = elim (Bool-cases (q.bit_offset == 0 && leb 8 count)) [
    | inl w ↦ Chunk-whole w
    | inr w ↦ rw w (
        Chunk-part (num_bits (8 - q.bit_offset) count) (ground arith) (ground arith) (ground arith))
  ]

remaining-over : (r : BitReader) → length r.buf ≤ r.byte_offset → remaining r ≡ []
unfolding remaining rest_bits payload_bits
remaining-over r h = rw (drop-over r.buf r.byte_offset h) (if_same _)
  where
    if_same :
        (t : Bool)
        → (if t then byte_bits (unescape (zeros_at 0 r.buf r.byte_offset) []) else []) ≡ []
    if_same true = unfold unescape byte_bits in refl
    if_same false = refl

payload-nil : (z o : ℕ) → payload_bits z o [] ≡ []
unfolding payload_bits
payload-nil z o = refl

same_reader :
    (r : BitReader)
    → ((skip_emulation r).buf ≡ r.buf) × ((skip_emulation r).bit_offset ≡ r.bit_offset)
unfolding skip_emulation
same_reader r = ground arith

-- A round panics when no bit is left, and takes some bits otherwise.
pub round-cases :
    (count result : ℕ) (r : BitReader)
    → IsReader r
    → 0 < count
    → result < 2 ^ 32
    → ((read_round count result r ≡ none) × (remaining r ≡ []))
      ⊎ ((out : ℕ × ℕ × BitReader) × (read_round count result r ≡ some out)
          × Chunk count result (remaining r) r.buf out)
unfolding read_round payload
round-cases count result r v pc small = elim (Bool-cases (leb (length r.buf) r.byte_offset)) [
  | inl over ↦ inl (rw over, remaining-over r (ground arith))
  | inr more ↦
      elim (Option-cases (get_elem? (skip_emulation r).buf (skip_emulation r).byte_offset)) [
        | inl gone ↦ inl (
          rw (more, gone),
          remaining-skip r (ground arith) ∙ rw (drop-get_elem?-none _ _ gone) (payload-nil _ _),
        )
        | inr (b, here) ↦
            let q : BitReader = skip_emulation r in
            let out : ℕ × ℕ × BitReader = read_chunk count result q b in
            let inside : q.bit_offset < 8 = rw (same_reader r).1 v.inside in
            let byte : b < 256 =
              get_elem?-lt q.buf q.byte_offset (subst (All IsByte) (sym (same_reader r).0) v.bytes)
                here in
            let at : Chunk count result (remaining r) r.buf out =
              subst (λ l. Chunk count result (remaining r) l out) (same_reader r).0
                (subst (λ l. Chunk count result l q.buf out) (sym (remaining-skip r (ground arith)))
                  (chunk count result b q inside byte pc small here)) in
            inr (read_chunk count result (skip_emulation r) b, rw (more, here), at)
      ]
]
