-- ===== src/H264/Reader/Remaining.antt =====
-- The bits that are still to be read of a `bitReader`, and what skipping a byte does to them.
use streamly.Prelude.{
  ℕ, zero, suc, ◌-◌, ◌≤◌, ◌<◌, Bool, true, false, ◌&&◌, List, [], ◌∷◌, ◌++◌, ◌≡◌, refl, inl, inr,
  none, some, arith, ◌==◌, if◌then◌else◌, length, get_or, get_elem?, drop, All, Bool-cases, ==_iff,
}
use streamly.Prelude.Bits.{bits}
use streamly.H264.Escape.{
  next_zeros, zeros_at, zeros_at-suc, zeros_at-eq_two, zeros_before, unescape, byte_bits, drop-cons,
}
use streamly.H264.Reader.{BitReader, skip_emulation}

-- The bits of a buffer's rest when `o` bits of its first byte are gone, that byte being payload.
unfoldable pub payload_bits : ℕ → ℕ → List ℕ → List Bool
payload_bits z o [] = []
payload_bits z o (b ∷ bs) = bits (8 - o) b ++ byte_bits (unescape (next_zeros z b) bs)

unfoldable pub rest_bits : ℕ → ℕ → List ℕ → List Bool
unfolding payload_bits
rest_bits z o l = if o == 0 then byte_bits (unescape z l) else payload_bits z o l

-- The bits that are still to be read.
unfoldable pub remaining : BitReader → List Bool
unfolding rest_bits
remaining r = rest_bits (zeros_at 0 r.buf r.byte_offset) r.bit_offset (drop r.byte_offset r.buf)

abbrev pub IsByte : ℕ → Type 0
IsByte b = b < 256

pub record IsReader (r : BitReader) : Type 0 where
  pub inside : r.bit_offset < 8
  pub bytes : All IsByte r.buf

pub get_elem?-lt : (l : List ℕ) (i : ℕ) {b : ℕ} → All IsByte l → get_elem? l i ≡ some b → b < 256
get_elem?-lt [] i h e = cc
get_elem?-lt (x ∷ xs) zero h e = ground (arith, h.0)
get_elem?-lt (x ∷ xs) (suc i) h e = get_elem?-lt xs i h.1 e

pub drop-get_elem? :
    (l : List ℕ) (k : ℕ) {b : ℕ} → get_elem? l k ≡ some b → drop k l ≡ b ∷ drop (suc k) l
drop-get_elem? [] k e = cc
drop-get_elem? (x ∷ xs) zero e = ground arith
drop-get_elem? (x ∷ xs) (suc k) e = drop-get_elem? xs k e

pub drop-over : (l : List ℕ) (k : ℕ) → length l ≤ k → drop k l ≡ []
drop-over [] zero h = refl
drop-over [] (suc k) h = refl
drop-over (x ∷ xs) zero h = absurd (omega arith)
drop-over (x ∷ xs) (suc k) h = drop-over xs k (omega arith)

pub drop-get_elem?-none : (l : List ℕ) (k : ℕ) → get_elem? l k ≡ none → drop k l ≡ []
drop-get_elem?-none [] zero e = refl
drop-get_elem?-none [] (suc k) e = refl
drop-get_elem?-none (x ∷ xs) zero e = cc
drop-get_elem?-none (x ∷ xs) (suc k) e = drop-get_elem?-none xs k e

pub zeros_at-get_elem? :
    (z : ℕ) (l : List ℕ) (k : ℕ) {b : ℕ}
    → get_elem? l k ≡ some b
    → zeros_at z l (suc k) ≡ next_zeros (zeros_at z l k) b
zeros_at-get_elem? z [] k e = cc
zeros_at-get_elem? z (x ∷ xs) zero e = ground arith
zeros_at-get_elem? z (x ∷ xs) (suc k) e = zeros_at-get_elem? (next_zeros z x) xs k e

-- At a byte boundary the payload of the rest begins at this byte, or at the next if this is
-- skipped.
payload-skipped : (bs : List ℕ) → byte_bits (unescape 2 (3 ∷ bs)) ≡ payload_bits 0 0 bs
unfolding payload_bits unescape byte_bits
payload-skipped [] = refl
payload-skipped (b ∷ bs) = refl

payload-kept :
    (z b : ℕ) (bs : List ℕ)
    → (z == 2 && b == 3) ≡ false
    → byte_bits (unescape z (b ∷ bs)) ≡ payload_bits z 0 (b ∷ bs)
unfolding payload_bits unescape byte_bits
payload-kept z b bs h = rw h

skips : BitReader → Bool
skips r = zeros_before r.buf r.byte_offset && get_or r.buf r.byte_offset 0 == 3

-- At a byte boundary, with the skipped byte first.
rest-skipped :
    (r : BitReader)
    → r.byte_offset < length r.buf
    → skips r ≡ true
    → byte_bits (unescape (zeros_at 0 r.buf r.byte_offset) (drop r.byte_offset r.buf))
      ≡ payload_bits (zeros_at 0 r.buf (suc r.byte_offset)) 0 (drop (suc r.byte_offset) r.buf)
unfolding skips
rest-skipped r h s =
    let two : (zeros_at 0 r.buf r.byte_offset == 2) ≡ zeros_before r.buf r.byte_offset =
      zeros_at-eq_two r.buf r.byte_offset (omega arith) in
    let z : zeros_at 0 r.buf r.byte_offset ≡ 2 = ground arith in
    let b : get_or r.buf r.byte_offset 0 ≡ 3 = ground arith in
    rw (drop-cons r.buf r.byte_offset h, zeros_at-suc 0 r.buf r.byte_offset h, z, b)
      (payload-skipped (drop (suc r.byte_offset) r.buf))

rest-kept :
    (r : BitReader)
    → r.byte_offset < length r.buf
    → skips r ≡ false
    → byte_bits (unescape (zeros_at 0 r.buf r.byte_offset) (drop r.byte_offset r.buf))
      ≡ payload_bits (zeros_at 0 r.buf r.byte_offset) 0 (drop r.byte_offset r.buf)
unfolding skips
rest-kept r h s =
    let two : (zeros_at 0 r.buf r.byte_offset == 2) ≡ zeros_before r.buf r.byte_offset =
      zeros_at-eq_two r.buf r.byte_offset (omega arith) in
    rw (drop-cons r.buf r.byte_offset h)
      (payload-kept _ _ (drop (suc r.byte_offset) r.buf) (rw two s))

-- Skipping leaves a reader whose current byte is payload.
pub remaining-skip :
    (r : BitReader)
    → r.byte_offset < length r.buf
    → let q = skip_emulation r in
      remaining r
      ≡ payload_bits (zeros_at 0 q.buf q.byte_offset) q.bit_offset (drop q.byte_offset q.buf)
unfolding remaining skip_emulation rest_bits skips
remaining-skip r h = elim (Bool-cases (r.bit_offset == 0)) [
  | inr inner ↦ rw (inner, ◌&&◌)
  | inl start ↦ elim (Bool-cases (skips r)) [
    | inl s ↦ rw (start, s, (==_iff _ _).0 start) (rest-skipped r h s)
    | inr s ↦ rw (start, s, (==_iff _ _).0 start) (rest-kept r h s)
  ]
]
