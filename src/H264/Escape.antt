-- ===== src/H264/Escape.antt =====
-- Emulation prevention as a transformation of whole byte strings: what the reader skips and what
-- the writer inserts.
use streamly.Prelude.{
  ℕ, zero, suc, ◌-◌, ◌≤◌, ◌<◌, Bool, ◌&&◌, List, [], ◌∷◌, ◌++◌, ◌≡◌, refl, arith, ◌==◌, leb,
  if◌then◌else◌, length, get_or, drop,
}
use streamly.Prelude.Bits.{bits}

-- How many of the last bytes are zero, counted up to two, after `b`.
abbrev pub next_zeros : ℕ → ℕ → ℕ
next_zeros z b = if b == 0 then (if z == 0 then 1 else 2) else 0

-- The same after the first `k` bytes of a buffer.
abbrev pub zeros_at : ℕ → List ℕ → ℕ → ℕ
zeros_at z buf zero = z
zeros_at z [] (suc k) = z
zeros_at z (b ∷ bs) (suc k) = zeros_at (next_zeros z b) bs k

-- The payload of a byte string: every 3 behind two zeros is dropped.
unfoldable pub unescape : ℕ → List ℕ → List ℕ
unescape z [] = []
unescape z (b ∷ bs) =
    let rest = unescape (next_zeros z b) bs in if z == 2 && b == 3 then rest else b ∷ rest

-- The bits of a byte string.
unfoldable pub byte_bits : List ℕ → List Bool
byte_bits [] = []
byte_bits (b ∷ bs) = bits 8 b ++ byte_bits bs

pub byte_bits-append : (xs ys : List ℕ) → byte_bits (xs ++ ys) ≡ byte_bits xs ++ byte_bits ys
unfolding byte_bits
byte_bits-append [] ys = refl
byte_bits-append (x ∷ xs) ys = rw (byte_bits-append xs ys)

pub unescape-append :
    (z : ℕ) (xs ys : List ℕ)
    → unescape z (xs ++ ys) ≡ unescape z xs ++ unescape (zeros_at z xs (length xs)) ys
unfolding unescape
unescape-append z [] ys = refl
unescape-append z (x ∷ xs) ys = ground (arith, unescape-append (next_zeros z x) xs ys)

-- One byte further.
pub zeros_at-suc :
    (z : ℕ) (buf : List ℕ) (k : ℕ)
    → k < length buf
    → zeros_at z buf (suc k) ≡ next_zeros (zeros_at z buf k) (get_or buf k 0)
zeros_at-suc z [] k h = absurd (omega arith)
zeros_at-suc z (b ∷ bs) zero h = refl
zeros_at-suc z (b ∷ bs) (suc k) h = zeros_at-suc (next_zeros z b) bs k (omega arith)

-- The code's test on the two bytes before index `k`.
abbrev pub zeros_before : List ℕ → ℕ → Bool
zeros_before buf k = leb 2 k && (get_or buf (k - 2) 0 == 0 && get_or buf (k - 1) 0 == 0)

pub zeros_at-eq_two :
    (buf : List ℕ) (k : ℕ) → k ≤ length buf → (zeros_at 0 buf k == 2) ≡ zeros_before buf k
zeros_at-eq_two buf zero h = refl
zeros_at-eq_two buf (suc zero) h = ground (arith, zeros_at-suc 0 buf 0)
zeros_at-eq_two buf (suc (suc k)) h =
    ground (arith, zeros_at-suc 0 buf (suc k), zeros_at-suc 0 buf k)

pub drop-cons :
    (buf : List ℕ) (k : ℕ) → k < length buf → drop k buf ≡ get_or buf k 0 ∷ drop (suc k) buf
drop-cons [] k h = absurd (omega arith)
drop-cons (b ∷ bs) zero h = refl
drop-cons (b ∷ bs) (suc k) h = drop-cons bs k (omega arith)
