-- ===== src/H264/Reader/Refine.antt =====
-- The reader of bits as a list of bits that are still to be read.
use streamly.Prelude.{
  ℕ, zero, suc, ◌+◌, ◌-◌, ◌*◌, ◌%◌, ◌^◌, ◌≤◌, ◌<◌, Bool, List, [], ◌∷◌, ◌++◌, ◌≡◌, refl, sym, ap,
  ◌∙◌, inl, inr, Option, none, some, arith, ◌==◌, length, drop, length-append, length-drop, All,
  Bool-cases,
}
use mathlib.Core.Path.{subst, ap₂}
use streamly.Prelude.Bits.{bits, bit_value, value, length-bits}
use streamly.H264.Escape.{next_zeros, zeros_at, unescape, byte_bits}
use streamly.H264.Reader.{BitReader, read_loop, read_bits, ◌>>=◌}
use streamly.H264.Reader.Remaining.{payload_bits, rest_bits, remaining, IsByte, IsReader}
use streamly.H264.Reader.Round.{round-cases}

-- Reading `count` bits off a list of bits into a uint32.
unfoldable pub take_value : ℕ → ℕ → List Bool → Option (ℕ × List Bool)
take_value zero acc l = some (acc, l)
take_value (suc c) acc [] = none
take_value (suc c) acc (b ∷ bs) = take_value c ((acc * 2 + bit_value b) % 2 ^ 32) bs

pub take_value-append :
    (count acc : ℕ) (xs ys : List Bool)
    → length xs ≤ count
    → take_value count acc (xs ++ ys) ≡ take_value (count - length xs) (value acc xs) ys
unfolding take_value
take_value-append count acc [] ys h = ap (λ c. take_value c acc ys) (omega arith)
take_value-append zero acc (x ∷ xs) ys h = absurd (omega arith)
take_value-append (suc c) acc (x ∷ xs) ys h =
    take_value-append c ((acc * 2 + bit_value x) % 2 ^ 32) xs ys (omega arith)
    ∙ ap (λ n. take_value n (value acc (x ∷ xs)) ys) (omega arith)

value-small : (acc : ℕ) (l : List Bool) → acc < 2 ^ 32 → value acc l < 2 ^ 32
value-small acc [] h = h
value-small acc (b ∷ bs) h = value-small ((acc * 2 + bit_value b) % 2 ^ 32) bs (omega arith)

-- An operation on the reader does what an operation on its remaining bits does: both fail, or both
-- give the same value, and the reader that is left stands for the bits that are left.
abbrev pub Agrees : {A : Type 0} → List ℕ → Option (A × BitReader) → Option (A × List Bool) → Type 0
Agrees buf none none = Unit
Agrees buf (some (a, r)) (some (b, l)) = (a ≡ b) × IsReader r × (remaining r ≡ l) × (r.buf ≡ buf)
Agrees buf _ _ = ⊥

read_loop-Agrees :
    (fuel count result : ℕ) (r : BitReader)
    → IsReader r
    → count ≤ fuel
    → result < 2 ^ 32
    → Agrees r.buf (read_loop fuel count result r) (take_value count result (remaining r))
unfolding read_loop take_value
read_loop-Agrees fuel zero result r v h small = (refl, v, refl, refl)
read_loop-Agrees zero (suc c) result r v h small = absurd (omega arith)
read_loop-Agrees (suc fuel) (suc c) result r v h small =
    elim (round-cases (suc c) result r v (omega arith) small) [
      | inl (e, gone) ↦ rw (e, gone) tt
      | inr (out, e, ch) ↦
          let small' : out.1 < 2 ^ 32 = rw (ch.is_value) (value-small result ch.taken small) in
          let enough : out.0 ≤ fuel = omega (arith, ch.left, ch.some_taken, ch.at_most) in
          let v' : IsReader out.2 = record {
            inside = ch.inside;
            bytes = subst (All IsByte) (sym ch.same_buf) v.bytes;
          } in
          let spec : take_value out.0 out.1 (remaining out.2)
              ≡ take_value (suc c) result (remaining r) =
            ap₂ (λ n x. take_value n x (remaining out.2)) ch.left ch.is_value
            ∙ sym (
                ap (take_value (suc c) result) ch.splits
                ∙ take_value-append (suc c) result ch.taken (remaining out.2) ch.at_most) in
          rw (e, ← spec)
            (subst
              (λ l.
                Agrees l (read_loop fuel out.0 out.1 out.2)
                  (take_value out.0 out.1 (remaining out.2)))
              ch.same_buf (read_loop-Agrees fuel out.0 out.1 out.2 v' enough small'))
    ]

-- Reading `count` bits gives their value, most significant first and modulo 2 ^ 32, and leaves
-- exactly the bits behind them; it panics exactly when fewer are left. Emulation-prevention
-- bytes are not among the bits.
pub read_bits-Agrees :
    (count : ℕ) (r : BitReader)
    → IsReader r
    → Agrees r.buf (read_bits count r) (take_value count 0 (remaining r))
unfolding read_bits
read_bits-Agrees count r v = read_loop-Agrees count count 0 r v (omega arith) (omega arith)

-- Agreement is kept by a sequence of steps.
pub Agrees-bind :
    {A B : Type 0} {buf : List ℕ} (m : Option (A × BitReader)) (s : Option (A × List Bool))
    (f : A × BitReader → Option (B × BitReader)) (g : A × List Bool → Option (B × List Bool))
    → Agrees buf m s
    → ((a : A) (r : BitReader)
        → IsReader r
        → r.buf ≡ buf
        → Agrees buf (f (a, r)) (g (a, remaining r)))
    → Agrees buf (m >>= f) (s >>= g)
Agrees-bind none none f g h k = tt
Agrees-bind none (some x) f g h k = absurd h
Agrees-bind (some x) none f g h k = absurd h
Agrees-bind {buf = buf} (some (a, r)) (some (b, l)) f g (e, v, el, eb) k =
    subst (λ y. Agrees buf (f (a, r)) (g (y, l))) e
      (subst (λ y. Agrees buf (f (a, r)) (g (a, y))) el (k a r v eb))

-- What agreement says of an operation whose specification is known.
pub Agrees-some :
    {A : Type 0} {buf : List ℕ} (m : Option (A × BitReader)) {b : A} {l : List Bool}
    → Agrees buf m (some (b, l))
    → (r : BitReader) × (m ≡ some (b, r)) × IsReader r × (remaining r ≡ l) × (r.buf ≡ buf)
Agrees-some none h = absurd h
Agrees-some (some (a, r)) (e, v, el, eb) = (r, ap (λ x. some (x, r)) e, v, el, eb)

pub Agrees-none :
    {A : Type 0} (buf : List ℕ) (m : Option (A × BitReader)) → Agrees buf m none → m ≡ none
Agrees-none buf none h = refl
Agrees-none buf (some x) h = absurd h

length-byte_bits : (l : List ℕ) → length (byte_bits l) ≡ 8 * length l
unfolding byte_bits
length-byte_bits [] = refl
length-byte_bits (b ∷ bs) =
    length-append (bits 8 b) (byte_bits bs) ∙ omega (arith, length-byte_bits bs, length-bits 8 b)

length-unescape : (z : ℕ) (l : List ℕ) → length (unescape z l) ≤ length l
unfolding unescape
length-unescape z [] = omega arith
length-unescape z (b ∷ bs) = ground (arith, length-unescape (next_zeros z b) bs)

length-payload : (z o : ℕ) (l : List ℕ) → length (payload_bits z o l) ≤ 8 * length l
unfolding payload_bits
length-payload z o [] = omega arith
length-payload z o (b ∷ bs) = rw length-append (
    omega (
      arith,
      length-bits (8 - o) b,
      length-byte_bits (unescape (next_zeros z b) bs),
      length-unescape (next_zeros z b) bs,
    ))

length-rest : (z o : ℕ) (l : List ℕ) → length (rest_bits z o l) ≤ 8 * length l
unfolding rest_bits
length-rest z o l = elim (Bool-cases (o == 0)) [
  | inl e ↦ rw e (omega (arith, length-byte_bits (unescape z l), length-unescape z l))
  | inr e ↦ rw e (length-payload z o l)
]

pub length-remaining : (r : BitReader) → length (remaining r) ≤ 8 * length r.buf
unfolding remaining
length-remaining r = omega (
  arith,
  length-rest (zeros_at 0 r.buf r.byte_offset) r.bit_offset (drop r.byte_offset r.buf),
  length-drop r.byte_offset r.buf,
)
