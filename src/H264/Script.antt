-- ===== src/H264/Script.antt =====
-- What code does that only calls a `bitReader` and a `bitWriter`: the sequence of its calls, each
-- continued by what was read. It runs on the two machines, and on plain lists of bits.
pub mod Refine
use streamly.Prelude.{ℕ, Bool, Option, none, some, List, ◌++◌, ◌==◌, if◌then◌else◌}
use streamly.Prelude.Bits.{bits}
use streamly.H264.Reader.{BitReader, read_bits, read_ue, read_se}
use streamly.H264.Reader.Refine.{take_value}
use streamly.H264.Writer.{BitWriter, write_bits, write_ue, write_se, ue_of_signed}
use streamly.H264.Golomb.{take_ue, take_se, ue_bits}

pub data Script (A : Type 0) : Type 0 where
  done : A → Script A
  read : ℕ → (ℕ → Script A) → Script A
  read_code : (ℕ → Script A) → Script A
  read_signed : (ℕ → Script A) → Script A
  write : ℕ → ℕ → Script A → Script A
  write_code : ℕ → Script A → Script A
  write_signed : ℕ → Script A → Script A

infixl 5 ◌>>=◌ ◌>>◌
abbrev pub ◌>>=◌ : {A B : Type 0} → Script A → (A → Script B) → Script B
done a >>= f = f a
read n k >>= f = read n (λ x. k x >>= f)
read_code k >>= f = read_code (λ x. k x >>= f)
read_signed k >>= f = read_signed (λ x. k x >>= f)
write v n s >>= f = write v n (s >>= f)
write_code v s >>= f = write_code v (s >>= f)
write_signed v s >>= f = write_signed v (s >>= f)

abbrev pub ◌>>◌ : {A B : Type 0} → Script A → Script B → Script B
s >> t = s >>= λ _. t

-- The run on a reader and a writer; a panic of the reader ends it.
abbrev pub Machines : Type 0
Machines = BitReader × BitWriter

resume : {A : Type 0} → Option (ℕ × BitReader) → (ℕ → BitReader → Option A) → Option A
resume none k = none
resume (some (x, r)) k = k x r

unfoldable pub run : {A : Type 0} → Script A → BitReader → BitWriter → Option (A × Machines)
unfolding resume
run (done a) r w = some (a, (r, w))
run (read n k) r w = resume (read_bits n r) (λ x r'. run (k x) r' w)
run (read_code k) r w = resume (read_ue r) (λ x r'. run (k x) r' w)
run (read_signed k) r w = resume (read_se r) (λ x r'. run (k x) r' w)
run (write v n s) r w = run s r (write_bits v n w)
run (write_code v s) r w = run s r (write_ue v w)
run (write_signed v s) r w = run s r (write_se v w)

-- The run on the bits still to be read and the bits written so far.
abbrev pub Streams : Type 0
Streams = List Bool × List Bool

resume_bits : {A : Type 0} → Option (ℕ × List Bool) → (ℕ → List Bool → Option A) → Option A
resume_bits none k = none
resume_bits (some (x, l)) k = k x l

unfoldable pub run_bits : {A : Type 0} → Script A → List Bool → List Bool → Option (A × Streams)
unfolding resume_bits
run_bits (done a) l o = some (a, (l, o))
run_bits (read n k) l o = resume_bits (take_value n 0 l) (λ x l'. run_bits (k x) l' o)
run_bits (read_code k) l o = resume_bits (take_ue l) (λ x l'. run_bits (k x) l' o)
run_bits (read_signed k) l o = resume_bits (take_se l) (λ x l'. run_bits (k x) l' o)
run_bits (write v n s) l o = run_bits s l (o ++ bits n v)
run_bits (write_code v s) l o = run_bits s l (o ++ ue_bits v)
run_bits (write_signed v s) l o = run_bits s l (o ++ ue_bits (ue_of_signed v))

-- `writer.writeBits(reader.readBits(n), n)` and the like, with the value.
unfoldable pub copy_bits : ℕ → Script ℕ
copy_bits n = read n (λ x. write x n (done x))

unfoldable pub copy_ue : Script ℕ
copy_ue = read_code (λ x. write_code x (done x))

unfoldable pub copy_se : Script ℕ
copy_se = read_signed (λ x. write_signed x (done x))

unfoldable pub read_field : ℕ → Script ℕ
read_field n = read n (λ x. done x)

unfoldable pub read_ue_field : Script ℕ
read_ue_field = read_code (λ x. done x)

unfoldable pub put_bits : ℕ → ℕ → Script (Unit {0})
put_bits v n = write v n (done tt)

unfoldable pub put_ue : ℕ → Script (Unit {0})
put_ue v = write_code v (done tt)

-- `if flag != 0 { body }`.
abbrev pub when_set : ℕ → Script (Unit {0}) → Script (Unit {0})
when_set flag body = if flag == 0 then done tt else body

-- A flag that is copied, and a body that runs when it is set.
unfoldable pub copy_flag : Script (Unit {0}) → Script ℕ
copy_flag body = do flag ← copy_bits 1; when_set flag body; done flag
