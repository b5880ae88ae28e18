-- ===== src/H264/Script/Refine.antt =====
-- The two runs of a script, on a reader and a writer and on lists of bits, for the code of
-- internal/streamer/h264.go.
use mathlib.Core.Path.{subst}
use streamly.Prelude.{ℕ, List, Bool, Option, none, some, ◌≡◌, refl}
use streamly.H264.Reader.{BitReader, read_bits, read_ue, read_se}
use streamly.H264.Reader.Refine.{take_value, Agrees, read_bits-Agrees}
use streamly.H264.Reader.Remaining.{IsReader, remaining}
use streamly.H264.Writer.{BitWriter, write_bits, write_ue, write_se}
use streamly.H264.Writer.Refine.{write_bits-written}
use streamly.H264.Writer.Written.{IsWriter, written}
use streamly.H264.Golomb.{
  take_ue, take_se, read_ue-Agrees, read_se-Agrees, write_ue-bits, write_se-bits,
}
use streamly.H264.Script.{
  Script, done, read, read_code, read_signed, write, write_code, write_signed, Machines, Streams,
  run, run_bits, resume, resume_bits,
}

-- Both fail, or both give the same value with machines that stand for the streams.
abbrev pub SameRun : {A : Type 0} → Option (A × Machines) → Option (A × Streams) → Type 0
SameRun none none = Unit
SameRun (some (a, (r, w))) (some (b, (l, o))) =
    (a ≡ b) × IsReader r × IsWriter w × (remaining r ≡ l) × (written w ≡ o)
SameRun _ _ = ⊥

resume-SameRun :
    {A : Type 0} (buf : List ℕ) (m : Option (ℕ × BitReader)) (s : Option (ℕ × List Bool))
    (f : ℕ → BitReader → Option (A × Machines)) (g : ℕ → List Bool → Option (A × Streams))
    → Agrees buf m s
    → ((x : ℕ) (r : BitReader) → IsReader r → SameRun (f x r) (g x (remaining r)))
    → SameRun (resume m f) (resume_bits s g)
unfolding resume resume_bits
resume-SameRun buf none none f g h k = tt
resume-SameRun buf none (some x) f g h k = absurd h
resume-SameRun buf (some x) none f g h k = absurd h
resume-SameRun buf (some (a, r)) (some (b, l)) f g (e, v, el, eb) k =
    subst (λ y. SameRun (f a r) (g y l)) e (subst (λ y. SameRun (f a r) (g a y)) el (k a r v))

-- Every script does to a reader and a writer what it does to their bits, panics included.
pub run-SameRun :
    {A : Type 0} (s : Script A) (r : BitReader) (w : BitWriter)
    → IsReader r
    → IsWriter w
    → SameRun (run s r w) (run_bits s (remaining r) (written w))
unfolding run run_bits
run-SameRun (done a) r w v k = (refl, v, k, refl, refl)
run-SameRun (read n c) r w v k =
    resume-SameRun r.buf (read_bits n r) (take_value n 0 (remaining r)) _ _ (read_bits-Agrees n r v)
      (λ x q u. run-SameRun (c x) q w u k)
run-SameRun (read_code c) r w v k =
    resume-SameRun r.buf (read_ue r) (take_ue (remaining r)) _ _ (read_ue-Agrees r v)
      (λ x q u. run-SameRun (c x) q w u k)
run-SameRun (read_signed c) r w v k =
    resume-SameRun r.buf (read_se r) (take_se (remaining r)) _ _ (read_se-Agrees r v)
      (λ x q u. run-SameRun (c x) q w u k)
run-SameRun (write a n s) r w v k =
    let (k', e) = write_bits-written a n w k in
    subst (λ o. SameRun (run s r (write_bits a n w)) (run_bits s (remaining r) o)) e
      (run-SameRun s r (write_bits a n w) v k')
run-SameRun (write_code a s) r w v k =
    let (k', e) = write_ue-bits a w k in
    subst (λ o. SameRun (run s r (write_ue a w)) (run_bits s (remaining r) o)) e
      (run-SameRun s r (write_ue a w) v k')
run-SameRun (write_signed a s) r w v k =
    let (k', e) = write_se-bits a w k in
    subst (λ o. SameRun (run s r (write_se a w)) (run_bits s (remaining r) o)) e
      (run-SameRun s r (write_se a w) v k')
