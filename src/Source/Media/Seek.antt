-- ===== src/Source/Media/Seek.antt =====
-- Where `Seek` puts the source.
use mathlib.Core.Path.{subst}
use streamly.Prelude.{
  ℕ, ◌≡◌, ◌∙◌, ap, sym, refl, false, Option, none, some, List, length, if_split, Option_split,
  arith, ◌==◌,
}
use streamly.Prelude.Signed.{ℤ, pos, negsuc, pos_part, ◌+ℤ◌, ltb_ℤ, wrap64}
use streamly.Source.Media.{
  Response, MediaSource, with_size, seek_to, Whence, seek_start, seek_current, seek_end, other,
  seek,
}
use streamly.Source.Media.Honest.{IsSize, IsHonestAnswer, IsAt, ensure_body-IsAt}

-- The position that is asked for, in the file `c` read up to o.
abbrev pub asked : List ℕ → ℕ → ℤ → Whence → Option ℤ
asked c o offset seek_start = some offset
asked c o offset seek_current = some (wrap64 (pos o +ℤ offset))
asked c o offset seek_end = some (wrap64 (pos (length c) +ℤ offset))
asked c o offset other = none

abbrev pub Lands : List ℕ → ℕ → ℕ → Option ℤ → Option ℕ × MediaSource → Type 0
Lands c o k target (none, m) = IsAt c o k m
Lands c o k target (some t, m) = (target ≡ some (pos t)) × IsAt c t k m

pos-pos_part : (t : ℤ) → ltb_ℤ t (pos 0) ≡ false → pos (pos_part t) ≡ t
pos-pos_part (pos n) e = refl
pos-pos_part (negsuc n) e = absurd (ground (arith, e))

seek_to-Lands :
    (c : List ℕ) (o k : ℕ) (m : MediaSource) (t : ℤ)
    → IsAt c o k m
    → Lands c o k (some t) (seek_to m t)
seek_to-Lands c o k m t v =
    if_split (Lands c o k (some t)) (ltb_ℤ t (pos 0)) (λ _. v)
      (λ e.
        let at : some t ≡ some (pos (pos_part t)) = ap some (sym (pos-pos_part t e)) in
        if_split (Lands c o k (some t)) (pos_part t == m.offset)
          (λ f.
            let there : pos_part t ≡ m.offset = ground (arith, f) in
            let same : pos_part t ≡ o = there ∙ v.at in
            (at, subst (λ n. IsAt c n k m) (sym same) v))
          (λ _.
            (at, record { at = refl; counted = v.counted; serves = record {}; sized = v.sized })))

with_size-IsAt :
    (c : List ℕ) (o k : ℕ) (m : MediaSource) (response : Option Response)
    → IsHonestAnswer c o response
    → IsAt c o k m
    → IsAt c o k (with_size m response)
with_size-IsAt c o k m response h v =
    Option_split (IsAt c o k) m.size (λ _. ensure_body-IsAt c o k m response h v) (λ _ _. v)

-- A Seek that succeeds puts the source at the position that is asked for, with no bytes of the old
-- one left, and one that fails leaves it where it was.
pub seek-Lands :
    (c : List ℕ) (o k : ℕ) (m : MediaSource) (offset : ℤ) (w : Whence) (response : Option Response)
    → IsHonestAnswer c o response
    → IsAt c o k m
    → Lands c o k (asked c o offset w) (seek m offset w response)
unfolding seek
seek-Lands c o k m offset seek_start response h v = seek_to-Lands c o k m offset v
seek-Lands c o k m offset seek_current response h v =
    subst
      (λ n.
        Lands c o k (some (wrap64 (pos n +ℤ offset))) (seek_to m (wrap64 (pos m.offset +ℤ offset))))
      v.at (seek_to-Lands c o k m (wrap64 (pos m.offset +ℤ offset)) v)
seek-Lands c o k m offset seek_end response h v =
    let m' : MediaSource = with_size m response in
    let w : IsAt c o k m' = with_size-IsAt c o k m response h v in
    Option_split (Lands c o k (asked c o offset seek_end)) m'.size (λ _. w)
      (λ n e.
        let t : ℤ = wrap64 (pos n +ℤ offset) in
        subst (λ l. Lands c o k (some (wrap64 (pos l +ℤ offset))) (seek_to m' t))
          (subst (IsSize c) e w.sized) (seek_to-Lands c o k m' t w))
seek-Lands c o k m offset other response h v = v
