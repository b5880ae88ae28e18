-- ===== src/Media/Qualities/Ranked.antt =====
-- Which URLs a ranking has.
use streamly.Prelude.{◌≡◌, ◌⊎◌, inl, inr, sym, true, false, List, [], ◌∷◌, Bool-cases}
use streamly.Prelude.Text.{Text, eq_text, eq_text_iff}
use streamly.Media.Qualities.{FileQuality, mem_text}

abbrev pub Distinct : List Text → Type 0
Distinct [] = Unit
Distinct (u ∷ l) = (mem_text u l ≡ false) × Distinct l

pub eq_text_other : (u v : Text) → eq_text u v ≡ false → eq_text v u ≡ false
eq_text_other u v e = elim (Bool-cases (eq_text v u)) [
  | inl f ↦
      let same : eq_text u v ≡ true = (eq_text_iff u v).1 (sym ((eq_text_iff v u).0 f)) in
      absurd (cc (e, same))
  | inr f ↦ f
]

abbrev IsKnown : List Text → List Text → FileQuality → Type 0
IsKnown seen urls q = (mem_text q.url seen ≡ true) ⊎ (mem_text q.url urls ≡ true)
