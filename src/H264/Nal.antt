-- ===== src/H264/Nal.antt =====
-- The NAL units of a frame, internal/streamer/h264.go: splitting at start codes, the test for an
-- IDR and the rewriting of the parameter sets. The scratch buffer only saves allocations and is
-- left out.
pub mod Split
pub mod Joined
pub mod Rewritten
mod Tests
use streamly.Prelude.{
  ℕ, zero, suc, ◌+◌, ◌-◌, ◌%◌, Bool, true, false, ◌&&◌, ◌||◌, Option, none, some, List, [], ◌∷◌,
  ◌++◌, length, get_or, take, drop, if◌then◌else◌, ltb, ◌==◌,
}
use streamly.H264.Sps.{rewrite_sps_vui}

abbrev pub start_code_3 : List ℕ
start_code_3 = 0 ∷ (0 ∷ (1 ∷ []))

abbrev pub nal_type_sps : ℕ
nal_type_sps = 7

abbrev pub nal_type_idr : ℕ
nal_type_idr = 5

-- `bytes.Index(temp, startCode3)`.
unfoldable pub starts : List ℕ → Bool
starts [] = false
starts (a ∷ []) = false
starts (a ∷ (b ∷ [])) = false
starts (a ∷ (b ∷ (c ∷ l))) = a == 0 && b == 0 && c == 1

unfoldable pub index : List ℕ → Option ℕ
index [] = none
index (x ∷ xs) =
    let rest : Option ℕ = elim (index xs) [ none ↦ none | some n ↦ some (suc n) ] in
    if starts (x ∷ xs) then some 0 else rest

-- Whether the start code at `pos` is one of four bytes.
abbrev pub is_long : List ℕ → ℕ → Bool
is_long temp pos = ltb 0 pos && get_or temp (pos - 1) 0 == 0

-- The unit before the start code at `pos`, and what is behind it.
abbrev pub cut : List ℕ → ℕ → List ℕ × List ℕ
cut temp pos =
    if is_long temp pos
    then (take (pos - 1) temp, drop (pos - 1 + 4) temp)
    else (take pos temp, drop (pos + 3) temp)

abbrev pub keep : List ℕ → List (List ℕ) → List (List ℕ)
keep [] units = units
keep (x ∷ xs) units = (x ∷ xs) ∷ units

-- Every round takes a byte at least.
unfoldable pub split_loop : ℕ → List ℕ → List (List ℕ)
split_loop fuel [] = []
split_loop zero (x ∷ xs) = []
split_loop (suc fuel) (x ∷ xs) = elim (index (x ∷ xs)) [
  | none ↦ (x ∷ xs) ∷ []
  | some pos ↦ let (unit, rest) = cut (x ∷ xs) pos in keep unit (split_loop fuel rest)
]

unfoldable pub split_nalus : List ℕ → List (List ℕ)
split_nalus frame = split_loop (length frame) frame

abbrev pub has_type : ℕ → List ℕ → Bool
has_type t [] = false
has_type t (x ∷ xs) = x % 32 == t

unfoldable pub any_idr : List (List ℕ) → Bool
any_idr [] = false
any_idr (u ∷ units) = has_type nal_type_idr u || any_idr units

unfoldable pub h264_contains_idr : List ℕ → Bool
h264_contains_idr frame = any_idr (split_nalus frame)

-- The units with the parameter sets rewritten, and whether one is.
unfoldable pub rewrite_unit : List ℕ → List ℕ × Bool
rewrite_unit u =
    if has_type nal_type_sps u
    then elim (rewrite_sps_vui u) [ none ↦ (u, false) | some out ↦ (out, true) ]
    else (u, false)

unfoldable pub rewrite_units : List (List ℕ) → List (List ℕ) × Bool
rewrite_units [] = ([], false)
rewrite_units (u ∷ units) =
    let (out, changed) = rewrite_unit u in
    let (outs, any) = rewrite_units units in (out ∷ outs, changed || any)

unfoldable pub join_units : List (List ℕ) → List ℕ
join_units [] = []
join_units (u ∷ units) = start_code_3 ++ u ++ join_units units

unfoldable pub rewrite_h264_sps : List ℕ → List ℕ
rewrite_h264_sps frame =
    let (units, rewritten) = rewrite_units (split_nalus frame) in
    if rewritten then join_units units else frame
