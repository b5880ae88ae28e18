-- ===== src/Media/Qualities.antt =====
-- The ranking of a file's qualities: internal/media/qualities.go, `QualityHeight` of media.go and
-- source_pref.go. `sort.SliceStable` is an insertion sort, as a stable sort is unique.
pub mod Filters
pub mod Order
pub mod Pick
pub mod Ranked
use streamly.Prelude.{
  ℕ, zero, suc, ◌+◌, ◌-◌, ◌*◌, Bool, true, false, not, ◌&&◌, ◌||◌, Option, none, some, List, [],
  ◌∷◌, ◌++◌, map, if◌then◌else◌, ltb, leb, ◌==◌,
}
use streamly.Prelude.Text.{Text, codes, contains, is_empty, eq_text, to_lower}
use streamly.Prelude.Signed.{ℤ, pos, negsuc, ◌+ℤ◌, ◌-ℤ◌, ltb_ℤ}
use streamly.Source.{is_hls_url}

pub record FileQuality : Type 0 where
  pub url : Text
  pub quality : Text
  pub name : Text

-- What `(?i)` folds into ASCII: the capitals, and the Kelvin and the long s sign.
abbrev pub fold_code : ℕ → ℕ
fold_code c =
    if leb b'A' c && leb c b'Z'
    then c + 32
    else if c == 0x212a
    then b'k'
    else if c == 0x17f
    then b's'
    else c

abbrev pub matches : Text → Text → Bool
matches label word = contains (map fold_code label) word

abbrev pub is_digit : ℕ → Bool
is_digit c = leb b'0' c && leb c b'9'

-- `\s*p` at the start.
abbrev pub is_p_next : Text → Bool
is_p_next [] = false
is_p_next (c ∷ t) =
    let rest = is_p_next t in
    if c == b'p'
    then true
    else if c == 0x20 || c == 9 || c == 10 || c == 12 || c == 13
    then rest
    else false

abbrev pub digit : ℕ → ℕ
digit c = c - b'0'

-- `(\d{3,4})\s*p` at the start: four digits before three.
abbrev pub three_at : ℕ → ℕ → ℕ → Text → Option ℕ
three_at a b c t =
    if is_digit a && is_digit b && is_digit c && is_p_next t
    then some (digit a * 100 + digit b * 10 + digit c)
    else none

abbrev pub height_at : Text → Option ℕ
height_at (a ∷ (b ∷ (c ∷ (d ∷ t)))) =
    if is_digit a && is_digit b && is_digit c && is_digit d && is_p_next t
    then some (digit a * 1000 + digit b * 100 + digit c * 10 + digit d)
    else three_at a b c (d ∷ t)
height_at _ = none

unfoldable pub height_in : Text → Option ℕ
height_in [] = none
height_in (c ∷ t) =
    let rest = height_in t in elim (height_at (c ∷ t)) [ some h ↦ some h | none ↦ rest ]

abbrev pub max_int : ℕ
max_int = 9_223_372_036_854_775_807

unfoldable pub quality_height : FileQuality → ℕ
quality_height q =
    let label = q.quality ++ codes " " ++ q.name in
    if matches label (codes "2160") || matches label (codes "4k")
    then 2160
    else elim (height_in label) [
      | some height ↦ height
      | none ↦ if matches label (codes "org") || matches label (codes "origin") then max_int else 0
    ]

abbrev pub points : Bool → ℤ → ℤ
points true n = n
points false n = pos 0

unfoldable pub stream_file_preference : Text → ℤ
stream_file_preference name =
    let lower = to_lower name in
    points
      (contains lower (codes "x265")
        || contains lower (codes "hevc")
        || contains lower (codes "h265"))
      (negsuc 29)
    +ℤ points
        (contains lower (codes "x264")
          || contains lower (codes "h264")
          || contains lower (codes "avc"))
        (pos 20)
    +ℤ points (contains lower (codes "bluray") || contains lower (codes "blu-ray")) (pos 10)
    +ℤ points (contains lower (codes "1080")) (pos 5)
    +ℤ points (contains lower (codes "720")) (pos 2)
    +ℤ points (contains lower (codes "rarbg") || contains lower (codes "web-dl")) (negsuc 4)

unfoldable pub is_progressive : FileQuality → Bool
is_progressive q = not (is_empty q.url) && not (is_hls_url q.url)

unfoldable pub progressive : List FileQuality → List FileQuality
progressive [] = []
progressive (q ∷ l) = let rest = progressive l in if is_progressive q then q ∷ rest else rest

-- The comparison of `SliceStable`.
unfoldable pub less : FileQuality → FileQuality → Bool
less a b =
    if not (quality_height a == quality_height b)
    then ltb (quality_height a) (quality_height b)
    else ltb_ℤ (stream_file_preference b.name) (stream_file_preference a.name)

-- Before the first that is not less.
unfoldable pub insert : FileQuality → List FileQuality → List FileQuality
insert q [] = q ∷ []
insert q (r ∷ l) = let rest = insert q l in if less r q then r ∷ rest else q ∷ (r ∷ l)

unfoldable pub slice_stable : List FileQuality → List FileQuality
slice_stable [] = []
slice_stable (q ∷ l) = insert q (slice_stable l)

unfoldable pub at_least : ℕ → List FileQuality → List FileQuality
at_least target [] = []
at_least target (q ∷ l) =
    let rest = at_least target l in if leb target (quality_height q) then q ∷ rest else rest

-- Those below, the last first, before `later`.
unfoldable pub below_reversed : ℕ → List FileQuality → List FileQuality → List FileQuality
below_reversed target [] later = later
below_reversed target (q ∷ l) later =
    below_reversed target l (if ltb (quality_height q) target then q ∷ later else later)

unfoldable pub mem_text : Text → List Text → Bool
mem_text t [] = false
mem_text t (u ∷ l) = eq_text t u || mem_text t l

-- The URLs that are not among those seen, each once.
unfoldable pub distinct_urls : List Text → List FileQuality → List Text
distinct_urls seen [] = []
distinct_urls seen (q ∷ l) =
    let rest = distinct_urls (q.url ∷ seen) l in
    let same = distinct_urls seen l in if mem_text q.url seen then same else q.url ∷ rest

abbrev pub ordered : ℕ → List FileQuality → List FileQuality
ordered target l = at_least target l ++ below_reversed target l []

unfoldable pub ranked_quality_urls : List FileQuality → ℕ → List Text
ranked_quality_urls qualities target =
    distinct_urls [] (ordered target (slice_stable (progressive qualities)))
