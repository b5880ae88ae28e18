-- ===== src/Captions/Subtitle.antt =====
-- internal/captions/subtitle.go, and what language.go tells of a subtitle's text. Decoding UTF-8
-- and its test, the table of Chinese, Japanese and Korean letters, and reading an archive are
-- parameters.
use streamly.Prelude.{
  ℕ, ◌+◌, ◌-◌, ◌*◌, ◌/◌, ◌%◌, ◌^◌, Bool, true, false, not, ◌&&◌, ◌||◌, Option, none, some, List, [],
  ◌∷◌, ◌++◌, map, if◌then◌else◌, leb, ltb, ◌==◌, take,
}
use streamly.Prelude.Text.{Text, codes, is_empty, contains, has_prefix, to_lower, trim_space}
use streamly.Prelude.Signed.{ℤ, pos, ltb_ℤ}
use streamly.Media.Qualities.{is_digit, digit, mem_text}
use streamly.Captions.Names.{name_matches_episode}
use streamly.Captions.Language.{has_foreign_language_name}
use streamly.Captions.SubDl.Resolve.{Error, err_no_subtitle, err_failed}

abbrev pub Bytes : Type 0
Bytes = List ℕ

-- The lines, the first of them open.
abbrev pub in_line : ℕ → List Text → List Text
in_line c [] = (c ∷ []) ∷ []
in_line c (l ∷ ls) = (c ∷ l) ∷ ls

unfoldable pub lines : Text → List Text
lines [] = [] ∷ []
lines (c ∷ t) = let rest = lines t in if c == 10 then [] ∷ rest else in_line c rest

abbrev pub all_digits : Text → Bool
all_digits [] = true
all_digits (c ∷ t) = is_digit c && all_digits t

abbrev pub value : ℕ → Text → ℕ
value n [] = n
value n (c ∷ t) = value (n * 10 + digit c) t

abbrev pub is_count : ℕ → Text → Bool
is_count bound t = not (is_empty t) && all_digits t && leb (value 0 t) bound

-- That `strconv.Atoi` gives no error.
unfoldable pub is_int : Text → Bool
is_int [] = false
is_int (c ∷ t) =
    if c == b'-'
    then is_count (2 ^ 63) t
    else if c == b'+'
    then is_count (2 ^ 63 - 1) t
    else is_count (2 ^ 63 - 1) (c ∷ t)

abbrev pub is_dialogue : Text → Bool
is_dialogue line = not (is_empty line || contains line (codes "-->")) && not (is_int line)

unfoldable pub dialogue : List Text → List Text
unfolding is_int
dialogue [] = []
dialogue (l ∷ ls) =
    let rest = dialogue ls in if is_dialogue (trim_space l) then trim_space l ∷ rest else rest

abbrev pub join : List Text → Text
join [] = []
join (l ∷ []) = l
join (l ∷ (m ∷ ls)) = l ++ (0x20 ∷ join (m ∷ ls))

unfoldable pub subtitle_dialogue_sample : Text → Text
unfolding lines dialogue
subtitle_dialogue_sample t = join (take 12 (dialogue (lines t)))

-- The letters below 128 that `unicode.IsLetter` knows are those two ranges.
abbrev pub is_latin_letter : ℕ → Bool
is_latin_letter r = (leb b'A' r && leb r b'Z') || (leb b'a' r && leb r b'z')

abbrev pub is_arabic : ℕ → Bool
is_arabic r = leb 0x600 r && leb r 0x6ff

abbrev pub is_cyrillic : ℕ → Bool
is_cyrillic r = leb 0x400 r && leb r 0x4ff

unfoldable pub count_of : (ℕ → Bool) → Text → ℕ
count_of p [] = 0
count_of p (r ∷ t) = let rest = count_of p t in if p r then rest + 1 else rest

abbrev pub outweighs : ℕ → ℕ → Bool
outweighs n latin = ltb 0 n && leb (latin / 3) n

-- The `switch` takes the first case that applies.
unfoldable pub looks_english_subtitle : (ℕ → Bool) → Text → Bool
unfolding subtitle_dialogue_sample count_of
looks_english_subtitle is_cjk t =
    let sample = subtitle_dialogue_sample t in
    let latin = count_of is_latin_letter sample in
    if is_empty sample
    then true
    else if outweighs (count_of is_arabic sample) latin
    then false
    else if outweighs (count_of is_cyrillic sample) latin
    then false
    else if outweighs
        (count_of (λ r. is_cjk r && not (is_latin_letter r || is_arabic r || is_cyrillic r)) sample)
        latin
    then false
    else ltb 0 latin

-- What the code asks of Go's libraries.
pub record Library : Type 0 where
  pub decode : Bytes → Text
  pub is_valid : Bytes → Bool
  pub is_cjk : ℕ → Bool

abbrev pub is_english : Library → Bytes → Bool
is_english g data_bytes = looks_english_subtitle g.is_cjk (g.decode data_bytes)

unfoldable pub looks_like_subtitle : Library → Bytes → Bool
looks_like_subtitle g bytes =
    let text = to_lower (g.decode (take 512 bytes)) in
    contains text (codes "-->")
    || has_prefix (trim_space text) (codes "webvtt")
    || has_prefix (trim_space text) (codes "[script info]")

abbrev pub trim_bom : Bytes → Bytes
trim_bom (a ∷ (b ∷ (c ∷ t))) = if a == 0xef && b == 0xbb && c == 0xbf then t else a ∷ (b ∷ (c ∷ t))
trim_bom t = t

-- The bytes as runes, in UTF-8.
unfoldable pub encode_latin1 : Bytes → Bytes
encode_latin1 [] = []
encode_latin1 (b ∷ t) =
    let rest = encode_latin1 t in
    if ltb b 128 then b ∷ rest else (0xc0 + b / 64) ∷ ((0x80 + b % 64) ∷ rest)

unfoldable pub normalize_subtitle_utf8 : Library → Bytes → Bytes
unfolding encode_latin1
normalize_subtitle_utf8 g bytes =
    let body = trim_bom bytes in if g.is_valid body then body else encode_latin1 body

-- A file of an archive: `payload` is none if it cannot be opened or read.
pub record ZipFile : Type 0 where
  pub name : Text
  pub payload : Option Bytes

abbrev pub has_slash : Text → Bool
has_slash [] = false
has_slash (c ∷ t) = c == b'/' || has_slash t

-- `filepath.Ext`.
unfoldable pub ext_of : Text → Text
ext_of [] = []
ext_of (c ∷ t) =
    let rest = ext_of t in
    if not (is_empty rest) then rest else if c == b'.' && not (has_slash t) then c ∷ t else []

abbrev pub subtitle_extensions : List Text
subtitle_extensions = map codes (".srt" ∷ (".vtt" ∷ (".ass" ∷ (".ssa" ∷ []))))

-- What the loop takes of a file: its payload, not empty, under an English name of a subtitle.
unfoldable pub zip_payload : ZipFile → Option Bytes
unfolding ext_of
zip_payload f =
    if not (mem_text (to_lower (ext_of f.name)) subtitle_extensions)
    then none
    else if has_foreign_language_name f.name
    then none
    else elim f.payload as (λ _. Option Bytes) [
      | none ↦ none
      | some p ↦ if is_empty p then none else some p
    ]

unfoldable pub zip_matches : Text → ℤ → ℤ → Bool
zip_matches name season episode =
    if ltb_ℤ (pos 0) season && ltb_ℤ (pos 0) episode && name_matches_episode name season episode
    then true
    else ltb_ℤ (pos 0) episode && name_matches_episode name (pos 0) episode

-- The payloads of the episode, and the others.
unfoldable pub zip_candidates : List ZipFile → ℤ → ℤ → List Bytes × List Bytes
unfolding zip_payload zip_matches
zip_candidates [] season episode = ([], [])
zip_candidates (f ∷ l) season episode =
    let rest = zip_candidates l season episode in
    elim (zip_payload f) as (λ _. List Bytes × List Bytes) [
      | none ↦ rest
      | some p ↦
          if zip_matches f.name season episode then (p ∷ rest.0, rest.1) else (rest.0, p ∷ rest.1)
    ]

unfoldable pub pick_zip_subtitle_candidate : Library → List Bytes → Option Bytes
pick_zip_subtitle_candidate g [] = none
pick_zip_subtitle_candidate g (p ∷ l) =
    let rest = pick_zip_subtitle_candidate g l in if is_english g p then some p else rest

pub data Extracted : Type 0 where
  ok : Bytes → Extracted
  err : Error → Extracted

abbrev pub or_next : Option Bytes → Extracted → Extracted
or_next none e = e
or_next (some p) e = ok p

-- `extractFromZip` of the files that the reader lists.
unfoldable pub extract_from_zip : Library → List ZipFile → ℤ → ℤ → Extracted
unfolding zip_candidates pick_zip_subtitle_candidate
extract_from_zip g files season episode =
    let c = zip_candidates files season episode in
    or_next (pick_zip_subtitle_candidate g c.0)
      (or_next (pick_zip_subtitle_candidate g c.1) (err err_no_subtitle))

abbrev pub is_archive : Bytes → Bool
is_archive (a ∷ (b ∷ (c ∷ (d ∷ t)))) = a == b'P' && b == b'K'
is_archive t = false

abbrev pub normalized : Library → Extracted → Extracted
normalized g (ok p) = ok (normalize_subtitle_utf8 g p)
normalized g (err e) = err e

-- `open_zip` answers the archive's files, or the reader's error.
unfoldable pub extract_subtitle :
    Library → (Bytes → Option (List ZipFile)) → Bytes → ℤ → ℤ → Extracted
unfolding extract_from_zip looks_like_subtitle
extract_subtitle g open_zip bytes season episode =
    if is_archive bytes
    then (elim (open_zip bytes) as (λ _. Extracted) [
      | none ↦ err (err_failed (codes "zip"))
      | some files ↦ normalized g (extract_from_zip g files season episode)
    ])
    else if looks_like_subtitle g bytes && is_english g bytes
    then ok (normalize_subtitle_utf8 g bytes)
    else err err_no_subtitle
