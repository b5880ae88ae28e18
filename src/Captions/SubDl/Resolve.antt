-- ===== src/Captions/SubDl/Resolve.antt =====
-- `subdlQueryVariants` and `resolvePaths` of internal/captions/subdl.go: the searches for a query,
-- and the downloads that they offer, each once. What the service answers to a search is a
-- parameter.
pub mod Gather
pub mod Once
use streamly.Prelude.{
  ℕ, Bool, true, false, not, ◌&&◌, ◌||◌, Option, none, some, List, [], ◌∷◌, ◌++◌, if◌then◌else◌,
}
use streamly.Prelude.Text.{Text, is_empty, trim_space}
use streamly.Prelude.Signed.{ℤ, pos, ltb_ℤ}
use streamly.Media.Qualities.{mem_text}
use streamly.Introdb.Lookup.{format_int}
use streamly.Captions.SubDl.{Subtitle, pick_subdl_paths}

-- `err_failed` is any error of the service or of what carries it.
pub data Error : Type 0 where
  err_no_font err_no_subtitle err_unconfigured err_unauthorized err_rate_limited : Error
  err_failed : Text → Error

pub record Query : Type 0 where
  pub imdb_id : Text
  pub tmdb_id : ℤ
  pub share_key : Text
  pub video_fid : ℤ
  pub video_name : Text
  pub season : ℤ
  pub episode : ℤ

-- The fields joined by a zero byte.
abbrev pub variant_key : Query → Text
variant_key q =
    trim_space q.imdb_id
    ++ (0
        ∷ (format_int q.tmdb_id
            ++ (0
                ∷ (trim_space q.video_name
                    ++ (0 ∷ (format_int q.season ++ (0 ∷ format_int q.episode)))))))

abbrev pub has_id : Query → Bool
has_id q = not (is_empty (trim_space q.imdb_id)) || ltb_ℤ (pos 0) q.tmdb_id

-- The variants so far, and their keys.
unfoldable pub add_variant : Query → List Query × List Text → List Query × List Text
add_variant q (variants, seen) =
    if not (has_id q)
    then (variants, seen)
    else if mem_text (variant_key q) seen
    then (variants, seen)
    else (variants ++ (q ∷ []), variant_key q ∷ seen)

abbrev pub without_name : Query → Query
without_name q = record q { video_name = [] }

abbrev pub without_imdb : Query → Query
without_imdb q = record q { imdb_id = [] }

unfoldable pub subdl_query_variants : Query → List Query
unfolding add_variant
subdl_query_variants q =
    let two = add_variant (without_name q) (add_variant q ([], [])) in
    if not (is_empty (trim_space q.imdb_id)) && ltb_ℤ (pos 0) q.tmdb_id
    then (add_variant (without_name (without_imdb q)) (add_variant (without_imdb q) two)).0
    else two.0

pub data Searched : Type 0 where
  found : List Subtitle → Searched
  not_found : Error → Searched

abbrev pub Search : Type 0
Search = Query → Searched

pub record Collected : Type 0 where
  pub paths : List Text
  pub seen : List Text
  pub first_err : Option Error

unfoldable pub add_found : Collected → Text → Collected
add_found c path =
    let key = trim_space path in
    if is_empty key
    then c
    else if mem_text key c.seen
    then c
    else record c { seen = key ∷ c.seen; paths = c.paths ++ (path ∷ []) }

unfoldable pub add_all : Collected → List Text → Collected
unfolding add_found
add_all c [] = c
add_all c (path ∷ l) = add_all (add_found c path) l

abbrev pub first_of : Option Error → Error → Option Error
first_of none e = some e
first_of (some e') e = some e'

abbrev pub note : Collected → Query → Searched → Collected
note c q (found l) = add_all c (pick_subdl_paths l q.season q.episode)
note c q (not_found e) = record c { first_err = first_of c.first_err e }

unfoldable pub search_all : Search → Collected → List Query → Collected
unfolding add_all
search_all ask c [] = c
search_all ask c (q ∷ l) = search_all ask (note c q (ask q)) l

pub data Resolved : Type 0 where
  paths : List Text → Resolved
  failed : Error → Resolved

abbrev pub nothing_found : Option Error → Resolved
nothing_found none = failed err_no_subtitle
nothing_found (some e) = failed e

abbrev pub answer : Collected → List Text → Resolved
answer c [] = nothing_found c.first_err
answer c (p ∷ l) = paths (p ∷ l)

abbrev pub collected : Search → Query → Collected
collected ask q =
    search_all ask (record { paths = []; seen = []; first_err = none }) (subdl_query_variants q)

unfoldable pub resolve_paths : Search → Query → Resolved
unfolding search_all subdl_query_variants
resolve_paths ask q = let c = collected ask q in answer c c.paths
