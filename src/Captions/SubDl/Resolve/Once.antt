-- ===== src/Captions/SubDl/Resolve/Once.antt =====
-- The downloads of all the searches, each once.
use mathlib.Core.Path.{subst}
use mathlib.Core.List.{cons-ne-nil}
use streamly.Prelude.{
  ◌≡◌, inl, inr, refl, sym, ap, ◌∙◌, Option, none, some, List, [], ◌∷◌, All, All-map, Any,
}
use streamly.Prelude.Text.{Text, trim_space}
use streamly.Media.Qualities.{mem_text}
use streamly.Media.Qualities.Ranked.{Distinct}
use streamly.Captions.SubDl.Resolve.{
  Query, Error, err_no_subtitle, Search, Searched, found, not_found, Collected, note, search_all,
  failed, nothing_found, answer, subdl_query_variants, resolve_paths, first_of,
}
use streamly.Captions.SubDl.Resolve.Gather.{
  keys, offered, IsFound, IsAmong, Covers, error_or, failure_or, first_failure, IsResolved, Inv,
  add_all-Inv, Grows, IsAmong-Grows, add_all-Grows, add_all-IsAmong, add_all-first_err,
}

note-Inv :
    (P : Text → Type 0) (c : Collected) (q : Query) (r : Searched)
    → All P (offered q r)
    → Inv P c
    → Inv P (note c q r)
note-Inv P c q (found subtitles) h inv = add_all-Inv P c (offered q (found subtitles)) h inv
note-Inv P c q (not_found err) h inv = inv

note-Grows : (c : Collected) (q : Query) (r : Searched) → Grows c (note c q r)
unfolding Grows
note-Grows c q (found subtitles) k h = add_all-Grows c (offered q (found subtitles)) k h
note-Grows c q (not_found err) k h = h

note-IsAmong :
    (c : Collected) (q : Query) (r : Searched) → All (IsAmong (note c q r).seen) (offered q r)
note-IsAmong c q (found subtitles) = add_all-IsAmong c (offered q (found subtitles))
note-IsAmong c q (not_found err) = record {}

module _ (ask : Search) where
  search_all-Inv :
      (P : Text → Type 0) (c : Collected) (l : List Query)
      → All (λ q. All P (offered q (ask q))) l
      → Inv P c
      → Inv P (search_all ask c l)
  unfolding search_all
  search_all-Inv P c [] h inv = inv
  search_all-Inv P c (q ∷ l) h inv =
      search_all-Inv P (note c q (ask q)) l h.1 (note-Inv P c q (ask q) h.0 inv)

  search_all-Grows : (c : Collected) (l : List Query) → Grows c (search_all ask c l)
  unfolding search_all Grows
  search_all-Grows c [] k h = h
  search_all-Grows c (q ∷ l) k h =
      search_all-Grows (note c q (ask q)) l k (note-Grows c q (ask q) k h)

  search_all-Covers : (c : Collected) (l : List Query) → Covers ask l (search_all ask c l).seen
  unfolding search_all
  search_all-Covers c [] = record {}
  search_all-Covers c (q ∷ l) =
      let d : Collected = note c q (ask q) in
      (
        All-map (λ path. IsAmong-Grows d (search_all ask d l) path (search_all-Grows d l))
            (offered q (ask q)) (note-IsAmong c q (ask q)),
        search_all-Covers d l,
      )

  note-failure :
      (c : Collected) (q : Query) (l : List Query) (r : Searched)
      → error_or (note c q r).first_err (first_failure ask l)
        ≡ error_or c.first_err (failure_or r (first_failure ask l))
  note-failure c q l (found subtitles) =
      ap (λ o. error_or o (first_failure ask l)) (add_all-first_err c (offered q (found subtitles)))
  note-failure c q l (not_found e) = first c.first_err
    where
      first : (o : Option Error) → error_or (first_of o e) (first_failure ask l) ≡ error_or o e
      first none = refl
      first (some e') = refl

  search_all-failure :
      (c : Collected) (l : List Query)
      → error_or (search_all ask c l).first_err err_no_subtitle
        ≡ error_or c.first_err (first_failure ask l)
  unfolding search_all
  search_all-failure c [] = refl
  search_all-failure c (q ∷ l) =
      search_all-failure (note c q (ask q)) l ∙ note-failure c q l (ask q)

  offered-IsFound : (l : List Query) → All (λ q. All (IsFound ask l) (offered q (ask q))) l
  offered-IsFound [] = record {}
  offered-IsFound (q ∷ l) = (
    All-map (λ path h. inl h) (offered q (ask q)) (itself (offered q (ask q))),
    All-map (λ r. All-map (λ path h. inr h) (offered r (ask r))) l (offered-IsFound l),
  )
    where
      itself : (ps : List Text) → All (λ path. Any (λ p. p ≡ path) ps) ps
      itself [] = record {}
      itself (p ∷ ps) = (inl refl, All-map (λ path h. inr h) ps (itself ps))

nothing_found-error_or : (o : Option Error) → nothing_found o ≡ failed (error_or o err_no_subtitle)
nothing_found-error_or none = refl
nothing_found-error_or (some e) = refl

answer-IsResolved :
    (ask : Search) (l : List Query) (c : Collected) (ps : List Text)
    → Distinct (keys ps)
    → All (IsFound ask l) ps
    → Covers ask l (keys ps)
    → error_or c.first_err err_no_subtitle ≡ first_failure ask l
    → IsResolved ask l (answer c ps)
answer-IsResolved ask l c [] d h k e =
    subst (IsResolved ask l) (sym (nothing_found-error_or c.first_err)) (k, e)
answer-IsResolved ask l c (p ∷ ps) d h k e = ((λ n. absurd (cons-ne-nil p ps n)), (d, (h, k)))

IsAmong-same :
    (c : Collected) (path : Text)
    → ((k : Text) → mem_text k c.seen ≡ mem_text k (keys c.paths))
    → IsAmong c.seen path
    → IsAmong (keys c.paths) path
IsAmong-same c path same (inl e) = inl e
IsAmong-same c path same (inr e) = inr (sym (same (trim_space path)) ∙ e)

-- Whatever the service answers, the downloads found for a query are not none, distinct when
-- trimmed, each offered by the answer to one of the query's variants, and every one that such an
-- answer offers is among them, if not blank; an error is that of the first search that failed, or
-- that there is no subtitle, and then no answer offers any.
pub resolve_paths-IsResolved :
    (ask : Search) (q : Query) → IsResolved ask (subdl_query_variants q) (resolve_paths ask q)
unfolding resolve_paths
resolve_paths-IsResolved ask q =
    let l : List Query = subdl_query_variants q in
    let start : Collected = record { paths = []; seen = []; first_err = none } in
    let c : Collected = search_all ask start l in
    let inv : Inv (IsFound ask l) c =
      search_all-Inv ask (IsFound ask l) start l (offered-IsFound ask l)
        (record {}, ((λ k. refl), record {})) in
    answer-IsResolved ask l c c.paths inv.0 inv.1.1
      (All-map (λ r. All-map (λ path. IsAmong-same c path inv.1.0) (offered r (ask r))) l
        (search_all-Covers ask start l))
      (search_all-failure ask start l)
