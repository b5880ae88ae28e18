-- ===== src/Captions/SubDl/Resolve/Gather.antt =====
-- What collecting the paths of one answer does.
use streamly.Prelude.{
  ◌≡◌, ◌≢◌, ◌⊎◌, inl, inr, refl, sym, ap, ◌∙◌, Bool, true, false, ◌||◌, Option, none, some, List,
  [], ◌∷◌, ◌++◌, map, if_split, or-false, All, All-append, Any,
}
use streamly.Prelude.Text.{Text, is_empty, trim_space, eq_text, eq_text_refl}
use streamly.Media.Qualities.{mem_text}
use streamly.Media.Qualities.Ranked.{Distinct, eq_text_other}
use streamly.Captions.SubDl.{pick_subdl_paths}
use streamly.Captions.SubDl.Resolve.{
  Query, Error, err_no_subtitle, Search, Searched, found, not_found, Collected, add_found, add_all,
  Resolved, paths, failed,
}

abbrev pub keys : List Text → List Text
keys = map trim_space

-- What an answer offers for a query.
abbrev pub offered : Query → Searched → List Text
offered q (found subtitles) = pick_subdl_paths subtitles q.season q.episode
offered q (not_found e) = []

-- A search of the variants offers the download.
abbrev pub IsFound : Search → List Query → Text → Type 0
IsFound ask l path = Any (λ q. Any (λ p. p ≡ path) (offered q (ask q))) l

mem_text-snoc :
    (k v : Text) (l : List Text)
    → mem_text k (keys (l ++ (v ∷ []))) ≡ (eq_text k (trim_space v) || mem_text k (keys l))
unfolding mem_text
mem_text-snoc k v [] = refl
mem_text-snoc k v (u ∷ l) =
    rw (mem_text-snoc k v l)
      (or_swap (eq_text k (trim_space u)) (eq_text k (trim_space v)) (mem_text k (keys l)))
  where
    or_swap : (a b c : Bool) → (a || (b || c)) ≡ (b || (a || c))
    or_swap true true c = refl
    or_swap true false c = refl
    or_swap false b c = refl

Distinct-snoc :
    (v : Text) (l : List Text)
    → mem_text (trim_space v) (keys l) ≡ false
    → Distinct (keys l)
    → Distinct (keys (l ++ (v ∷ [])))
unfolding mem_text
Distinct-snoc v [] n h = (refl, record {})
Distinct-snoc v (u ∷ l) n h =
    let parts : (eq_text (trim_space v) (trim_space u) ≡ false)
        × (mem_text (trim_space v) (keys l) ≡ false) =
      or-false _ _ n in
    (
      mem_text-snoc (trim_space u) v l
          ∙ rw (eq_text_other (trim_space v) (trim_space u) parts.0, h.0) refl,
      Distinct-snoc v l parts.1 h.1,
    )

-- Blank, or among the keys.
abbrev pub IsAmong : List Text → Text → Type 0
IsAmong ks path = (is_empty (trim_space path) ≡ true) ⊎ (mem_text (trim_space path) ks ≡ true)

abbrev pub Covers : Search → List Query → List Text → Type 0
Covers ask l ks = All (λ q. All (IsAmong ks) (offered q (ask q))) l

abbrev pub error_or : Option Error → Error → Error
error_or none d = d
error_or (some e) d = e

abbrev pub failure_or : Searched → Error → Error
failure_or (found subtitles) d = d
failure_or (not_found e) d = e

-- The error of the first search that failed.
abbrev pub first_failure : Search → List Query → Error
first_failure ask [] = err_no_subtitle
first_failure ask (q ∷ l) = failure_or (ask q) (first_failure ask l)

abbrev pub IsResolved : Search → List Query → Resolved → Type 0
IsResolved ask l (paths ps) =
    (ps ≢ []) × (Distinct (keys ps) × (All (IsFound ask l) ps × Covers ask l (keys ps)))
IsResolved ask l (failed e) = Covers ask l [] × (e ≡ first_failure ask l)

module _ (P : Text → Type 0) where
  abbrev pub Inv : Collected → Type 0
  Inv c =
      Distinct (keys c.paths)
      × (((k : Text) → mem_text k c.seen ≡ mem_text k (keys c.paths)) × All P c.paths)

  add_found-Inv : (c : Collected) (path : Text) → P path → Inv c → Inv (add_found c path)
  unfolding add_found mem_text
  add_found-Inv c path p (distinct, (same, all)) =
      if_split {A = Collected} Inv (is_empty (trim_space path)) (λ _. (distinct, (same, all)))
        (λ _.
          if_split {A = Collected} Inv (mem_text (trim_space path) c.seen)
            (λ _. (distinct, (same, all)))
            (λ n. (
              Distinct-snoc path c.paths (sym (same (trim_space path)) ∙ n) distinct,
              (
                (λ k.
                    ap (λ b. eq_text k (trim_space path) || b) (same k)
                    ∙ sym (mem_text-snoc k path c.paths)),
                All-append P c.paths (path ∷ []) all (p, record {}),
              ),
            )))

  pub add_all-Inv : (c : Collected) (l : List Text) → All P l → Inv c → Inv (add_all c l)
  unfolding add_all
  add_all-Inv c [] h inv = inv
  add_all-Inv c (path ∷ l) h inv =
      add_all-Inv (add_found c path) l h.1 (add_found-Inv c path h.0 inv)

-- What was seen stays seen.
unfoldable pub Grows : Collected → Collected → Type 0
Grows c d = (k : Text) → mem_text k c.seen ≡ true → mem_text k d.seen ≡ true

add_found-Grows : (c : Collected) (path : Text) → Grows c (add_found c path)
unfolding add_found mem_text Grows
add_found-Grows c path =
    if_split {A = Collected} (Grows c) (is_empty (trim_space path)) (λ _ k h. h)
      (λ _.
        if_split {A = Collected} (Grows c) (mem_text (trim_space path) c.seen) (λ _ k h. h)
          (λ _ k h. rw h (or_true (eq_text k (trim_space path)))))
  where
    or_true : (a : Bool) → (a || true) ≡ true
    or_true true = refl
    or_true false = refl

add_found-IsAmong : (c : Collected) (path : Text) → IsAmong (add_found c path).seen path
unfolding add_found mem_text
add_found-IsAmong c path =
    if_split {A = Collected} (λ d. IsAmong d.seen path) (is_empty (trim_space path)) (λ e. inl e)
      (λ _.
        if_split {A = Collected} (λ d. IsAmong d.seen path) (mem_text (trim_space path) c.seen)
          (λ e. inr e) (λ _. inr (rw (eq_text_refl (trim_space path)) refl)))

pub IsAmong-Grows :
    (c d : Collected) (path : Text) → Grows c d → IsAmong c.seen path → IsAmong d.seen path
unfolding Grows
IsAmong-Grows c d path g (inl e) = inl e
IsAmong-Grows c d path g (inr e) = inr (g (trim_space path) e)

pub add_all-Grows : (c : Collected) (l : List Text) → Grows c (add_all c l)
unfolding add_all Grows
add_all-Grows c [] k h = h
add_all-Grows c (path ∷ l) k h = add_all-Grows (add_found c path) l k (add_found-Grows c path k h)

pub add_all-IsAmong : (c : Collected) (l : List Text) → All (IsAmong (add_all c l).seen) l
unfolding add_all
add_all-IsAmong c [] = record {}
add_all-IsAmong c (path ∷ l) =
    let d : Collected = add_found c path in
    (
      IsAmong-Grows d (add_all d l) path (add_all-Grows d l) (add_found-IsAmong c path),
      add_all-IsAmong d l,
    )

pub add_all-first_err : (c : Collected) (l : List Text) → (add_all c l).first_err ≡ c.first_err
unfolding add_all add_found
add_all-first_err c [] = refl
add_all-first_err c (path ∷ l) =
    add_all-first_err (add_found c path) l
    ∙ if_split {A = Collected} (λ d. d.first_err ≡ c.first_err) (is_empty (trim_space path))
        (λ _. refl)
        (λ _.
          if_split {A = Collected} (λ d. d.first_err ≡ c.first_err)
            (mem_text (trim_space path) c.seen) (λ _. refl) (λ _. refl))
