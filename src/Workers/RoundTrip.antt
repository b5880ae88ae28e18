-- ===== src/Workers/RoundTrip.antt =====
-- A token that is stored and read again by another process.
use mathlib.Core.Path.{subst}
use mathlib.Core.List.{cons-ne-nil}
use streamly.Prelude.{
  ℕ, ◌≡◌, ◌≢◌, refl, sym, ap, ◌∙◌, Bool, false, Option, none, some, List, [], ◌∷◌, ◌++◌, if_split,
  Option_split, if◌then◌else◌,
}
use streamly.Prelude.Text.{Text, eq_text, eq_text_iff, eq_text_refl}
use streamly.Workers.{
  Entry, File, Error, Store, Codec, content, load, Saved, saved, save_failed, save, put_entry, set,
  find_entry, get,
}

put_entry-find_entry :
    (guild : Text) (entry : Entry) (f : File)
    → find_entry guild (put_entry guild entry f) ≡ some entry
unfolding put_entry find_entry
put_entry-find_entry guild entry [] = rw (eq_text_refl guild) refl
put_entry-find_entry guild entry ((k, e) ∷ l) =
    if_split {A = File} (λ f. find_entry guild f ≡ some entry) (eq_text guild k)
      (λ _. rw (eq_text_refl guild) refl) (λ n. rw n (put_entry-find_entry guild entry l))

-- Another guild's token is as before.
put_entry-other :
    (guild other : Text) (entry : Entry) (f : File)
    → eq_text other guild ≡ false
    → find_entry other (put_entry guild entry f) ≡ find_entry other f
unfolding put_entry find_entry
put_entry-other guild other entry [] n = rw n refl
put_entry-other guild other entry ((k, e) ∷ l) n =
    if_split {A = File} (λ f. find_entry other f ≡ find_entry other ((k, e) ∷ l)) (eq_text guild k)
      (λ same. rw (n, sym ((eq_text_iff guild k).0 same), n) refl)
      (λ _. ap (λ o. if eq_text other k then some e else o) (put_entry-other guild other entry l n))

snoc-ne-nil : (raw : List ℕ) → raw ++ (10 ∷ []) ≢ []
snoc-ne-nil [] e = cons-ne-nil 10 [] e
snoc-ne-nil (b ∷ raw) e = cons-ne-nil b (raw ++ (10 ∷ [])) e

module _ (c : Codec)
    -- What is encoded is decoded to a map with the same entries, with a newline behind it too.
    (unmarshal-marshal : (f : File) (raw : List ℕ)
      → c.marshal f ≡ some raw
      → (g : File) × ((c.unmarshal (raw ++ (10 ∷ [])) ≡ some (some g))
          × ((guild : Text) → find_entry guild g ≡ find_entry guild f))) where
  load-content :
      (t : Store) (raw : List ℕ) (g : File)
      → raw ≢ []
      → c.unmarshal raw ≡ some (some g)
      → load c (content raw) t ≡ (none, record t { data_of = g })
  unfolding load
  load-content t [] g n e = absurd (n refl)
  load-content t (b ∷ raw) g n e = rw (e, load) refl

  -- What is read of the bytes that are saved.
  abbrev IsReadAs : File → Saved → Type 0
  IsReadAs f (save_failed e) = Unit
  IsReadAs f (saved raw) =
      (t : Store)
      → ((load c (content raw) t).0 ≡ none)
        × ((guild : Text) → get (load c (content raw) t).1 guild ≡ find_entry guild f)

  save-IsReadAs : (writes : Bool) (s : Store) → IsReadAs s.data_of (save c writes s)
  unfolding save get
  save-IsReadAs writes s =
      Option_split {A = Saved} (IsReadAs s.data_of) (c.marshal s.data_of) (λ _. record {})
        (λ raw e.
          if_split {A = Saved} (IsReadAs s.data_of) writes
            (λ _ t. reads t raw (unmarshal-marshal s.data_of raw e)) (λ _. record {}))
    where
      reads :
          (t : Store) (raw : List ℕ)
          → (g : File) × ((c.unmarshal (raw ++ (10 ∷ [])) ≡ some (some g))
              × ((guild : Text) → find_entry guild g ≡ find_entry guild s.data_of))
          → ((load c (content (raw ++ (10 ∷ []))) t).0 ≡ none)
            × ((guild : Text)
                → find_entry guild (load c (content (raw ++ (10 ∷ []))) t).1.data_of
                  ≡ find_entry guild s.data_of)
      reads t raw (g, (e, same)) =
          let loaded : load c (content (raw ++ (10 ∷ []))) t ≡ (none, record t { data_of = g }) =
            load-content t (raw ++ (10 ∷ [])) g (snoc-ne-nil raw) e in
          (
            ap (λ (r : Option Error × Store). r.0) loaded,
            (λ guild.
                ap (λ (r : Option Error × Store). find_entry guild r.1.data_of) loaded
                ∙ same guild),
          )

  -- If the codec reads what it writes: once a token is set without an error, any store that loads
  -- the bytes that were written gives no error, the token for its guild, and for every other one
  -- what the first store had.
  pub set-load :
      (writes : Bool) (s t : Store) (guild token : Text) (raw : List ℕ)
      → (set c writes s guild token).1 ≡ saved raw
      → let r = load c (content raw) t in
        (r.0 ≡ none)
        × ((get r.1 guild ≡ some (record { token = token }))
            × ((other : Text) → eq_text other guild ≡ false → get r.1 other ≡ get s other))
  unfolding set get
  set-load writes s t guild token raw e =
      let entry : Entry = record { token = token } in
      let f : File = put_entry guild entry s.data_of in
      let reads : IsReadAs f (saved raw) =
        subst (IsReadAs f) e (save-IsReadAs writes (record s { data_of = f })) in
      (
        (reads t).0,
        (
          (reads t).1 guild ∙ put_entry-find_entry guild entry s.data_of,
          (λ other n. (reads t).1 other ∙ put_entry-other guild other entry s.data_of n),
        ),
      )
