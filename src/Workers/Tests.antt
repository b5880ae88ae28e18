-- ===== src/Workers/Tests.antt =====
-- A codec of files with one guild.
use mathlib.Core.Option.{some-injective}
use streamly.Prelude.{
  ℕ, ◌≡◌, refl, sym, ap, ◌∙◌, true, false, Option, none, some, List, [], ◌∷◌, ◌++◌, length, take,
  drop, take-append, drop-append, append_assoc,
}
use streamly.Prelude.Text.{Text, codes, eq_text}
use streamly.Workers.{File, Store, Codec, content, load, saved, set, find_entry, get, new_store}
use streamly.Workers.RoundTrip.{set-load}

drop_last : List ℕ → List ℕ
drop_last [] = []
drop_last (x ∷ []) = []
drop_last (x ∷ (y ∷ l)) = x ∷ drop_last (y ∷ l)

drop_last-snoc : (x : ℕ) (l : List ℕ) → drop_last (l ++ (x ∷ [])) ≡ l
unfolding drop_last
drop_last-snoc x [] = refl
drop_last-snoc x (y ∷ []) = refl
drop_last-snoc x (y ∷ (z ∷ l)) = ap (◌∷◌ y) (drop_last-snoc x (z ∷ l))

marshal : File → Option (List ℕ)
marshal [] = none
marshal ((k, e) ∷ []) = some (length k ∷ (k ++ e.token))
marshal ((k, e) ∷ (f ∷ l)) = none

unmarshal : List ℕ → Option (Option File)
unmarshal [] = none
unmarshal (n ∷ t) = some (some ((take n t, record { token = drop_last (drop n t) }) ∷ []))

codec : Codec
unfolding marshal unmarshal
codec = record { marshal = marshal; unmarshal = unmarshal }

unmarshal-marshal :
    (f : File) (raw : List ℕ)
    → codec.marshal f ≡ some raw
    → (g : File) × ((codec.unmarshal (raw ++ (10 ∷ [])) ≡ some (some g))
        × ((guild : Text) → find_entry guild g ≡ find_entry guild f))
unfolding codec marshal unmarshal
unmarshal-marshal [] raw e = cc e
unmarshal-marshal ((k, x) ∷ []) raw e =
    let bytes : List ℕ = length k ∷ (k ++ x.token) in
    let same : bytes ≡ raw = some-injective bytes raw e in
    (
      (k, x) ∷ [],
      (
        ap (λ r. unmarshal (r ++ (10 ∷ []))) (sym same)
            ∙ (ap (λ t. unmarshal (length k ∷ t)) (append_assoc k x.token (10 ∷ [])) ∙ decoded),
        (λ guild. refl),
      ),
    )
  where
    decoded : unmarshal (length k ∷ (k ++ (x.token ++ (10 ∷ [])))) ≡ some (some ((k, x) ∷ []))
    decoded =
        rw
          (
            take-append k (x.token ++ (10 ∷ [])),
            drop-append k (x.token ++ (10 ∷ [])),
            drop_last-snoc 10 x.token,
          )
          refl
unmarshal-marshal ((k, x) ∷ (f ∷ l)) raw e = cc e

abbrev store : Store
store = new_store (codes "workers.json")

abbrev bytes : List ℕ
bytes = 1 ∷ (codes "gtoken" ++ (10 ∷ []))

set-bytes : (set codec true store (codes "g") (codes "token")).1 ≡ saved bytes
unfolding set codec marshal
set-bytes = refl

set-load_example :
    let r = load codec (content bytes) (new_store (codes "other")) in
    (r.0 ≡ none)
    × ((get r.1 (codes "g") ≡ some (record { token = codes "token" }))
        × ((other : Text) → eq_text other (codes "g") ≡ false → get r.1 other ≡ get store other))
set-load_example =
    set-load codec unmarshal-marshal true store (new_store (codes "other")) (codes "g")
      (codes "token") bytes set-bytes
