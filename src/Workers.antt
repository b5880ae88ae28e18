-- ===== src/Workers.antt =====
-- internal/workers/workers.go: the store of the guilds' tokens. Its lock is left out; the JSON
-- codec is a parameter, and what the file system answers an argument.
pub mod RoundTrip
mod Tests
use streamly.Prelude.{ℕ, Bool, true, false, Option, none, some, List, [], ◌∷◌, ◌++◌, if◌then◌else◌}
use streamly.Prelude.Text.{Text, eq_text}

pub record Entry : Type 0 where
  pub token : Text

-- A map: each key once.
abbrev pub File : Type 0
File = List (Text × Entry)

pub record Store : Type 0 where
  pub path : Text
  pub data_of : File

abbrev pub new_store : Text → Store
new_store path = record { path = path; data_of = [] }

-- `unmarshal` answers none for an error, and `some none` for a null.
pub record Codec : Type 0 where
  pub marshal : File → Option (List ℕ)
  pub unmarshal : List ℕ → Option (Option File)

-- What `os.ReadFile` answers.
pub data Reading : Type 0 where
  missing unreadable : Reading
  content : List ℕ → Reading

pub data Error : Type 0 where
  err_read err_decode err_encode err_write : Error

abbrev pub or_empty : Option File → File
or_empty none = []
or_empty (some f) = f

unfoldable pub load : Codec → Reading → Store → Option Error × Store
load c missing s = (none, record s { data_of = [] })
load c unreadable s = (some err_read, s)
load c (content []) s = (none, record s { data_of = [] })
load c (content (b ∷ raw)) s = elim (c.unmarshal (b ∷ raw)) as (λ _. Option Error × Store) [
  | none ↦ (some err_decode, s)
  | some f ↦ (none, record s { data_of = or_empty f })
]

-- The error, and what is written if there is none; `writes` is whether `os.WriteFile` succeeds.
pub data Saved : Type 0 where
  saved : List ℕ → Saved
  save_failed : Error → Saved

unfoldable pub save : Codec → Bool → Store → Saved
save c writes s = elim (c.marshal s.data_of) as (λ _. Saved) [
  | none ↦ save_failed err_encode
  | some raw ↦ if writes then saved (raw ++ (10 ∷ [])) else save_failed err_write
]

unfoldable pub put_entry : Text → Entry → File → File
put_entry guild entry [] = (guild, entry) ∷ []
put_entry guild entry ((k, e) ∷ l) =
    let rest = put_entry guild entry l in
    if eq_text guild k then (guild, entry) ∷ l else (k, e) ∷ rest

unfoldable pub set : Codec → Bool → Store → Text → Text → Store × Saved
unfolding put_entry save
set c writes s guild token =
    let s' : Store = record s { data_of = put_entry guild (record { token = token }) s.data_of } in
    (s', save c writes s')

unfoldable pub find_entry : Text → File → Option Entry
find_entry guild [] = none
find_entry guild ((k, e) ∷ l) =
    let rest = find_entry guild l in if eq_text guild k then some e else rest

unfoldable pub get : Store → Text → Option Entry
unfolding find_entry
get s guild = find_entry guild s.data_of
