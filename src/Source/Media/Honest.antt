-- ===== src/Source/Media/Honest.antt =====
-- What `Read` gives of a file that the servers send correctly.
use mathlib.Core.Path.{subst}
use mathlib.Core.Option.{some-injective, none-ne-some}
use streamly.Prelude.{
  ℕ, zero, suc, ◌+◌, ◌-◌, ◌≤◌, ◌<◌, ◌≡◌, ◌≢◌, ◌∙◌, inl, inr, refl, sym, ap, Bool, false, not, ◌&&◌,
  Option, none, some, List, [], ◌∷◌, ◌++◌, length, take, drop, drop-drop, take-append-drop,
  append_assoc, length-drop, Bool-cases, if_split, Option_split, arith, ltb, ◌==◌, min,
}
use streamly.Source.Media.{
  content_range_total, Response, MediaSource, Round, note_size, discard, is_success, open_body,
  ensure_body,
}

abbrev pub IsPrefix : List ℕ → List ℕ → Type 0
IsPrefix a b = (rest : List ℕ) × (a ++ rest ≡ b)

pub IsPrefix-take : (n : ℕ) (a b : List ℕ) → IsPrefix a b → IsPrefix (take n a) b
IsPrefix-take n a b (rest, e) = (
  drop n a ++ rest,
  sym (append_assoc (take n a) (drop n a) rest) ∙ ap (λ l. l ++ rest) (take-append-drop n a) ∙ e,
)

drop-within : (n : ℕ) (a b : List ℕ) → n ≤ length a → drop n (a ++ b) ≡ drop n a ++ b
drop-within zero a b h = refl
drop-within (suc n) [] b h = absurd (omega arith)
drop-within (suc n) (x ∷ a) b h = drop-within n a b (omega arith)

-- What is left of a prefix after n of its items is a prefix of what is left.
pub IsPrefix-drop :
    (n : ℕ) (a b : List ℕ) → n ≤ length a → IsPrefix a b → IsPrefix (drop n a) (drop n b)
IsPrefix-drop n a b h (rest, e) = (rest, sym (drop-within n a rest h) ∙ ap (drop n) e)

discard-drop :
    (fuel n : ℕ) (l : List ℕ) → n ≤ fuel → n ≤ length l → discard fuel n l ≡ some (drop n l)
unfolding discard
discard-drop fuel zero l h k = refl
discard-drop zero (suc n) l h k = absurd (omega arith)
discard-drop (suc fuel) (suc n) l h k =
    let chunk : ℕ = min 32_768 (suc n) in
    let small : ltb (length l) chunk ≡ false = ground arith in
    let more : suc n - chunk ≤ length (drop chunk l) = omega (arith, length-drop chunk l) in
    let joined : chunk + (suc n - chunk) ≡ suc n = ground arith in
    rw small (
      discard-drop fuel (suc n - chunk) (drop chunk l) (ground arith) more
      ∙ ap some (drop-drop chunk (suc n - chunk) l ∙ ap (λ m. drop m l) joined))

discard-none : (fuel n : ℕ) (l : List ℕ) → n ≤ fuel → length l < n → discard fuel n l ≡ none
unfolding discard
discard-none fuel zero l h k = absurd (omega arith)
discard-none zero (suc n) l h k = absurd (omega arith)
discard-none (suc fuel) (suc n) l h k =
    let chunk : ℕ = min 32_768 (suc n) in
    elim (Bool-cases (ltb (length l) chunk)) [
      | inl e ↦ rw e refl
      | inr e ↦
          let more : length (drop chunk l) < suc n - chunk = ground (arith, length-drop chunk l) in
          rw e (discard-none fuel (suc n - chunk) (drop chunk l) (ground arith) more)
    ]

abbrev pub IsSize : List ℕ → Option ℕ → Type 0
IsSize c none = Unit
IsSize c (some n) = n ≡ length c

abbrev pub ReachesEnd : List ℕ → ℕ → Option ℕ → Type 0
ReachesEnd c o none = Unit
ReachesEnd c o (some n) = o + n ≡ length c

abbrev pub Serves : List ℕ → ℕ → Option (List ℕ) → Type 0
Serves c o none = Unit
Serves c o (some b) = IsPrefix b (drop o c)

-- A response for the file `c` from offset o, as HTTP documents it: 200 is the whole file, 206 the
-- range from the offset; the connection may break off anywhere, and the sizes, where given, are
-- right.
pub record IsHonestResponse (c : List ℕ) (o : ℕ) (r : Response) : Type 0 where
  pub whole : r.status ≡ 200 → IsPrefix r.bytes c
  pub range : r.status ≢ 200 → IsPrefix r.bytes (drop o c)
  pub whole_size : r.status ≢ 206 → IsSize c r.content_length
  pub total : r.status ≡ 206 → IsSize c (content_range_total r.content_range)
  pub range_size : r.status ≡ 206 → ReachesEnd c o r.content_length

-- A source at offset o that has read k bytes: what its body will send is the file from there, and
-- the size, where known, is the file's.
pub record IsAt (c : List ℕ) (o k : ℕ) (m : MediaSource) : Type 0 where
  pub at : m.offset ≡ o
  pub counted : m.bytes_read ≡ k
  pub serves : Serves c o m.body
  pub sized : IsSize c m.size

note_size-IsAt :
    (c : List ℕ) (o k : ℕ) (m : MediaSource) (r : Response)
    → IsHonestResponse c o r
    → IsAt c o k m
    → IsAt c o k (note_size m r)
unfolding note_size
note_size-IsAt c o k m r h v =
    if_split (IsAt c o k) (r.status == 206)
      (λ e.
        let e' : r.status ≡ 206 = ground (arith, e) in
        Option_split (IsAt c o k) (content_range_total r.content_range)
          (λ _.
            Option_split (IsAt c o k) r.content_length (λ _. v)
              (λ n f.
                resized (m.offset + n) (rw v.at (subst (ReachesEnd c o) f (h.range_size e')))))
          (λ n f. resized n (subst (IsSize c) f (h.total e'))))
      (λ e.
        let e' : r.status ≢ 206 = ground (arith, e) in
        Option_split (IsAt c o k) r.content_length (λ _. v)
          (λ n f. resized n (subst (IsSize c) f (h.whole_size e'))))
  where
    resized : (n : ℕ) → n ≡ length c → IsAt c o k (record m { size = some n })
    resized n e = record { at = v.at; counted = v.counted; serves = v.serves; sized = e }

discard-IsPrefix :
    (n : ℕ) (a c b : List ℕ) → IsPrefix a c → discard n n a ≡ some b → IsPrefix b (drop n c)
discard-IsPrefix n a c b p f = elim (Bool-cases (ltb (length a) n)) [
  | inl e ↦ absurd (none-ne-some b (sym (discard-none n n a (omega arith) (ground arith)) ∙ f))
  | inr e ↦
      let short : n ≤ length a = ground (arith, e) in
      subst (λ x. IsPrefix x (drop n c))
        (some-injective (drop n a) b (sym (discard-drop n n a (omega arith) short) ∙ f))
        (IsPrefix-drop n a c short p)
]

abbrev pub IsHonestAnswer : List ℕ → ℕ → Option Response → Type 0
IsHonestAnswer c o none = Unit
IsHonestAnswer c o (some r) = IsHonestResponse c o r

open_body-IsAt :
    (c : List ℕ) (o k : ℕ) (m : MediaSource) (r : Option Response)
    → IsHonestAnswer c o r
    → IsAt c o k m
    → IsAt c o k (open_body m r).0
unfolding open_body
open_body-IsAt c o k m none h v = v
open_body-IsAt c o k m (some r) h v =
    if_split {A = MediaSource × Bool} (λ x. IsAt c o k x.0) (not (is_success r.status)) (λ _. v)
      (λ _.
        if_split {A = MediaSource × Bool} (λ x. IsAt c o k x.0) (r.status == 200 && ltb 0 m.offset)
          (λ e.
            let e' : r.status ≡ 200 = ground (arith, e) in
            Option_split {A = MediaSource × Bool} (λ x. IsAt c o k x.0)
              (discard m.offset m.offset r.bytes) (λ _. w)
              (λ b f. opened b (
                subst (λ n. IsPrefix b (drop n c)) v.at
                  (discard-IsPrefix m.offset r.bytes c b (h.whole e') f))))
          (λ e. opened r.bytes (elim (Bool-cases (r.status == 200)) [
            | inl f ↦
                let z : m.offset ≡ 0 = ground (arith, e, f) in
                let f' : r.status ≡ 200 = ground (arith, f) in
                subst (λ n. IsPrefix r.bytes (drop n c)) (sym z ∙ v.at) (h.whole f')
            | inr f ↦ h.range (ground (arith, f))
          ])))
  where
    w : IsAt c o k (note_size m r)
    w = note_size-IsAt c o k m r h v

    opened :
        (b : List ℕ) → IsPrefix b (drop o c) → IsAt c o k (record (note_size m r) { body = some b })
    opened b p = record { at = w.at; counted = w.counted; serves = p; sized = w.sized }

abbrev pub IsHonestRound : List ℕ → ℕ → Round → Type 0
IsHonestRound c o r = IsHonestAnswer c o r.response

pub ensure_body-IsAt :
    (c : List ℕ) (o k : ℕ) (m : MediaSource) (r : Option Response)
    → IsHonestAnswer c o r
    → IsAt c o k m
    → IsAt c o k (ensure_body m r).0
unfolding ensure_body
ensure_body-IsAt c o k m r h v =
    Option_split {A = MediaSource × Bool} (λ x. IsAt c o k x.0) m.body
      (λ _. open_body-IsAt c o k m r h v) (λ _ _. v)
