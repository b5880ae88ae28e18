-- ===== src/Source/Media/Rounds.antt =====
-- What a whole `Read` answers, over all its reconnects.
use mathlib.Core.Path.{subst}
use streamly.Prelude.{
  ℕ, ◌+◌, ◌≤◌, ◌<◌, ◌≡◌, ◌⊎◌, ◌∙◌, inl, inr, refl, sym, ap, not, Option, none, some, List, [], ◌∷◌,
  length, drop, length-take, drop-drop, All, if_split, Option_split, ℕ_split, arith, ltb, min,
}
use streamly.Source.Media.{
  MediaSource, ReadError, eof, unexpected_eof, cancelled, failed, Round, close_body, refresh_url,
  ensure_body, body_bytes, received, ReadResult, got, stopped, waiting, Next, returns, retries,
  repeats, after_break, after_end, after_error, after_bytes, after_nothing, turn, read,
}
use streamly.Source.Media.Honest.{
  IsPrefix, IsPrefix-take, IsPrefix-drop, Serves, IsSize, IsHonestRound, IsAt, ensure_body-IsAt,
}

-- What `Read` may answer of the file `c` from offset o, into room bytes, and the source after it:
-- bytes of the file from o on, at least one; the end, where the known size is reached; or an error.
abbrev pub Delivers : List ℕ → ℕ → ℕ → ℕ → ReadResult → MediaSource → Type 0
Delivers c o k room (got bytes) m =
    (0 < length bytes)
    × (length bytes ≤ room)
    × IsPrefix bytes (drop o c)
    × IsAt c (o + length bytes) (k + length bytes) m
Delivers c o k room (stopped eof) m = IsAt c o k m × ((m.size ≡ none) ⊎ (length c ≤ o))
Delivers c o k room (stopped e) m = IsAt c o k m
Delivers c o k room waiting m = IsAt c o k m

abbrev pub IsRetryable : ReadError → Type 0
IsRetryable eof = ⊥
IsRetryable e = Unit

abbrev pub TurnDelivers : List ℕ → ℕ → ℕ → ℕ → Next → Type 0
TurnDelivers c o k room (returns a m) = Delivers c o k room a m
TurnDelivers c o k room (retries e m) = IsRetryable e × IsAt c o k m
TurnDelivers c o k room (repeats m) = IsAt c o k m

IsAt-closed : (c : List ℕ) (o k : ℕ) (m : MediaSource) → IsAt c o k m → IsAt c o k (close_body m)
IsAt-closed c o k m v = record {
  at = v.at;
  counted = v.counted;
  serves = record {};
  sized = v.sized;
}

IsAt-refreshed :
    (c : List ℕ) (o k : ℕ) (m : MediaSource) (r : Round)
    → IsAt c o k m
    → IsAt c o k (refresh_url m r)
IsAt-refreshed c o k m r v = record {
  at = v.at;
  counted = v.counted;
  serves = v.serves;
  sized = v.sized;
}

stopped-Delivers :
    (c : List ℕ) (o k room : ℕ) (m : MediaSource) (e : ReadError)
    → IsRetryable e
    → IsAt c o k m
    → Delivers c o k room (stopped e) m
stopped-Delivers c o k room m eof h v = absurd h
stopped-Delivers c o k room m unexpected_eof h v = v
stopped-Delivers c o k room m cancelled h v = v
stopped-Delivers c o k room m (failed n) h v = v

after_break-TurnDelivers :
    (c : List ℕ) (o k room : ℕ) (m : MediaSource) (r : Round) (e : ReadError)
    → IsRetryable e
    → IsAt c o k m
    → TurnDelivers c o k room (after_break m r e)
after_break-TurnDelivers c o k room m r e h v =
    if_split (TurnDelivers c o k room) r.done_read (λ _. IsAt-closed c o k m v)
      (λ _. (h, IsAt-closed c o k m v))

after_end-TurnDelivers :
    (c : List ℕ) (o k room : ℕ) (m : MediaSource)
    → IsAt c o k m
    → TurnDelivers c o k room (after_end m)
unfolding after_end
after_end-TurnDelivers c o k room m v =
    Option_split (TurnDelivers c o k room) m.size (λ e. (v, inl e))
      (λ n e.
        let size : n ≡ length c = subst (IsSize c) e v.sized in
        if_split (TurnDelivers c o k room) (ltb m.offset n)
          (λ _. (record {}, IsAt-closed c o k m v))
          (λ f.
            let over : n ≤ m.offset = ground (arith, f) in
            let at : m.offset ≡ o = v.at in (v, inr (omega arith))))

after_error-TurnDelivers :
    (c : List ℕ) (o k room : ℕ) (m : MediaSource) (r : Round) (e : ReadError)
    → IsAt c o k m
    → TurnDelivers c o k room (after_error m r e)
after_error-TurnDelivers c o k room m r eof v = after_end-TurnDelivers c o k room m v
after_error-TurnDelivers c o k room m r unexpected_eof v =
    after_break-TurnDelivers c o k room m r unexpected_eof (record {}) v
after_error-TurnDelivers c o k room m r cancelled v =
    after_break-TurnDelivers c o k room m r cancelled (record {}) v
after_error-TurnDelivers c o k room m r (failed n) v =
    after_break-TurnDelivers c o k room m r (failed n) (record {}) v

after_nothing-TurnDelivers :
    (c : List ℕ) (o k room : ℕ) (m : MediaSource) (r : Round)
    → IsAt c o k m
    → TurnDelivers c o k room (after_nothing m r)
unfolding after_nothing
after_nothing-TurnDelivers c o k room m r v =
    Option_split (TurnDelivers c o k room) r.read_err (λ _. v)
      (λ e _. after_error-TurnDelivers c o k room m r e v)

-- What an open body still holds, none as the empty list, starts the rest of the file.
Serves-body_bytes :
    (c : List ℕ) (o : ℕ) (b : Option (List ℕ))
    → Serves c o b
    → IsPrefix (elim b as (λ _. List ℕ) [ none ↦ [] | some l ↦ l ]) (drop o c)
Serves-body_bytes c o none h = (drop o c, refl)
Serves-body_bytes c o (some l) h = h

after_bytes-TurnDelivers :
    (c : List ℕ) (o k room : ℕ) (m : MediaSource) (r : Round) (g : List ℕ)
    → received m r room ≡ g
    → IsAt c o k m
    → TurnDelivers c o k room (after_bytes m r g)
after_bytes-TurnDelivers c o k room m r [] e v = after_nothing-TurnDelivers c o k room m r v
after_bytes-TurnDelivers c o k room m r (b ∷ bs) e v =
    let g : List ℕ = b ∷ bs in
    let within : IsPrefix (body_bytes m) (drop o c) = Serves-body_bytes c o m.body v.serves in
    let n : ℕ = min r.count room in
    let taken : length g ≡ min n (length (body_bytes m)) =
      sym (ap length e) ∙ length-take n (body_bytes m) in
    (
      omega arith,
      omega (arith, taken),
      subst (λ l. IsPrefix l (drop o c)) e (IsPrefix-take n (body_bytes m) (drop o c) within),
      record {
        at = ap (λ a. a + length g) v.at;
        counted = ap (λ a. a + length g) v.counted;
        serves =
            subst (IsPrefix (drop (length g) (body_bytes m))) (drop-drop o (length g) c)
              (IsPrefix-drop (length g) (body_bytes m) (drop o c) (omega (arith, taken)) within);
        sized = v.sized;
      },
    )

turn-TurnDelivers :
    (c : List ℕ) (o k room : ℕ) (m : MediaSource) (r : Round)
    → IsHonestRound c o r
    → IsAt c o k m
    → TurnDelivers c o k room (turn room m r)
unfolding turn
turn-TurnDelivers c o k room m r h v =
    let w : IsAt c o k (ensure_body m r.response).0 = ensure_body-IsAt c o k m r.response h v in
    let m' : MediaSource = (ensure_body m r.response).0 in
    if_split (TurnDelivers c o k room) r.done_first (λ _. v)
      (λ _.
        if_split (TurnDelivers c o k room) (not (ensure_body m r.response).1)
          (λ _. if_split (TurnDelivers c o k room) r.done_open (λ _. w) (λ _. (record {}, w)))
          (λ _. after_bytes-TurnDelivers c o k room m' r (received m' r room) refl w))

pub Next_split :
    {A : Type 0} (P : A → Type 0) (n : Next) {f : ReadResult → MediaSource → A}
    {g : ReadError → MediaSource → A} {h : MediaSource → A}
    → ((a : ReadResult) (m : MediaSource) → n ≡ returns a m → P (f a m))
    → ((e : ReadError) (m : MediaSource) → n ≡ retries e m → P (g e m))
    → ((m : MediaSource) → n ≡ repeats m → P (h m))
    → P (elim n as (λ _. A) [ returns a m ↦ f a m | retries e m ↦ g e m | repeats m ↦ h m ])
Next_split P (returns a m) p q s = p a m refl
Next_split P (retries e m) p q s = q e m refl
Next_split P (repeats m) p q s = s m refl

-- Where every response serves the file from the asked offset on (or whole with status 200),
-- whatever Read answers over its reconnects and retries is: the next bytes of the file, at least
-- one; the end, only where the size is unknown or reached; or an error that leaves the offset where
-- it was.
pub read-Delivers :
    (c : List ℕ) (o k room left : ℕ) (m : MediaSource) (rounds : List Round)
    → All (IsHonestRound c o) rounds
    → IsAt c o k m
    → Delivers c o k room (read room left m rounds).0 (read room left m rounds).1
unfolding read
read-Delivers c o k room left m [] h v = v
read-Delivers c o k room left m (r ∷ rounds) (h, hs) v =
    let P : ReadResult × MediaSource → Type 0 = λ x. Delivers c o k room x.0 x.1 in
    let w : TurnDelivers c o k room (turn room m r) = turn-TurnDelivers c o k room m r h v in
    Next_split P (turn room m r) (λ a m' e. subst (TurnDelivers c o k room) e w)
      (λ e m' f.
        let x : TurnDelivers c o k room (retries e m') = subst (TurnDelivers c o k room) f w in
        ℕ_split P left (λ _. stopped-Delivers c o k room m' e x.0 x.1)
          (λ l _.
            read-Delivers c o k room l (refresh_url m' r) rounds hs
              (IsAt-refreshed c o k m' r x.1)))
      (λ m' e. read-Delivers c o k room left m' rounds hs (subst (TurnDelivers c o k room) e w))
