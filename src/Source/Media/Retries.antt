-- ===== src/Source/Media/Retries.antt =====
-- How many turns the loop of `Read` takes.
use mathlib.Core.Path.{subst}
use streamly.Prelude.{
  ℕ, ◌<◌, ◌≡◌, ◌≢◌, refl, none, List, [], ◌∷◌, length, if_split, Option_split, ℕ_split, arith, not,
  ltb,
}
use streamly.Source.Media.{
  MediaSource, ReadError, eof, unexpected_eof, cancelled, failed, Round, refresh_url, ensure_body,
  received, ReadResult, waiting, Next, returns, retries, repeats, after_end, after_error,
  after_bytes, after_nothing, turn, read,
}
use streamly.Source.Media.Rounds.{Next_split}

-- As an `io.Reader` should, the body gives an error where it gives no bytes.
abbrev pub Progresses : ℕ → MediaSource → Round → Type 0
Progresses room m r = received (ensure_body m r.response).0 r room ≡ [] → r.read_err ≢ none

-- So it does in each round of a call of `Read`.
abbrev pub AllProgress : ℕ → MediaSource → List Round → Type 0
AllProgress room m [] = Unit
AllProgress room m (r ∷ rounds) =
    Progresses room m r
    × ((e : ReadError) (m' : MediaSource)
        → turn room m r ≡ retries e m'
        → AllProgress room (refresh_url m' r) rounds)

abbrev pub IsAnswer : ReadResult → Type 0
IsAnswer waiting = ⊥
IsAnswer a = Unit

abbrev pub Moves : Next → Type 0
Moves (returns a m) = IsAnswer a
Moves (retries e m) = Unit
Moves (repeats m) = ⊥

after_error-Moves : (m : MediaSource) (r : Round) (e : ReadError) → Moves (after_error m r e)
unfolding after_end
after_error-Moves m r eof =
    Option_split Moves m.size (λ _. record {})
      (λ n _. if_split Moves (ltb m.offset n) (λ _. record {}) (λ _. record {}))
after_error-Moves m r unexpected_eof = if_split Moves r.done_read (λ _. record {}) (λ _. record {})
after_error-Moves m r cancelled = if_split Moves r.done_read (λ _. record {}) (λ _. record {})
after_error-Moves m r (failed k) = if_split Moves r.done_read (λ _. record {}) (λ _. record {})

after_bytes-Moves :
    (m : MediaSource) (r : Round) (g : List ℕ)
    → (g ≡ [] → r.read_err ≢ none)
    → Moves (after_bytes m r g)
unfolding after_nothing
after_bytes-Moves m r [] p =
    Option_split Moves r.read_err (λ e. absurd (p refl e)) (λ e _. after_error-Moves m r e)
after_bytes-Moves m r (b ∷ bs) p = record {}

turn-Moves : (room : ℕ) (m : MediaSource) (r : Round) → Progresses room m r → Moves (turn room m r)
unfolding turn
turn-Moves room m r p =
    let m' : MediaSource = (ensure_body m r.response).0 in
    if_split Moves r.done_first (λ _. record {})
      (λ _.
        if_split Moves (not (ensure_body m r.response).1)
          (λ _. if_split Moves r.done_open (λ _. record {}) (λ _. record {}))
          (λ _. after_bytes-Moves m' r (received m' r room) p))

-- If the body gives an error wherever it gives no bytes (with bytes it may give one or none), Read
-- answers within one round more than its retries.
pub read-IsAnswer :
    (room left : ℕ) (m : MediaSource) (rounds : List Round)
    → left < length rounds
    → AllProgress room m rounds
    → IsAnswer (read room left m rounds).0
unfolding read
read-IsAnswer room left m [] l p = absurd (omega arith)
read-IsAnswer room left m (r ∷ rounds) l (p, ps) =
    let w : Moves (turn room m r) = turn-Moves room m r p in
    Next_split {A = ReadResult × MediaSource} (λ x. IsAnswer x.0) (turn room m r)
      (λ a m' e. subst Moves e w)
      (λ e m' h.
        ℕ_split {A = ReadResult × MediaSource} (λ x. IsAnswer x.0) left (λ _. record {})
          (λ k f. read-IsAnswer room k (refresh_url m' r) rounds (omega arith) (ps e m' h)))
      (λ m' e. absurd (subst Moves e w))
