-- ===== src/Pool/Progressive/Links.antt =====
-- How the segments of `playProgressive` follow one another.
use mathlib.Core.Path.{subst}
use streamly.Prelude.{
  ℕ, suc, ◌≡◌, ◌⊎◌, ◌∙◌, inl, inr, refl, sym, ap, true, false, none, some, List, [], ◌∷◌, All,
  Bool-cases, Option-cases,
}
use streamly.Prelude.Signed.{ℤ, pos}
use streamly.Prelude.Text.{Text}
use streamly.Pool.Session.{Request}
use streamly.Pool.Vod.{Outcome, playback_url_for_attempt}
use streamly.Pool.Progressive.{
  Segment, Play, Next, again, stops, has_quality, after_play, play_progressive,
}

-- After the segment g the next one has the same quality and starts at the target sought in g, or,
-- if none was, it has the next quality and starts at 0.
abbrev pub Follows : Request → Segment → Play → Play → Type 0
Follows r g p q =
    ((q.attempt ≡ p.attempt) × (g.sought ≡ some q.offset))
    ⊎ ((q.attempt ≡ suc p.attempt)
        × ((q.offset ≡ pos 0) × ((has_quality r q.attempt ≡ true) × (g.sought ≡ none))))

-- Each play is that of the segment at its place, and follows from the one before.
abbrev pub IsLinked : Request → List Segment → List Play → Type 0
IsLinked r gs [] = Unit
IsLinked r [] (p ∷ l) = ⊥
IsLinked r (g ∷ gs) (p ∷ []) = Unit
IsLinked r (g ∷ gs) (p ∷ (q ∷ l)) = Follows r g p q × IsLinked r gs (q ∷ l)

abbrev pub StartsAt : ℕ → ℤ → List Play → Type 0
StartsAt a o [] = Unit
StartsAt a o (p ∷ l) = (p.attempt ≡ a) × (p.offset ≡ o)

abbrev pub HasUrl : Request → Play → Type 0
HasUrl r p = playback_url_for_attempt r p.attempt ≡ some p.url

-- The turn that can follow attempt a.
abbrev CanFollow : Request → Segment → ℕ → Next → Type 0
CanFollow r g a (again b o) =
    ((b ≡ a) × (g.sought ≡ some o))
    ⊎ ((b ≡ suc a) × ((o ≡ pos 0) × ((has_quality r b ≡ true) × (g.sought ≡ none))))
CanFollow r g a (stops x) = Unit

after_play-CanFollow : (r : Request) (a : ℕ) (g : Segment) → CanFollow r g a (after_play r a g)
after_play-CanFollow r a g = elim (Bool-cases g.done_after) [
  | inl d ↦ rw d tt
  | inr d ↦ elim (Option-cases g.sought) [
    | inr (t, e) ↦ rw (d, e) (inl (refl, refl))
    | inl e ↦ elim (Option-cases g.play_err) [
      | inr (x, f) ↦ rw (d, e, f) tt
      | inl f ↦ elim (Option-cases g.trans_err) [
        | inl h ↦ rw (d, e, f, h) tt
        | inr (x, h) ↦ elim (Bool-cases (has_quality r (suc a))) [
          | inl q ↦ rw (d, e, f, h, q) (inr (refl, (refl, (q, refl))))
          | inr q ↦ rw (d, e, f, h, q) tt
        ]
      ]
    ]
  ]
]

abbrev IsTrace : Request → List Segment → ℕ → ℤ → List Play → Type 0
IsTrace r gs a o l = StartsAt a o l × (IsLinked r gs l × All (HasUrl r) l)

link :
    (r : Request) (g : Segment) (gs : List Segment) (p : Play) (b : ℕ) (o : ℤ) (l : List Play)
    → CanFollow r g p.attempt (again b o)
    → HasUrl r p
    → IsTrace r gs b o l
    → IsTrace r (g ∷ gs) p.attempt p.offset (p ∷ l)
link r g gs p b o [] f h t = ((refl, refl), (tt, (h, tt)))
link r g gs p b o (q ∷ l) (inl (e, s)) h ((ea, eo), (k, u)) =
    ((refl, refl), ((inl (ea ∙ e, s ∙ ap some (sym eo)), k), (h, u)))
link r g gs p b o (q ∷ l) (inr (e, (z, (w, s)))) h ((ea, eo), (k, u)) =
    ((refl, refl), ((inr (ea ∙ e, (eo ∙ z, (ap (has_quality r) ea ∙ w, s))), k), (h, u)))

first_play : ℕ → ℤ → Text → Play
first_play a o url = record { attempt = a; offset = o; url = url }

-- The plays that come of what follows.
abbrev rest_of : Request → List Segment → Next → List Play × Outcome
rest_of r rest (again b o) = play_progressive r b o rest
rest_of r rest (stops x) = ([], x)

turn-IsTrace :
    (r : Request) (a : ℕ) (o : ℤ) (url : Text) (g : Segment) (rest : List Segment) (n : Next)
    → CanFollow r g a n
    → playback_url_for_attempt r a ≡ some url
    → ((b : ℕ) (k : ℤ) → IsTrace r rest b k (play_progressive r b k rest).0)
    → IsTrace r (g ∷ rest) a o (first_play a o url ∷ (rest_of r rest n).0)
unfolding first_play
turn-IsTrace r a o url g rest (stops x) f h ih = ((refl, refl), (tt, (h, tt)))
turn-IsTrace r a o url g rest (again b k) f h ih =
    link r g rest (first_play a o url) b k (play_progressive r b k rest).0 f h (ih b k)

plays_eq :
    (r : Request) (a : ℕ) (o : ℤ) (url : Text) (g : Segment) (rest : List Segment)
    → g.done_before ≡ false
    → playback_url_for_attempt r a ≡ some url
    → g.create_err ≡ none
    → (play_progressive r a o (g ∷ rest)).0
      ≡ first_play a o url ∷ (rest_of r rest (after_play r a g)).0
unfolding play_progressive first_play
plays_eq r a o url g rest d e f = simp (d, e, f)

-- Every segment plays the URL of its attempt. The first one is that of the given attempt and
-- offset. Each later one stays at the attempt and starts at the target that was sought in the
-- segment before; or, where none was sought, it starts the next attempt, for which there is a
-- quality, from 0: an attempt is never skipped and never taken back.
pub play_progressive-IsTrace :
    (r : Request) (attempt : ℕ) (offset : ℤ) (segments : List Segment)
    → let plays = (play_progressive r attempt offset segments).0 in
      StartsAt attempt offset plays × (IsLinked r segments plays × All (HasUrl r) plays)
unfolding play_progressive
play_progressive-IsTrace r attempt offset [] = (tt, (tt, tt))
play_progressive-IsTrace r attempt offset (g ∷ rest) =
    let ih : (b : ℕ) (k : ℤ) → IsTrace r rest b k (play_progressive r b k rest).0 =
      λ b k. play_progressive-IsTrace r b k rest in
    elim (Bool-cases g.done_before) [
      | inl d ↦ rw d (tt, (tt, tt))
      | inr d ↦ elim (Option-cases (playback_url_for_attempt r attempt)) [
        | inl e ↦ rw (d, e) (tt, (tt, tt))
        | inr (url, e) ↦ elim (Option-cases g.create_err) [
          | inr (x, f) ↦ rw (d, e, f) (tt, (tt, tt))
          | inl f ↦
              subst (IsTrace r (g ∷ rest) attempt offset)
                (sym (plays_eq r attempt offset url g rest d e f))
                (turn-IsTrace r attempt offset url g rest (after_play r attempt g)
                  (after_play-CanFollow r attempt g) e ih)
        ]
      ]
    ]
