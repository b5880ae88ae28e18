-- ===== src/Bot/AutoNext/Own.antt =====
-- Whose a generation is: no two prompts have the same one.
use mathlib.Core.Path.{subst}
use mathlib.Core.Option.{some-injective, none-ne-some}
use streamly.Prelude.{
  ℕ, ◌+◌, ◌^◌, ◌≤◌, ◌<◌, ◌≡◌, refl, sym, ap, ◌∙◌, Bool, true, Option, none, some, ◌⊎◌, inl, inr,
  if_split, Option_split, arith, ==_iff,
}
use streamly.Prelude.Text.{Text, eq_text, eq_text_iff, eq_text_refl}
use streamly.Bot.AutoNext.{
  AutoNextState, Bot, put, numbered, set_auto_next_state, clear_auto_next_state, cancel_context,
  cancel_existing, is_auto_next_current,
}

-- No later prompt, and no other one, has the generation.
abbrev pub Owns : Bot → AutoNextState → Type 0
Owns b s =
    (s.generation ≤ b.auto_next_gen)
    × ((guild : Text) (c : AutoNextState)
        → b.auto_next guild ≡ some c
        → c.generation ≡ s.generation
        → c ≡ s)

abbrev pub IsOwned : Bot → Type 0
IsOwned b =
    (guild : Text) (c : AutoNextState)
    → b.auto_next guild ≡ some c
    → (c.guild_id ≡ guild) × Owns b c

abbrev pub Keeps : Bot → Bot → Type 0
Keeps b b' = (s : AutoNextState) → Owns b s → Owns b' s

-- The prompt is pending exactly if it is the one that the map holds.
pub current-Owns :
    (b : Bot) (s : AutoNextState)
    → Owns b s
    → is_auto_next_current b s ≡ true
    → b.auto_next s.guild_id ≡ some s
unfolding is_auto_next_current
current-Owns b s (le, own) =
    Option_split {A = Bool} (λ t. t ≡ true → b.auto_next s.guild_id ≡ some s)
      (b.auto_next s.guild_id) (λ _ e. cc e)
      (λ c h e. h ∙ ap some (own s.guild_id c h ((==_iff c.generation s.generation).0 e)))

put-cases :
    (f : Text → Option AutoNextState) (guild guild' : Text) (o : Option AutoNextState)
    (c : AutoNextState)
    → put f guild o guild' ≡ some c
    → ((guild ≡ guild') × (o ≡ some c)) ⊎ (f guild' ≡ some c)
unfolding put
put-cases f guild guild' o c =
    if_split (λ x. x ≡ some c → ((guild ≡ guild') × (o ≡ some c)) ⊎ (f guild' ≡ some c))
      (eq_text guild guild') (λ e h. inl ((eq_text_iff guild guild').0 e, h)) (λ _ h. inr h)

-- What is pending in `b'` was pending in `b`, which has no later generation.
abbrev pub Shrinks : Bot → Bot → Type 0
Shrinks b b' =
    (b'.auto_next_gen ≡ b.auto_next_gen)
    × ((guild : Text) (c : AutoNextState)
        → b'.auto_next guild ≡ some c
        → b.auto_next guild ≡ some c)

pub Shrinks-Keeps : (b b' : Bot) → Shrinks b b' → Keeps b b'
Shrinks-Keeps b b' (le, sub) s (l, own) =
    (omega (arith, le, l), (λ guild c e. own guild c (sub guild c e)))

pub Shrinks-IsOwned : (b b' : Bot) → Shrinks b b' → IsOwned b → IsOwned b'
Shrinks-IsOwned b b' h owned guild c e =
    let old : (c.guild_id ≡ guild) × Owns b c = owned guild c (h.1 guild c e) in
    (old.0, Shrinks-Keeps b b' h c old.1)

cancel_existing-auto_next :
    (b : Bot) (guild : Text) → (cancel_existing b guild).auto_next_gen ≡ b.auto_next_gen
unfolding cancel_existing cancel_context
cancel_existing-auto_next b guild =
    Option_split {A = Bot} (λ x. x.auto_next_gen ≡ b.auto_next_gen) (b.auto_next guild) (λ _. refl)
      (λ _ _. refl)

pub clear-Shrinks : (b : Bot) (guild : Text) → Shrinks b (clear_auto_next_state b guild)
unfolding clear_auto_next_state
clear-Shrinks b guild = (
  cancel_existing-auto_next b guild,
  (λ guild' c e. elim (put-cases b.auto_next guild guild' none c e) [
    | inl (_, n) ↦ absurd (none-ne-some c n)
    | inr h ↦ h
  ]),
)

pub cancel-Shrinks : (b : Bot) (c : ℕ) → Shrinks b (cancel_context b c)
unfolding cancel_context
cancel-Shrinks b c = (refl, (λ _ _ e. e))

pub clear-none : (b : Bot) (guild : Text) → (clear_auto_next_state b guild).auto_next guild ≡ none
unfolding clear_auto_next_state put
clear-none b guild = rw (eq_text_refl guild) refl

pub numbered-generation :
    (b : Bot) (s : AutoNextState)
    → b.auto_next_gen + 1 < 2 ^ 64
    → (numbered b s).generation ≡ b.auto_next_gen + 1
unfolding numbered
numbered-generation b s fits = omega (arith, fits)

pub set-auto_next_gen :
    (b : Bot) (s : AutoNextState)
    → b.auto_next_gen + 1 < 2 ^ 64
    → (set_auto_next_state b s).auto_next_gen ≡ b.auto_next_gen + 1
unfolding set_auto_next_state
set-auto_next_gen b s fits = omega (arith, fits)

pub set-cases :
    (b : Bot) (s : AutoNextState) (guild : Text) (c : AutoNextState)
    → (set_auto_next_state b s).auto_next guild ≡ some c
    → ((s.guild_id ≡ guild) × (numbered b s ≡ c)) ⊎ (b.auto_next guild ≡ some c)
unfolding set_auto_next_state
set-cases b s guild c e = elim (put-cases b.auto_next s.guild_id guild (some (numbered b s)) c e) [
  | inl (g, h) ↦ inl (g, some-injective (numbered b s) c h)
  | inr h ↦ inr h
]

pub set-Keeps :
    (b : Bot) (s : AutoNextState) → b.auto_next_gen + 1 < 2 ^ 64 → Keeps b (set_auto_next_state b s)
set-Keeps b s fits p (le, own) = (
  omega (arith, set-auto_next_gen b s fits, le),
  (λ guild c e same. elim (set-cases b s guild c e) [
    | inl (_, h) ↦ absurd (
        omega (
          arith,
          ap (λ (q : AutoNextState). q.generation) h,
          numbered-generation b s fits,
          same,
          le,
        ))
    | inr h ↦ own guild c h same
  ]),
)

pub set-Owns :
    (b : Bot) (s : AutoNextState)
    → b.auto_next_gen + 1 < 2 ^ 64
    → IsOwned b
    → Owns (set_auto_next_state b s) (numbered b s)
set-Owns b s fits owned = (
  omega (arith, set-auto_next_gen b s fits, numbered-generation b s fits),
  (λ guild c e same. elim (set-cases b s guild c e) [
    | inl (_, h) ↦ sym h
    | inr h ↦ absurd (omega (arith, (owned guild c h).1.0, same, numbered-generation b s fits))
  ]),
)

numbered-guild_id : (b : Bot) (s : AutoNextState) → (numbered b s).guild_id ≡ s.guild_id
unfolding numbered
numbered-guild_id b s = refl

pub set-IsOwned :
    (b : Bot) (s : AutoNextState)
    → b.auto_next_gen + 1 < 2 ^ 64
    → IsOwned b
    → IsOwned (set_auto_next_state b s)
set-IsOwned b s fits owned guild c e = elim (set-cases b s guild c e) [
  | inl (g, h) ↦ (
    sym (ap (λ (q : AutoNextState). q.guild_id) h) ∙ (numbered-guild_id b s ∙ g),
    subst (Owns (set_auto_next_state b s)) h (set-Owns b s fits owned),
  )
  | inr h ↦
      let old : (c.guild_id ≡ guild) × Owns b c = owned guild c h in
      (old.0, set-Keeps b s fits c old.1)
]

pub Shrinks-trans : (a b c : Bot) → Shrinks a b → Shrinks b c → Shrinks a c
Shrinks-trans a b c (e, sub) (f, sub') = (f ∙ e, (λ guild p h. sub guild p (sub' guild p h)))

pub stop-Shrinks :
    (b : Bot) (s : AutoNextState) (guild : Text)
    → Shrinks b (clear_auto_next_state (cancel_context b s.cancel) guild)
stop-Shrinks b s guild =
    let b' : Bot = cancel_context b s.cancel in
    Shrinks-trans b b' (clear_auto_next_state b' guild) (cancel-Shrinks b s.cancel)
      (clear-Shrinks b' guild)
