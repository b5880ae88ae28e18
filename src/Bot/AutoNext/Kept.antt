-- ===== src/Bot/AutoNext/Kept.antt =====
-- What one step of a goroutine, or a button, leaves of the owners of generations.
use streamly.Prelude.{
  ◌+◌, ◌^◌, ◌≤◌, ◌<◌, ◌≡◌, true, Option, none, some, List, [], ◌∷◌, if_split, Option_split, All,
  All-map, arith,
}
use streamly.Prelude.Text.{Text}
use streamly.Bot.AutoNext.Start.{Started, started, failed, start_episode}
use streamly.Bot.AutoNext.World.{
  Goroutine, offering, counting, trying, waiting, refused, granted, requiring, starting, launching,
  played, failing, Answers, Turn, turn, if_current, launched, spawned, prompt_of,
}
use streamly.Bot.AutoNext.Own.{
  Owns, IsOwned, Keeps, Shrinks, Shrinks-trans, Shrinks-Keeps, Shrinks-IsOwned, clear-Shrinks,
  cancel-Shrinks, set-Owns, set-IsOwned, set-Keeps, current-Owns, set-auto_next_gen,
}
use streamly.Bot.AutoNext.{
  AutoNextContext, NextEpisode, AutoNextState, Bot, slot_busy, another_stream, Effect, Button,
  press_play, press_stop, press_other, button, is_auto_next_current, prompt_auto_next, press,
  handle_auto_next_button, auto_next_guild_state, fail_auto_next, clear_auto_next_state,
  cancel_context, new_state, prompt_channel,
}

abbrev OwnsOf : Bot → Option AutoNextState → Type 0
OwnsOf b none = Unit
OwnsOf b (some s) = Owns b s

abbrev pub GOwns : Bot → Goroutine → Type 0
GOwns b g = OwnsOf b (prompt_of g)

OwnsOf-Keeps : (b b' : Bot) → Keeps b b' → (o : Option AutoNextState) → OwnsOf b o → OwnsOf b' o
OwnsOf-Keeps b b' k none h = h
OwnsOf-Keeps b b' k (some s) h = k s h

pub GOwns-Keeps : (b b' : Bot) → Keeps b b' → (g : Goroutine) → GOwns b g → GOwns b' g
GOwns-Keeps b b' k g = OwnsOf-Keeps b b' k (prompt_of g)

-- If the prompt passes for the pending one, it is that one.
abbrev CurrentOf : Bot → Option AutoNextState → Type 0
CurrentOf b none = Unit
CurrentOf b (some s) = is_auto_next_current b s ≡ true → b.auto_next s.guild_id ≡ some s

OwnsOf-CurrentOf : (b : Bot) (o : Option AutoNextState) → OwnsOf b o → CurrentOf b o
OwnsOf-CurrentOf b none h = h
OwnsOf-CurrentOf b (some s) h = current-Owns b s h

abbrev pub IsCurrent : Bot → Goroutine → Type 0
IsCurrent b g = CurrentOf b (prompt_of g)

pub GOwns-IsCurrent : (b : Bot) (g : Goroutine) → GOwns b g → IsCurrent b g
GOwns-IsCurrent b g = OwnsOf-CurrentOf b (prompt_of g)

abbrev Pressed : Type 0
Pressed = Bot × Option AutoNextState × List Effect

abbrev pub IsKept : Bot → Turn → Type 0
IsKept b (b', gs, es) =
    IsOwned b' × (Keeps b b' × (All (GOwns b') gs × (b'.auto_next_gen ≤ b.auto_next_gen + 1)))

pub same-IsKept :
    (b : Bot) (gs : List Goroutine) (es : List Effect)
    → IsOwned b
    → All (GOwns b) gs
    → IsKept b (b, gs, es)
same-IsKept b gs es owned h = (owned, ((λ _ k. k), (h, omega arith)))

pub shrunk-IsKept :
    (b b' : Bot) (gs : List Goroutine) (es : List Effect)
    → IsOwned b
    → Shrinks b b'
    → All (GOwns b) gs
    → IsKept b (b', gs, es)
shrunk-IsKept b b' gs es owned h all = (
  Shrinks-IsOwned b b' h owned,
  (
    Shrinks-Keeps b b' h,
    (All-map (GOwns-Keeps b b' (Shrinks-Keeps b b' h)) gs all, omega (arith, h.0)),
  ),
)

if_current-IsKept :
    (b : Bot) (s : AutoNextState) (g : Goroutine)
    → IsOwned b
    → GOwns b g
    → IsKept b (if_current b s g)
if_current-IsKept b s g owned h =
    if_split {A = Turn} (IsKept b) (is_auto_next_current b s)
      (λ _. same-IsKept b (g ∷ []) [] owned (h, record {}))
      (λ _. same-IsKept b [] [] owned (record {}))

prompt-IsKept :
    (b : Bot) (guild channel : Text) (auto : AutoNextContext) (next : NextEpisode)
    (sent : Option Text)
    → b.auto_next_gen + 1 < 2 ^ 64
    → IsOwned b
    → IsKept b (spawned counting (prompt_auto_next b guild channel auto next sent))
unfolding prompt_auto_next
prompt-IsKept b guild channel auto next none fits owned = same-IsKept b [] [] owned (record {})
prompt-IsKept b guild channel auto next (some message) fits owned =
    let s : AutoNextState = new_state b guild (prompt_channel auto channel) message auto next in
    (
      set-IsOwned b s fits owned,
      (
        set-Keeps b s fits,
        ((set-Owns b s fits owned, record {}), omega (arith, set-auto_next_gen b s fits)),
      ),
    )

launched-IsKept :
    (b : Bot) (s : AutoNextState) (r : Started) → IsOwned b → Owns b s → IsKept b (launched b s r)
launched-IsKept b s (started es) owned h = same-IsKept b (played s ∷ []) es owned (h, record {})
launched-IsKept b s (failed es why) owned h =
    same-IsKept b (failing s why ∷ []) es owned (h, record {})

pub turn-IsKept :
    (a : Answers) (b : Bot) (g : Goroutine)
    → b.auto_next_gen + 1 < 2 ^ 64
    → IsOwned b
    → GOwns b g
    → IsKept b (turn a b g)
unfolding turn fail_auto_next
turn-IsKept a b (offering guild auto next) fits owned h =
    prompt-IsKept b guild a.channel auto next a.sent fits owned
turn-IsKept a b (counting s) fits owned h =
    if_split {A = Turn} (IsKept b) a.timer
      (λ _. same-IsKept b (trying s ∷ []) [] owned (h, record {}))
      (λ _.
        if_split {A = Turn} (IsKept b) (b.cancelled s.cancel)
          (λ _. same-IsKept b [] [] owned (record {}))
          (λ _. same-IsKept b (counting s ∷ []) [] owned (h, record {})))
turn-IsKept a b (trying s) fits owned h = if_current-IsKept b s (waiting s) owned h
turn-IsKept a b (waiting s) fits owned h =
    if_split {A = Turn} (IsKept b) a.expired
      (λ _. same-IsKept b (refused s ∷ []) [] owned (h, record {}))
      (λ _.
        if_split {A = Turn} (IsKept b) a.worker
          (λ _. same-IsKept b (granted s ∷ []) [] owned (h, record {}))
          (λ _. same-IsKept b (waiting s ∷ []) [] owned (h, record {})))
turn-IsKept a b (refused s) fits owned h = if_current-IsKept b s (failing s slot_busy) owned h
turn-IsKept a b (granted s) fits owned h = if_current-IsKept b s (requiring s) owned h
turn-IsKept a b (requiring s) fits owned h =
    if_split {A = Turn} (IsKept b) (is_auto_next_current b s)
      (λ _.
        if_split {A = Turn} (IsKept b) a.worker
          (λ _. same-IsKept b (starting s ∷ []) [] owned (h, record {}))
          (λ _. same-IsKept b (failing s another_stream ∷ []) [] owned (h, record {})))
      (λ _. same-IsKept b [] [] owned (record {}))
turn-IsKept a b (starting s) fits owned h = if_current-IsKept b s (launching s) owned h
turn-IsKept a b (launching s) fits owned h = launched-IsKept b s (start_episode a.outside s) owned h
turn-IsKept a b (played s) fits owned h =
    shrunk-IsKept b (clear_auto_next_state b s.guild_id) [] [] owned (clear-Shrinks b s.guild_id)
      (record {})
turn-IsKept a b (failing s why) fits owned h =
    shrunk-IsKept b (clear_auto_next_state b s.guild_id) [] [] owned (clear-Shrinks b s.guild_id)
      (record {})

press-IsKept :
    (b : Bot) (guild : Text) (action : Button)
    → IsOwned b
    → IsKept b (spawned trying (press b guild action))
unfolding press auto_next_guild_state
press-IsKept b guild press_play owned =
    Option_split {A = Pressed} (λ r. IsKept b (spawned trying r)) (b.auto_next guild)
      (λ _. same-IsKept b [] [] owned (record {}))
      (λ s e.
        shrunk-IsKept b (cancel_context b s.cancel) (trying s ∷ []) [] owned
          (cancel-Shrinks b s.cancel) ((owned guild s e).1, record {}))
press-IsKept b guild press_stop owned =
    Option_split {A = Pressed} (λ r. IsKept b (spawned trying r)) (b.auto_next guild)
      (λ _. same-IsKept b [] [] owned (record {}))
      (λ s e.
        let b' : Bot = cancel_context b s.cancel in
        shrunk-IsKept b (clear_auto_next_state b' guild) [] [] owned
          (Shrinks-trans b b' (clear_auto_next_state b' guild) (cancel-Shrinks b s.cancel)
            (clear-Shrinks b' guild))
          (record {}))
press-IsKept b guild press_other owned =
    Option_split {A = Pressed} (λ r. IsKept b (spawned trying r)) (b.auto_next guild)
      (λ _. same-IsKept b [] [] owned (record {})) (λ s e. same-IsKept b [] [] owned (record {}))

pub button-IsKept :
    (b : Bot) (parts : List Text)
    → IsOwned b
    → IsKept b (spawned trying (handle_auto_next_button b parts))
unfolding handle_auto_next_button
button-IsKept b (kind ∷ (action ∷ (guild ∷ rest))) owned =
    press-IsKept b guild (button action) owned
button-IsKept b (kind ∷ (action ∷ [])) owned = same-IsKept b [] [] owned (record {})
button-IsKept b (kind ∷ []) owned = same-IsKept b [] [] owned (record {})
button-IsKept b [] owned = same-IsKept b [] [] owned (record {})
