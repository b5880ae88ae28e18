-- ===== src/Bot/AutoNext/World.antt =====
-- The goroutines of internal/bot/autonext.go between the bot's other commands: one step runs one of
-- them to its next use of what they share.
use streamly.Prelude.{
  ℕ, zero, suc, Bool, false, Option, none, some, List, [], ◌∷◌, ◌++◌, if◌then◌else◌,
}
use streamly.Prelude.Text.{Text}
use streamly.Bot.AutoNext.Start.{Outside, Started, started, failed, start_episode}
use streamly.Bot.AutoNext.{
  AutoNextContext, NextEpisode, AutoNextState, Bot, Failure, slot_busy, another_stream, Effect,
  is_auto_next_current, near_end_passes, prompt_auto_next, handle_auto_next_button, fail_auto_next,
  clear_auto_next_state, cancel_pending_auto_next, delete_auto_next_message,
}

-- Where a goroutine stands: before the prompt of `handleNearEnd`; at the countdown's `select`;
-- before the tests of `tryExecuteAutoNext`, with `waitForStreamSlot` between them; before those of
-- `executeAutoNextPlay` and of `startEpisodeFromAutoNext`; past them; before the clearing.
pub data Goroutine : Type 0 where
  offering : Text → AutoNextContext → NextEpisode → Goroutine
  counting trying waiting refused granted requiring starting launching played :
      AutoNextState → Goroutine
  failing : AutoNextState → Failure → Goroutine

-- What a step is answered: the timer has fired; the slot's deadline has passed; `RequireWorker`
-- gives no error; the message's ID; the interaction's channel.
pub record Answers : Type 0 where
  pub timer : Bool
  pub expired : Bool
  pub worker : Bool
  pub sent : Option Text
  pub channel : Text
  pub outside : Outside

abbrev pub Turn : Type 0
Turn = Bot × List Goroutine × List Effect

abbrev pub if_current : Bot → AutoNextState → Goroutine → Turn
if_current b s g = if is_auto_next_current b s then (b, g ∷ [], []) else (b, [], [])

abbrev pub spawn : (AutoNextState → Goroutine) → Option AutoNextState → List Goroutine
spawn f none = []
spawn f (some s) = f s ∷ []

abbrev pub launched : Bot → AutoNextState → Started → Turn
launched b s (started es) = (b, played s ∷ [], es)
launched b s (failed es why) = (b, failing s why ∷ [], es)

abbrev pub spawned : (AutoNextState → Goroutine) → Bot × Option AutoNextState × List Effect → Turn
spawned f (b, s, es) = (b, spawn f s, es)

unfoldable pub turn : Answers → Bot → Goroutine → Turn
unfolding prompt_auto_next start_episode fail_auto_next clear_auto_next_state
    delete_auto_next_message is_auto_next_current
turn a b (offering guild auto next) =
    spawned counting (prompt_auto_next b guild a.channel auto next a.sent)
turn a b (counting s) =
    if a.timer
    then (b, trying s ∷ [], [])
    else if b.cancelled s.cancel
    then (b, [], [])
    else (b, counting s ∷ [], [])
turn a b (trying s) = if_current b s (waiting s)
turn a b (waiting s) =
    if a.expired
    then (b, refused s ∷ [], [])
    else if a.worker
    then (b, granted s ∷ [], [])
    else (b, waiting s ∷ [], [])
turn a b (refused s) = if_current b s (failing s slot_busy)
turn a b (granted s) = if_current b s (requiring s)
turn a b (requiring s) =
    if is_auto_next_current b s
    then if a.worker then (b, starting s ∷ [], []) else (b, failing s another_stream ∷ [], [])
    else (b, [], [])
turn a b (starting s) = if_current b s (launching s)
turn a b (launching s) = launched b s (start_episode a.outside s)
turn a b (played s) = (clear_auto_next_state b s.guild_id, [], delete_auto_next_message s)
turn a b (failing s why) = let r : Bot × List Effect = fail_auto_next b s why in (r.0, [], r.1)

pub record World : Type 0 where
  pub bot : Bot
  pub goroutines : List Goroutine

-- What happens next: the near end of a guild's stream; a step of a goroutine; a button; a command
-- that cancels what is pending.
pub data Event : Type 0 where
  near_end : Text → Option AutoNextContext → Bool → Option NextEpisode → Event
  moves : ℕ → Answers → Event
  presses : List Text → Event
  cancels : Text → Event

abbrev pub offer : Text → Option (AutoNextContext × NextEpisode) → List Goroutine
offer guild none = []
offer guild (some (auto, next)) = offering guild auto next ∷ []

-- A goroutine in front of others, those before it the last first.
abbrev pub back : List Goroutine → List Goroutine → List Goroutine
back [] l = l
back (g ∷ r) l = back r (g ∷ l)

abbrev pub joined : List Goroutine → Turn → World × List Effect
joined l (b, new, es) = (record { bot = b; goroutines = new ++ l }, es)

-- The goroutine at a place, if there is one, and the others.
unfoldable pub turn_at : Answers → Bot → List Goroutine → List Goroutine → ℕ → World × List Effect
unfolding turn
turn_at a b r [] i = (record { bot = b; goroutines = back r [] }, [])
turn_at a b r (g ∷ l) zero = joined (back r l) (turn a b g)
turn_at a b r (g ∷ l) (suc i) = turn_at a b (g ∷ r) l i

unfoldable pub step : World → Event → World × List Effect
unfolding near_end_passes handle_auto_next_button turn_at
step w (near_end guild auto active resolved) =
    joined w.goroutines (w.bot, offer guild (near_end_passes w.bot guild auto active resolved), [])
step w (moves i a) = turn_at a w.bot [] w.goroutines i
step w (presses parts) = joined w.goroutines (spawned trying (handle_auto_next_button w.bot parts))
step w (cancels guild) = (record w { bot = cancel_pending_auto_next w.bot guild }, [])

unfoldable pub run : World → List Event → World × List Effect
unfolding step
run w [] = (w, [])
run w (e ∷ es) = let one = step w e in let rest = run one.0 es in (rest.0, one.1 ++ rest.1)

abbrev pub fresh_bot : Bot
fresh_bot = record {
  auto_next = λ _. none;
  auto_next_gen = 0;
  contexts = 0;
  cancelled = λ _. false;
}

abbrev pub fresh_world : World
fresh_world = record { bot = fresh_bot; goroutines = [] }

-- The prompt that a goroutine works for.
abbrev pub prompt_of : Goroutine → Option AutoNextState
prompt_of (offering guild auto next) = none
prompt_of (counting s) = some s
prompt_of (trying s) = some s
prompt_of (waiting s) = some s
prompt_of (refused s) = some s
prompt_of (granted s) = some s
prompt_of (requiring s) = some s
prompt_of (starting s) = some s
prompt_of (launching s) = some s
prompt_of (played s) = some s
prompt_of (failing s why) = some s
