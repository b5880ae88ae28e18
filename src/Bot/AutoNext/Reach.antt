-- ===== src/Bot/AutoNext/Reach.antt =====
-- What holds in every world of the prompts that the bot can reach.
use mathlib.Core.Option.{none-ne-some}
use streamly.Prelude.{
  ℕ, zero, suc, ◌+◌, ◌^◌, ◌≤◌, ◌<◌, ◌≡◌, Option, none, some, List, [], ◌∷◌, All, All-map,
  All-append, arith, length,
}
use streamly.Prelude.Text.{Text}
use streamly.Bot.AutoNext.World.{
  Goroutine, trying, Answers, Turn, turn, spawned, World, Event, near_end, moves, presses, cancels,
  offer, back, joined, turn_at, step, run, fresh_world,
}
use streamly.Bot.AutoNext.Own.{IsOwned, clear-Shrinks}
use streamly.Bot.AutoNext.{
  AutoNextContext, NextEpisode, AutoNextState, Bot, handle_auto_next_button, clear_auto_next_state,
  near_end_passes,
}
use streamly.Bot.AutoNext.Kept.{
  GOwns, GOwns-Keeps, IsCurrent, GOwns-IsCurrent, IsKept, same-IsKept, shrunk-IsKept, turn-IsKept,
  button-IsKept,
}

-- Each pending prompt is under its own guild, and no prompt has another's generation.
abbrev pub IsWellFormed : World → Type 0
IsWellFormed w = IsOwned w.bot × All (GOwns w.bot) w.goroutines

-- A step of `n` prompts at most.
abbrev IsStep : ℕ → World → Type 0
IsStep n w = IsWellFormed w × (w.bot.auto_next_gen ≤ n + 1)

joined-IsStep :
    (b : Bot) (l : List Goroutine) (t : Turn)
    → IsKept b t
    → All (GOwns b) l
    → IsStep b.auto_next_gen (joined l t).0
joined-IsStep b l (b', gs, es) (owned, (keeps, (new, le))) h =
    ((owned, All-append (GOwns b') gs l new (All-map (GOwns-Keeps b b' keeps) l h)), le)

pub back-All :
    (P : Goroutine → Type 0) (r l : List Goroutine) → All P r → All P l → All P (back r l)
back-All P [] l h k = k
back-All P (g ∷ r) l h k = back-All P r (g ∷ l) h.1 (h.0, k)

turn_at-IsStep :
    (a : Answers) (b : Bot) (r l : List Goroutine) (i : ℕ)
    → b.auto_next_gen + 1 < 2 ^ 64
    → IsOwned b
    → All (GOwns b) r
    → All (GOwns b) l
    → IsStep b.auto_next_gen (turn_at a b r l i).0
unfolding turn_at
turn_at-IsStep a b r [] i fits owned h k =
    ((owned, back-All (GOwns b) r [] h (record {})), omega arith)
turn_at-IsStep a b r (g ∷ l) zero fits owned h k =
    joined-IsStep b (back r l) (turn a b g) (turn-IsKept a b g fits owned k.0)
      (back-All (GOwns b) r l h k.1)
turn_at-IsStep a b r (g ∷ l) (suc i) fits owned h k =
    turn_at-IsStep a b (g ∷ r) l i fits owned (k.0, h) k.1

offer-GOwns :
    (b : Bot) (guild : Text) (o : Option (AutoNextContext × NextEpisode))
    → All (GOwns b) (offer guild o)
offer-GOwns b guild none = record {}
offer-GOwns b guild (some (auto, next)) = (record {}, record {})

step-IsStep :
    (w : World) (e : Event)
    → w.bot.auto_next_gen + 1 < 2 ^ 64
    → IsWellFormed w
    → IsStep w.bot.auto_next_gen (step w e).0
unfolding step
step-IsStep w (near_end guild auto active resolved) fits (owned, h) =
    let o : Option (AutoNextContext × NextEpisode) =
      near_end_passes w.bot guild auto active resolved in
    joined-IsStep w.bot w.goroutines (w.bot, offer guild o, [])
      (same-IsKept w.bot (offer guild o) [] owned (offer-GOwns w.bot guild o)) h
step-IsStep w (moves i a) fits (owned, h) =
    turn_at-IsStep a w.bot [] w.goroutines i fits owned (record {}) h
step-IsStep w (presses parts) fits (owned, h) =
    joined-IsStep w.bot w.goroutines (spawned trying (handle_auto_next_button w.bot parts))
      (button-IsKept w.bot parts owned) h
step-IsStep w (cancels guild) fits (owned, h) =
    let b' : Bot = clear_auto_next_state w.bot guild in
    joined-IsStep w.bot w.goroutines (b', [], [])
      (shrunk-IsKept w.bot b' [] [] owned (clear-Shrinks w.bot guild) (record {})) h

pub step-IsWellFormed :
    (w : World) (e : Event)
    → w.bot.auto_next_gen + 1 < 2 ^ 64
    → IsWellFormed w
    → IsWellFormed (step w e).0
step-IsWellFormed w e fits h = (step-IsStep w e fits h).0

pub step-auto_next_gen :
    (w : World) (e : Event)
    → w.bot.auto_next_gen + 1 < 2 ^ 64
    → IsWellFormed w
    → (step w e).0.bot.auto_next_gen ≤ w.bot.auto_next_gen + 1
step-auto_next_gen w e fits h = (step-IsStep w e fits h).1

pub run-IsWellFormed :
    (w : World) (es : List Event)
    → w.bot.auto_next_gen + length es < 2 ^ 64
    → IsWellFormed w
    → IsWellFormed (run w es).0
unfolding run
run-IsWellFormed w [] fits h = h
run-IsWellFormed w (e ∷ es) fits h =
    let one : w.bot.auto_next_gen + 1 < 2 ^ 64 = omega (arith, fits) in
    run-IsWellFormed (step w e).0 es (omega (arith, fits, step-auto_next_gen w e one h))
      (step-IsWellFormed w e one h)

pub run-auto_next_gen :
    (w : World) (es : List Event)
    → w.bot.auto_next_gen + length es < 2 ^ 64
    → IsWellFormed w
    → (run w es).0.bot.auto_next_gen ≤ w.bot.auto_next_gen + length es
unfolding run
run-auto_next_gen w [] fits h = omega arith
run-auto_next_gen w (e ∷ es) fits h =
    let one : w.bot.auto_next_gen + 1 < 2 ^ 64 = omega (arith, fits) in
    let next : World = (step w e).0 in
    let le : next.bot.auto_next_gen ≤ w.bot.auto_next_gen + 1 = step-auto_next_gen w e one h in
    omega
      (arith, run-auto_next_gen next es (omega (arith, fits, le)) (step-IsWellFormed w e one h), le)

pub fresh-IsWellFormed : IsWellFormed fresh_world
fresh-IsWellFormed = ((λ guild c e. absurd (none-ne-some c e)), record {})

-- From a bot that has just started, over fewer than 2 ^ 64 events in any order: whichever guild's
-- prompt is pending, it is a prompt of that guild, and a goroutine whose prompt passes for the
-- pending one by its generation has that very prompt.
pub run-IsCurrent :
    (es : List Event)
    → length es < 2 ^ 64
    → let w = (run fresh_world es).0 in
      ((guild : Text) (c : AutoNextState) → w.bot.auto_next guild ≡ some c → c.guild_id ≡ guild)
      × All (IsCurrent w.bot) w.goroutines
run-IsCurrent es fits =
    let w : World = (run fresh_world es).0 in
    let h : IsWellFormed w =
      run-IsWellFormed fresh_world es (omega (arith, fits)) fresh-IsWellFormed in
    ((λ guild c e. (h.0 guild c e).0), All-map (GOwns-IsCurrent w.bot) w.goroutines h.1)
