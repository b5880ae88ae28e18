-- ===== src/Bot/AutoNext/Stopped.antt =====
-- A prompt that is stopped or cancelled is not played, whatever its goroutines were doing.
use mathlib.Core.Path.{subst}
use mathlib.Core.Option.{none-ne-some}
use streamly.Prelude.{
  ℕ, zero, suc, ◌+◌, ◌^◌, ◌≤◌, ◌<◌, ◌≡◌, sym, ap, ◌∙◌, Option, none, some, List, [], ◌∷◌,
  Option_split, All, All-append, arith, length,
}
use streamly.Prelude.Text.{Text, codes, eq_text}
use streamly.Bot.AutoNext.World.{
  Goroutine, trying, Answers, Turn, turn, spawned, World, Event, near_end, moves, presses, cancels,
  offer, back, joined, turn_at, step, run, fresh_world,
}
use streamly.Bot.AutoNext.Own.{
  Owns, IsOwned, Shrinks, stop-Shrinks, clear-Shrinks, cancel-Shrinks, clear-none,
}
use streamly.Bot.AutoNext.Reach.{
  IsWellFormed, run-IsWellFormed, run-auto_next_gen, step-auto_next_gen, fresh-IsWellFormed,
  back-All,
}
use streamly.Bot.AutoNext.Silent.{
  IsWaiting, IsQuiet, IsGone, IsStill, still, shrunk, turn-IsStill, delete-IsQuiet,
}
use streamly.Bot.AutoNext.{
  AutoNextContext, NextEpisode, AutoNextState, Bot, Effect, acknowledges, Button, press_play,
  press_stop, press_other, button, press, handle_auto_next_button, auto_next_guild_state,
  clear_auto_next_state, cancel_context, near_end_passes, delete_auto_next_message,
}

abbrev Pressed : Type 0
Pressed = Bot × Option AutoNextState × List Effect

press-IsStill :
    (p : AutoNextState) (b : Bot) (guild : Text) (action : Button)
    → IsGone p b
    → IsStill p b.auto_next_gen (spawned trying (press b guild action))
unfolding press auto_next_guild_state
press-IsStill p b guild press_play gone =
    Option_split {A = Pressed} (λ r. IsStill p b.auto_next_gen (spawned trying r))
      (b.auto_next guild)
      (λ _. still p b [] (acknowledges ∷ []) gone (record {}) (record {}, record {}))
      (λ s e.
        shrunk p b (cancel_context b s.cancel) (trying s ∷ [])
          (acknowledges ∷ delete_auto_next_message s) (cancel-Shrinks b s.cancel) gone
          (record {}, record {}) (record {}, delete-IsQuiet p s))
press-IsStill p b guild press_stop gone =
    Option_split {A = Pressed} (λ r. IsStill p b.auto_next_gen (spawned trying r))
      (b.auto_next guild)
      (λ _. still p b [] (acknowledges ∷ []) gone (record {}) (record {}, record {}))
      (λ s e.
        shrunk p b (clear_auto_next_state (cancel_context b s.cancel) guild) []
          (acknowledges ∷ delete_auto_next_message s) (stop-Shrinks b s guild) gone (record {})
          (record {}, delete-IsQuiet p s))
press-IsStill p b guild press_other gone =
    Option_split {A = Pressed} (λ r. IsStill p b.auto_next_gen (spawned trying r))
      (b.auto_next guild)
      (λ _. still p b [] (acknowledges ∷ []) gone (record {}) (record {}, record {}))
      (λ s e. still p b [] [] gone (record {}) (record {}))

button-IsStill :
    (p : AutoNextState) (b : Bot) (parts : List Text)
    → IsGone p b
    → IsStill p b.auto_next_gen (spawned trying (handle_auto_next_button b parts))
unfolding handle_auto_next_button
button-IsStill p b (kind ∷ (action ∷ (guild ∷ rest))) gone =
    press-IsStill p b guild (button action) gone
button-IsStill p b (kind ∷ (action ∷ [])) gone = still p b [] [] gone (record {}) (record {})
button-IsStill p b (kind ∷ []) gone = still p b [] [] gone (record {}) (record {})
button-IsStill p b [] gone = still p b [] [] gone (record {}) (record {})

-- The prompt is not pending and none of its goroutines is past the last test.
abbrev IsSilent : AutoNextState → World → Type 0
IsSilent p w = IsGone p w.bot × All (IsWaiting p) w.goroutines

abbrev IsSilentStep : AutoNextState → ℕ → World × List Effect → Type 0
IsSilentStep p n (w, es) = IsSilent p w × (All (IsQuiet p) es × (w.bot.auto_next_gen ≤ n + 1))

joined-silent :
    (p : AutoNextState) (n : ℕ) (l : List Goroutine) (t : Turn)
    → IsStill p n t
    → All (IsWaiting p) l
    → IsSilentStep p n (joined l t)
joined-silent p n l (b, gs, es) (gone, (new, (quiet, le))) h =
    ((gone, All-append (IsWaiting p) gs l new h), (quiet, le))

turn_at-silent :
    (p : AutoNextState) (a : Answers) (b : Bot) (r l : List Goroutine) (i : ℕ)
    → b.auto_next_gen + 1 < 2 ^ 64
    → IsGone p b
    → All (IsWaiting p) r
    → All (IsWaiting p) l
    → IsSilentStep p b.auto_next_gen (turn_at a b r l i)
unfolding turn_at
turn_at-silent p a b r [] i fits gone h k =
    ((gone, back-All (IsWaiting p) r [] h (record {})), (record {}, omega arith))
turn_at-silent p a b r (g ∷ l) zero fits gone h k =
    joined-silent p b.auto_next_gen (back r l) (turn a b g) (turn-IsStill p a b g fits gone k.0)
      (back-All (IsWaiting p) r l h k.1)
turn_at-silent p a b r (g ∷ l) (suc i) fits gone h k =
    turn_at-silent p a b (g ∷ r) l i fits gone (k.0, h) k.1

offer-IsWaiting :
    (p : AutoNextState) (guild : Text) (o : Option (AutoNextContext × NextEpisode))
    → All (IsWaiting p) (offer guild o)
offer-IsWaiting p guild none = record {}
offer-IsWaiting p guild (some (auto, next)) = (record {}, record {})

step-silent :
    (p : AutoNextState) (w : World) (e : Event)
    → w.bot.auto_next_gen + 1 < 2 ^ 64
    → IsSilent p w
    → IsSilentStep p w.bot.auto_next_gen (step w e)
unfolding step
step-silent p w (near_end guild auto active resolved) fits (gone, h) =
    let o : Option (AutoNextContext × NextEpisode) =
      near_end_passes w.bot guild auto active resolved in
    joined-silent p w.bot.auto_next_gen w.goroutines (w.bot, offer guild o, [])
      (still p w.bot (offer guild o) [] gone (offer-IsWaiting p guild o) (record {})) h
step-silent p w (moves i a) fits (gone, h) =
    turn_at-silent p a w.bot [] w.goroutines i fits gone (record {}) h
step-silent p w (presses parts) fits (gone, h) =
    joined-silent p w.bot.auto_next_gen w.goroutines
      (spawned trying (handle_auto_next_button w.bot parts)) (button-IsStill p w.bot parts gone) h
step-silent p w (cancels guild) fits (gone, h) =
    let b' : Bot = clear_auto_next_state w.bot guild in
    joined-silent p w.bot.auto_next_gen w.goroutines (b', [], [])
      (shrunk p w.bot b' [] [] (clear-Shrinks w.bot guild) gone (record {}) (record {})) h

run-silent :
    (p : AutoNextState) (w : World) (es : List Event)
    → w.bot.auto_next_gen + length es < 2 ^ 64
    → IsSilent p w
    → All (IsQuiet p) (run w es).1
unfolding run
run-silent p w [] fits h = record {}
run-silent p w (e ∷ es) fits h =
    let one : IsSilentStep p w.bot.auto_next_gen (step w e) =
      step-silent p w e (omega (arith, fits)) h in
    All-append (IsQuiet p) (step w e).1 (run (step w e).0 es).1 one.1.0
      (run-silent p (step w e).0 es (omega (arith, fits, one.1.1)) one.0)

-- The button "Stop" of the guild's prompt, or a command that cancels it.
abbrev pub IsStop : Text → Event → Type 0
IsStop guild (presses parts) = parts ≡ codes "autonext" ∷ (codes "stop" ∷ (guild ∷ []))
IsStop guild (cancels g) = g ≡ guild
IsStop guild _ = ⊥

clear-IsGone :
    (b b' : Bot) (s : AutoNextState) (guild : Text)
    → Shrinks b b'
    → b'.auto_next guild ≡ none
    → IsOwned b
    → b.auto_next guild ≡ some s
    → IsGone s b'
clear-IsGone b b' s guild (same, sub) n owned e =
    let own : (s.guild_id ≡ guild) × Owns b s = owned guild s e in
    (
      omega (arith, same, own.1.0),
      (λ guild' c h g.
          let c_is : c ≡ s = own.1.1 guild' c (sub guild' c h) g in
          let here : guild' ≡ guild =
            sym (owned guild' c (sub guild' c h)).0
            ∙ (ap (λ (q : AutoNextState). q.guild_id) c_is ∙ own.0) in
          none-ne-some c (sym n ∙ (ap b'.auto_next (sym here) ∙ h))),
    )

stopped-IsSilent :
    (b : Bot) (l : List Goroutine) (s : AutoNextState) (guild : Text)
    → IsOwned b
    → b.auto_next guild ≡ some s
    → All (IsWaiting s) l
    → IsSilent s (joined l (spawned trying (press b guild press_stop))).0
unfolding press auto_next_guild_state
stopped-IsSilent b l s guild owned pending waiting =
    let b' : Bot = clear_auto_next_state (cancel_context b s.cancel) guild in
    rw (pending, press)
      (
        clear-IsGone b b' s guild (stop-Shrinks b s guild)
            (clear-none (cancel_context b s.cancel) guild) owned pending,
        waiting,
      )

stop-IsSilent :
    (w : World) (e : Event) (s : AutoNextState) (guild : Text)
    → IsWellFormed w
    → w.bot.auto_next guild ≡ some s
    → All (IsWaiting s) w.goroutines
    → IsStop guild e
    → IsSilent s (step w e).0
unfolding step handle_auto_next_button eq_text
stop-IsSilent w (near_end g auto active resolved) s guild owned pending waiting stops = absurd stops
stop-IsSilent w (moves i a) s guild owned pending waiting stops = absurd stops
stop-IsSilent w (cancels g) s guild owned pending waiting stops = (
  clear-IsGone w.bot (clear_auto_next_state w.bot g) s guild (clear-Shrinks w.bot g)
      (ap (λ h. (clear_auto_next_state w.bot h).auto_next guild) stops ∙ clear-none w.bot guild)
      owned.0 pending,
  waiting,
)
stop-IsSilent w (presses parts) s guild owned pending waiting stops =
    subst (λ q. IsSilent s (step w (presses q)).0) (sym stops)
      (stopped-IsSilent w.bot w.goroutines s guild owned.0 pending waiting)

-- Over fewer than 2 ^ 64 events in any order: once a prompt that is pending is stopped, by its
-- button or by a command, while none of its goroutines is past the last test, no event that follows
-- starts its episode.
pub stop-IsQuiet :
    (before after : List Event) (stops : Event) (guild : Text) (s : AutoNextState)
    → length before + 1 + length after < 2 ^ 64
    → (run fresh_world before).0.bot.auto_next guild ≡ some s
    → All (IsWaiting s) (run fresh_world before).0.goroutines
    → IsStop guild stops
    → All (IsQuiet s) (run (step (run fresh_world before).0 stops).0 after).1
stop-IsQuiet before after stops guild s fits pending waiting is_stop =
    let w : World = (run fresh_world before).0 in
    let short : 0 + length before < 2 ^ 64 = omega (arith, fits) in
    let h : IsWellFormed w = run-IsWellFormed fresh_world before short fresh-IsWellFormed in
    let le : w.bot.auto_next_gen ≤ 0 + length before =
      run-auto_next_gen fresh_world before short fresh-IsWellFormed in
    run-silent s (step w stops).0 after
      (omega (arith, fits, le, step-auto_next_gen w stops (omega (arith, fits, le)) h))
      (stop-IsSilent w stops s guild h pending waiting is_stop)
