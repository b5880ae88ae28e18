-- ===== src/Bot/Control.antt =====
-- The commands and buttons of internal/bot/stream.go that control a stream, acquireForPlayback, and
-- the positions that internal/bot/seek.go reads. What is answered to the user is left out.
use streamly.Prelude.{
  not, ◌||◌, Option, none, some, List, [], ◌∷◌, if◌then◌else◌, ◌==◌, ltb, length,
}
use streamly.Prelude.Text.{Text, codes, eq_text, trim_space}
use streamly.Prelude.Signed.{ℤ, pos, ◌+ℤ◌, ◌-ℤ◌, scale, wrap64, ltb_ℤ}
use streamly.Streamer.Key.{split}
use streamly.Captions.Subtitle.{is_int, value}
use streamly.Pool.Session.{Session, Effect, is_live}
use streamly.Pool.Control.{stop, pause, resume}
use streamly.Pool.Registry.{Pool, Acquired, Swapping, acquire, begin_swap, active_in_guild}
use streamly.Bot.AutoNext.{Bot, cancel_pending_auto_next}

-- The number that `strconv.Atoi` reads, none where it gives an error.
abbrev pub int_of : Text → ℤ
int_of [] = pos 0
int_of (c ∷ t) =
    if c == b'-'
    then pos 0 -ℤ pos (value 0 t)
    else if c == b'+'
    then pos (value 0 t)
    else pos (value 0 (c ∷ t))

abbrev pub read_int : Text → Option ℤ
read_int t = if is_int t then some (int_of t) else none

-- The loop of `parseClock`.
unfoldable pub add_parts : ℤ → List Text → Option ℤ
unfolding is_int
add_parts total [] = some total
add_parts total (p ∷ l) = elim (read_int (trim_space p)) as (λ _. Option ℤ) [
  | none ↦ none
  | some n ↦ if ltb_ℤ n (pos 0) then none else add_parts (wrap64 (wrap64 (scale total 60) +ℤ n)) l
]

unfoldable pub parse_clock : Text → Option ℤ
unfolding add_parts split
parse_clock text =
    let parts = split (trim_space text) in
    if length parts == 0 || ltb 3 (length parts)
    then none
    else elim (add_parts (pos 0) parts) as (λ _. Option ℤ) [
      | none ↦ none
      | some total ↦ some (wrap64 (scale total 1_000_000_000))
    ]

abbrev pub moved_by : (ℤ → ℤ) → Option ℤ → Option ℤ
moved_by f none = none
moved_by f (some n) = some (f n)

abbrev pub signed_target : Text → ℤ → Option ℤ
signed_target [] current = none
signed_target (c ∷ t) current =
    if c == b'+'
    then moved_by (λ n. wrap64 (current +ℤ n)) (parse_clock t)
    else if c == b'-'
    then moved_by (λ n. wrap64 (current +ℤ wrap64 (pos 0 -ℤ n))) (parse_clock t)
    else parse_clock (c ∷ t)

unfoldable pub parse_seek_target : Text → ℤ → Option ℤ
unfolding parse_clock
parse_seek_target input current = signed_target (trim_space input) current

-- The session of `Acquire`, with `Play`, or that of `Swap`, with `PlayReusing`.
pub data Reserved : Type 0 where
  with_play : Acquired → Reserved
  with_play_reusing : Swapping → Reserved

unfoldable pub acquire_for_playback : Pool → Text → Reserved
unfolding active_in_guild acquire begin_swap
acquire_for_playback p guild = elim (active_in_guild p guild) as (λ _. Reserved) [
  | none ↦ with_play (acquire p guild)
  | some s ↦ with_play_reusing (begin_swap p guild)
]

abbrev pub Handled : Type 0
Handled = Bot × Session × List Effect

abbrev pub acts : Bot → Session × List Effect → Handled
acts b (s, es) = (b, s, es)

-- `handleControl` of a busy session, which `activeSession` has found.
unfoldable pub handle_control : Bot → Text → Text → Session → ℤ → Handled
unfolding stop pause resume
handle_control b guild kind s now =
    if eq_text kind (codes "stop")
    then acts (cancel_pending_auto_next b guild) (stop s)
    else if eq_text kind (codes "pause")
    then (if is_live s then (b, s, []) else acts b (pause s now))
    else if eq_text kind (codes "resume")
    then (if is_live s then (b, s, []) else acts b (resume s now))
    else (b, s, [])

abbrev pub stopped_in : Pool → Text → Option (Session × List Effect)
stopped_in p guild = elim (p guild) as (λ _. Option (Session × List Effect)) [
  | none ↦ none
  | some s ↦ some (stop s)
]

-- `handleStopButton`: the session, if the guild has one, is stopped also if it is idle.
unfoldable pub handle_stop_button : Bot → Pool → List Text → Bot × Option (Session × List Effect)
unfolding stop
handle_stop_button b p (kind ∷ (action ∷ (guild ∷ rest))) =
    (cancel_pending_auto_next b guild, stopped_in p guild)
handle_stop_button b p _ = (b, none)

unfoldable pub toggle : Text → Session → ℤ → Session × List Effect
unfolding pause resume
toggle action s now =
    if not s.busy || is_live s
    then (s, [])
    else if eq_text action (codes "pause")
    then pause s now
    else resume s now

-- `handleToggleButton`: what becomes of the guild's session.
unfoldable pub handle_toggle_button : Pool → List Text → ℤ → Option (Session × List Effect)
unfolding toggle
handle_toggle_button p (kind ∷ (action ∷ (guild ∷ rest))) now =
    elim (p guild) as (λ _. Option (Session × List Effect)) [
      | none ↦ none
      | some s ↦ some (toggle action s now)
    ]
handle_toggle_button p _ now = none
