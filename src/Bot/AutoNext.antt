-- ===== src/Bot/AutoNext.antt =====
-- internal/bot/autonext.go: the prompt that offers the next episode of a series. Each function that
-- takes `autoNextMu` is one step; what is written on a card is left out, but not that it is
-- written.
pub mod Start
pub mod World
pub mod Own
pub mod Kept
pub mod Reach
pub mod Silent
pub mod Stopped
pub mod Settled
use streamly.Prelude.{
  ℕ, ◌+◌, ◌%◌, ◌^◌, Bool, true, false, ◌||◌, Option, none, some, List, [], ◌∷◌, if◌then◌else◌, ◌==◌,
}
use streamly.Prelude.Signed.{ℤ}
use streamly.Prelude.Text.{Text, codes, eq_text, is_empty}

pub record AutoNextContext : Type 0 where
  pub show_id : ℤ
  pub user_id : Text
  pub share_key : Text
  pub season : ℤ
  pub episode : ℤ
  pub history_value : Text
  pub channel_id : Text
  pub voice_channel_id : Text

pub record NextEpisode : Type 0 where
  pub fid : ℤ
  pub season : ℤ
  pub episode : ℤ
  pub file_name : Text

-- `autoNextState`; `cancel` is the number of the context that it cancels, never nil.
pub record AutoNextState : Type 0 where
  pub generation : ℕ
  pub guild_id : Text
  pub channel_id : Text
  pub message_id : Text
  pub voice_id : Text
  pub auto : AutoNextContext
  pub next : NextEpisode
  pub cancel : ℕ

-- What a `Bot` keeps of it, and the contexts: those made and those cancelled.
pub record Bot : Type 0 where
  pub auto_next : Text → Option AutoNextState
  pub auto_next_gen : ℕ
  pub contexts : ℕ
  pub cancelled : ℕ → Bool

pub data Failure : Type 0 where
  slot_busy another_stream no_channel no_source no_worker no_voice : Failure

pub data Effect : Type 0 where
  sends_prompt : Text → NextEpisode → Effect
  deletes_prompt : Text → Text → Effect
  disables_prompt : AutoNextState → Failure → Effect
  acknowledges : Effect
  plays : AutoNextState → Text → Effect
  releases : Effect
  shows_card : AutoNextState → Effect

unfoldable pub auto_next_guild_state : Bot → Text → Option AutoNextState
auto_next_guild_state b guild = b.auto_next guild

unfoldable pub is_auto_next_current : Bot → AutoNextState → Bool
is_auto_next_current b s = elim (b.auto_next s.guild_id) [
  | none ↦ false
  | some current ↦ current.generation == s.generation
]

unfoldable pub cancel_context : Bot → ℕ → Bot
cancel_context b c = record b { cancelled = λ d. d == c || b.cancelled d }

unfoldable pub cancel_existing : Bot → Text → Bot
unfolding cancel_context
cancel_existing b guild = elim (b.auto_next guild) [
  | none ↦ b
  | some existing ↦ cancel_context b existing.cancel
]

unfoldable pub put :
    (Text → Option AutoNextState) → Text → Option AutoNextState → Text → Option AutoNextState
put f guild o guild' = if eq_text guild guild' then o else f guild'

-- The state as it is stored: the caller's own, with its generation.
unfoldable pub numbered : Bot → AutoNextState → AutoNextState
numbered b s = record s { generation = (b.auto_next_gen + 1) % 2 ^ 64 }

unfoldable pub set_auto_next_state : Bot → AutoNextState → Bot
unfolding cancel_existing numbered
set_auto_next_state b s = record (cancel_existing b s.guild_id) {
  auto_next_gen = (b.auto_next_gen + 1) % 2 ^ 64;
  auto_next = put b.auto_next s.guild_id (some (numbered b s));
}

unfoldable pub clear_auto_next_state : Bot → Text → Bot
unfolding cancel_existing
clear_auto_next_state b guild = record (cancel_existing b guild) {
  auto_next = put b.auto_next guild none;
}

abbrev pub cancel_pending_auto_next : Bot → Text → Bot
cancel_pending_auto_next = clear_auto_next_state

unfoldable pub delete_auto_next_message : AutoNextState → List Effect
delete_auto_next_message s =
    if is_empty s.channel_id || is_empty s.message_id
    then []
    else deletes_prompt s.channel_id s.message_id ∷ []

unfoldable pub fail_auto_next : Bot → AutoNextState → Failure → Bot × List Effect
unfolding clear_auto_next_state
fail_auto_next b s why = (clear_auto_next_state b s.guild_id, disables_prompt s why ∷ [])

-- The guards of `handleNearEnd`; `active` is whether `ActiveInGuild` finds a session. Resolving the
-- next episode follows; `none` is an error, or no episode.
unfoldable pub near_end_passes :
    Bot
    → Text
    → Option AutoNextContext
    → Bool
    → Option NextEpisode
    → Option (AutoNextContext × NextEpisode)
unfolding auto_next_guild_state
near_end_passes b guild auto active resolved = elim auto [
  | none ↦ none
  | some a ↦ elim (auto_next_guild_state b guild) [
    | some s ↦ none
    | none ↦
        if active
        then (elim resolved as (λ _. Option (AutoNextContext × NextEpisode)) [
          | none ↦ none
          | some n ↦ some (a, n)
        ])
        else none
  ]
]

-- The state that `promptAutoNext` makes, with a new context.
abbrev pub new_state : Bot → Text → Text → Text → AutoNextContext → NextEpisode → AutoNextState
new_state b guild channel message auto next = record {
  generation = 0;
  guild_id = guild;
  channel_id = channel;
  message_id = message;
  voice_id = auto.voice_channel_id;
  auto = auto;
  next = next;
  cancel = b.contexts;
}

abbrev pub prompt_channel : AutoNextContext → Text → Text
prompt_channel auto channel = if is_empty auto.channel_id then channel else auto.channel_id

-- `promptAutoNext`; `sent` is the message's ID, `none` if it cannot be sent. The state answered
-- is the one the countdown starts with.
unfoldable pub prompt_auto_next :
    Bot
    → Text
    → Text
    → AutoNextContext
    → NextEpisode
    → Option Text
    → Bot × Option AutoNextState × List Effect
unfolding set_auto_next_state numbered
prompt_auto_next b guild channel auto next sent = elim sent [
  | none ↦ (b, none, [])
  | some message ↦
      let s : AutoNextState = new_state b guild (prompt_channel auto channel) message auto next in
      (
        record (set_auto_next_state b s) { contexts = b.contexts + 1 },
        some (numbered b s),
        sends_prompt (prompt_channel auto channel) next ∷ [],
      )
]

pub data Button : Type 0 where
  press_play press_stop press_other : Button

abbrev pub button : Text → Button
button action =
    if eq_text action (codes "play")
    then press_play
    else if eq_text action (codes "stop")
    then press_stop
    else press_other

-- `handleAutoNextButton` of a guild's prompt; the state answered is one that `tryExecuteAutoNext`
-- is started with.
unfoldable pub press : Bot → Text → Button → Bot × Option AutoNextState × List Effect
unfolding auto_next_guild_state cancel_context clear_auto_next_state delete_auto_next_message
press b guild action = elim (auto_next_guild_state b guild) [
  | none ↦ (b, none, acknowledges ∷ [])
  | some s ↦ elim action [
    | press_play ↦ (cancel_context b s.cancel, some s, acknowledges ∷ delete_auto_next_message s)
    | press_stop ↦ (
      clear_auto_next_state (cancel_context b s.cancel) guild,
      none,
      acknowledges ∷ delete_auto_next_message s,
    )
    | press_other ↦ (b, none, [])
  ]
]

unfoldable pub handle_auto_next_button : Bot → List Text → Bot × Option AutoNextState × List Effect
unfolding press
handle_auto_next_button b (kind ∷ (action ∷ (guild ∷ rest))) = press b guild (button action)
handle_auto_next_button b _ = (b, none, [])
