-- ===== src/Bot/AutoNext/Start.antt =====
-- `startEpisodeFromAutoNext` of internal/bot/autonext.go behind its first test, and
-- `acquireForPlayback` of stream.go.
use streamly.Prelude.{ℕ, Bool, Option, none, some, List, [], ◌∷◌, if◌then◌else◌}
use streamly.Prelude.Text.{Text, is_empty}
use streamly.Media.Qualities.{FileQuality, quality_height, ranked_quality_urls}
use streamly.Media.Qualities.Pick.{Sort, pick_quality}
use streamly.Bot.AutoNext.{
  AutoNextState, Failure, no_channel, no_source, no_worker, no_voice, Effect, plays, releases,
  shows_card,
}

-- What the services answer: the voice channel, if it is found; the qualities, none on an error; the
-- resolver's URL at a height, `none` for an error; a session; a started stream. And whether there
-- is a message to write the card to.
pub record Outside : Type 0 where
  pub sort : Sort
  pub stream_height : ℕ
  pub channel_found : Bool
  pub qualities : List FileQuality
  pub stream_url : ℕ → Option Text
  pub worker_acquired : Bool
  pub stream_played : Bool
  pub card : Bool

pub data Started : Type 0 where
  started : List Effect → Started
  failed : List Effect → Failure → Started

-- `Target` is the configured height, or the height of the quality picked.
unfoldable pub target_height : Outside → ℕ
target_height o = elim (pick_quality o.sort o.qualities o.stream_height) [
  | none ↦ o.stream_height
  | some selected ↦ quality_height selected
]

unfoldable pub first_url : List Text → Text
first_url [] = []
first_url (u ∷ l) = u

-- The first of the ranking, or what the resolver answers, not empty.
unfoldable pub playable_url : Outside → Option Text
unfolding target_height first_url
playable_url o =
    let url = first_url (ranked_quality_urls o.qualities (target_height o)) in
    if is_empty url
    then (elim (o.stream_url (target_height o)) as (λ _. Option Text) [
      | none ↦ none
      | some resolved ↦ if is_empty resolved then none else some resolved
    ])
    else some url

unfoldable pub start_episode : Outside → AutoNextState → Started
unfolding playable_url
start_episode o s =
    if o.channel_found
    then (elim (playable_url o) as (λ _. Started) [
      | none ↦ failed [] no_source
      | some url ↦
          if o.worker_acquired
          then if o.stream_played
            then started (plays s url ∷ (if o.card then shows_card s ∷ [] else []))
            else failed (plays s url ∷ (releases ∷ [])) no_voice
          else failed [] no_worker
    ])
    else failed [] no_channel
