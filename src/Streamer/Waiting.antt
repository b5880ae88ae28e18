-- ===== src/Streamer/Waiting.antt =====
-- `nextPacket` of internal/streamer/play.go for video that has started: the wait for a packet, with
-- its timers. Times are nanoseconds since the call. A `Fired` is what `select` takes next; one that
-- cannot be ready then, since a timer fires before it or it is not set, is `impossible`. A timer
-- fires when it is due. A card takes no time: the wait inside `sendLoadingFrame` until a peer is
-- found is left out, so this is the wait of a sender whose peer is found.
pub mod Starved
use streamly.Prelude.{
  ℕ, suc, ◌+◌, Bool, true, false, ◌&&◌, Option, none, some, List, [], ◌∷◌, if◌then◌else◌, leb,
}

abbrev pub live_buffer_hold_threshold : ℕ
live_buffer_hold_threshold = 1_500_000_000

abbrev pub live_loading_timeout : ℕ
live_loading_timeout = 25_000_000_000

-- `cards` counts the calls of `sendLoadingFrame`.
pub record Wait : Type 0 where
  pub live : Bool
  pub now : ℕ
  pub timer : ℕ
  pub deadline : Option ℕ
  pub cards : ℕ

abbrev pub hold_threshold : Bool → ℕ
hold_threshold live = if live then live_buffer_hold_threshold else 350_000_000

abbrev pub start : Bool → Wait
start live = record {
  live = live;
  now = 0;
  timer = hold_threshold live;
  deadline = none;
  cards = 0;
}

pub data Fired : Type 0 where
  packet_at context_at : ℕ → Fired
  timer_fires deadline_fires : Fired

-- A packet or the end of the channel, the end of the context, or the end of the segment, with the
-- time.
pub data Outcome : Type 0 where
  waits : Wait → Outcome
  receives stops gives_up : ℕ → Outcome
  impossible : Outcome

abbrev pub within : ℕ → Option ℕ → Bool
within t none = true
within t (some d) = leb t d

-- Whether something is ready at the time t, before anything else fires.
abbrev pub is_ready : Wait → ℕ → Bool
is_ready w t = leb w.now t && leb t w.timer && within t w.deadline

-- The loading deadline is set when the timer of a live stream first fires.
abbrev pub next_deadline : Wait → Option ℕ
next_deadline w = elim w.deadline [
  | some d ↦ some d
  | none ↦ if w.live then some (w.timer + live_loading_timeout) else none
]

unfoldable pub fire : Wait → Fired → Outcome
fire w (packet_at t) = if is_ready w t then receives t else impossible
fire w (context_at t) = if is_ready w t then stops t else impossible
fire w timer_fires =
    if is_ready w w.timer
    then waits (record w {
      now = w.timer;
      timer = w.timer + 500_000_000;
      deadline = next_deadline w;
      cards = suc w.cards;
    })
    else impossible
fire w deadline_fires = elim w.deadline [
  | none ↦ impossible
  | some d ↦ if leb d w.timer then gives_up d else impossible
]

-- The loop: what fires in turn, until the wait ends.
abbrev pub next_packet : Wait → List Fired → Outcome
next_packet w [] = waits w
next_packet w (e ∷ events) = elim (fire w e) [
  | waits w' ↦ next_packet w' events
  | receives t ↦ receives t
  | stops t ↦ stops t
  | gives_up t ↦ gives_up t
  | impossible ↦ impossible
]
