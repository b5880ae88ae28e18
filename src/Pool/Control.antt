-- ===== src/Pool/Control.antt =====
-- What a `Pool` does to the session of a running stream (internal/pool/pool.go). The `Effect`s are
-- listed in the order of the calls.
pub mod Seek
pub mod Pause
pub mod Ending
use streamly.Prelude.{
  ℕ, Bool, true, false, not, ◌&&◌, ◌||◌, Option, none, some, List, [], ◌∷◌, ◌++◌, if◌then◌else◌,
}
use streamly.Prelude.Signed.{ℤ, pos, ◌+ℤ◌, ◌-ℤ◌, ltb_ℤ, wrap64}
use streamly.Prelude.Text.{is_empty}
use streamly.Captions.{Track, reset, stored_path}
use streamly.Source.{is_hls_url}
use streamly.Pool.Session.{
  Session, Request, Effect, cancel, destroy, pause_transcode, resume_transcode, join_voice,
  leave_voice, set_voice_hook, clear_voice_hook, close_loop, remove_file, call_near_end, call_close,
  CloseReason, ended, stopped, error, swapped, is_live, of_ms, sub_time,
}

abbrev pub Acts : Type 0
Acts = Session × List Effect

-- A handle's call, where there is one.
abbrev pub each : {A : Type 0} → Option A → (A → Effect) → List Effect
each none f = []
each (some a) f = f a ∷ []

abbrev pub when : Bool → Effect → List Effect
when b e = if b then e ∷ [] else []

unfoldable pub stop : Session → Acts
stop s = (record s { stop_requested = true; paused = false }, each s.controller cancel)

unfoldable pub pause : Session → ℤ → Acts
pause s now =
    if s.paused || not s.busy || is_live s
    then (s, [])
    else (record s { paused = true; paused_at = some now }, each s.transcode pause_transcode)

-- The start moves by the length of the pause.
abbrev pub shifted : Option ℤ → Option ℤ → ℤ → Option ℤ
shifted none p now = none
shifted (some t) none now = some t
shifted (some t) (some p) now = some (t +ℤ sub_time now p)

unfoldable pub resume : Session → ℤ → Acts
resume s now =
    if s.paused
    then (
      record s {
        started_at = shifted s.started_at s.paused_at now;
        paused = false;
        paused_at = none;
      },
      each s.transcode resume_transcode,
    )
    else (s, [])

pub data SeekError : Type 0 where
  no_active_stream is_live_stream unseekable : SeekError

pub data Sought : Type 0 where
  to : ℤ → Sought
  refused : SeekError → Sought

-- `limit`: two seconds before the end, at least 0.
abbrev pub seek_limit : ℤ → ℤ
seek_limit ms =
    let limit = wrap64 (of_ms ms -ℤ pos 2_000_000_000) in
    if ltb_ℤ limit (pos 0) then pos 0 else limit

abbrev pub seek_target : Option ℤ → ℤ → ℤ
seek_target duration target =
    let target' = if ltb_ℤ target (pos 0) then pos 0 else target in
    elim duration [
      | none ↦ target'
      | some ms ↦ if ltb_ℤ (seek_limit ms) target' then seek_limit ms else target'
    ]

unfoldable pub seek : Session → ℤ → Sought × Session × List Effect
seek s target = if not s.busy then (refused no_active_stream, s, []) else elim s.request [
  | none ↦ (refused no_active_stream, s, [])
  | some r ↦
      if r.live
      then (refused is_live_stream, s, [])
      else if is_hls_url r.initial_url
      then (refused unseekable, s, [])
      else (
        to (seek_target s.duration_ms target),
        record s { pending_seek = some (seek_target s.duration_ms target) },
        each s.segment_cancel cancel,
      )
]

-- The pending target, if there is one, and the session without it.
unfoldable pub take_seek : Session → Option ℤ × Session
take_seek s = (s.pending_seek, record s { pending_seek = none })

abbrev reset_track : Option Track → Option Track
reset_track none = none
reset_track (some t) = some (reset t)

abbrev pub removed_file : Option Track → List Effect
removed_file t = if is_empty (stored_path t) then [] else remove_file (stored_path t) ∷ []

-- The runtime's memory is trimmed and logged after this.
unfoldable pub release : Session → Acts
release s = (
  record s {
    controller = none;
    media = none;
    request = none;
    started_at = none;
    paused_at = none;
    duration_ms = none;
    bytes_read = pos 0;
    transcode = none;
    pending_seek = none;
    segment_cancel = none;
    captions = reset_track s.captions;
    fonts_dir = [];
    caption_source = [];
    caption_query_key = [];
    metadata = none;
    cta_font_path = [];
    pending_segment_ctas = [];
    timed_ctas = [];
    credits_trigger_ms = pos 0;
    near_end_triggered = false;
    live_attempt = 0;
    busy = false;
    paused = false;
    stop_requested = false;
  },
  each s.controller cancel
      ++ (each s.media destroy
          ++ (removed_file s.captions ++ (clear_voice_hook ∷ leave_voice ∷ []))),
)

unfoldable pub teardown_for_swap : Session → Acts
teardown_for_swap s = (
  record s { controller = none; media = none; pending_seek = none; segment_cancel = none },
  each s.media destroy,
)

-- `Play` up to the voice join, which the parameter `joined` answers; `closing` names the new
-- channel. The callback `OnPrepare` and the start of `runLoop` come after.
unfoldable pub play : Session → Request → ℤ → Bool → ℕ → Bool × Session × List Effect
play s r now joined closing =
    let armed = record s {
      stop_requested = false;
      request = some r;
      started_at = some now;
      paused_at = none;
      duration_ms = none;
      bytes_read = pos 0;
    } in
    if joined
    then (
      true,
      record armed { metadata = r.metadata; loop_done = some closing },
      join_voice r.channel_id ∷ (set_voice_hook ∷ []),
    )
    else (false, armed, join_voice r.channel_id ∷ [])

-- `PlayReusing`; `connected` answers whether there is a voice connection.
unfoldable pub play_reusing : Session → Request → ℤ → Bool → Bool → ℕ → Bool × Session × List Effect
play_reusing s r now connected joined closing =
    let fresh = play s r now joined closing in
    if connected
    then (
      true,
      record s {
        stop_requested = false;
        request = some r;
        started_at = some now;
        paused_at = none;
        duration_ms = none;
        bytes_read = pos 0;
        metadata = r.metadata;
        loop_done = some closing;
      },
      set_voice_hook ∷ [],
    )
    else fresh

-- The start of `runLoop`: the context that `c` cancels.
unfoldable pub begin_loop : Session → ℕ → Session
begin_loop s c = record s { controller = some c }

-- `runSegment` from the transcoder's start on: the running transcode `t`, the segment's context.
unfoldable pub begin_segment : Session → ℕ → ℕ → ℤ → ℤ → Acts
begin_segment s c t now offset = (
  record s {
    segment_cancel = some c;
    transcode = some t;
    started_at = some (now -ℤ offset);
    paused_at = if s.paused then some now else s.paused_at;
  },
  when s.paused (pause_transcode t),
)

abbrev pub close_reason : Bool → Bool → CloseReason
close_reason stop_requested failed =
    if stop_requested then stopped else if failed then error else ended

abbrev pub is_ended : CloseReason → Bool
is_ended ended = true
is_ended _ = false

-- `runLoop` after `stream` has returned, `failed` where it returned an error; `c` is its context.
unfoldable pub end_loop : Session → Request → Bool → ℕ → Option ℕ → Acts
end_loop s r failed c closing =
    let reason = close_reason s.stop_requested failed in
    let torn = teardown_for_swap s in
    let freed = release s in
    if s.swapping
    then (
      torn.0,
      cancel c ∷ (torn.1 ++ (when r.on_close (call_close swapped) ++ each closing close_loop)),
    )
    else (
      freed.0,
      cancel c
          ∷ (when (is_ended reason && (r.on_near_end && not s.near_end_triggered)) call_near_end
              ++ (freed.1 ++ (each closing close_loop ++ when r.on_close (call_close reason)))),
    )
