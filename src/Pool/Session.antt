-- ===== src/Pool/Session.antt =====
-- `Session` and `Request` of internal/pool/pool.go: the state of a guild's stream and the values it
-- is built of. A `time.Time` is the nanoseconds of the monotonic clock, its zero value `none`; a
-- handle (a context's cancel function, a media source, a running transcode, a channel) is a number.
-- The voice connection, the transcoder and the callbacks are outside: what is called of them is an
-- `Effect`.
use streamly.Prelude.{ℕ, Bool, false, Option, none, some, List, [], if◌then◌else◌}
use streamly.Prelude.Signed.{ℤ, pos, negsuc, ◌-ℤ◌, ltb_ℤ, quot, scale, wrap64}
use streamly.Prelude.Text.{Text}
use streamly.Captions.{Track}
use streamly.Introdb.Record.{MediaRecord}

pub data CloseReason : Type 0 where
  ended stopped error swapped : CloseReason

-- What `pool` reads of a `StreamMetadata`.
pub record StreamMetadata : Type 0 where
  pub auto_next : Bool
  pub episode : Bool
  pub text_channel_name : Text
  pub intro_record : Option MediaRecord

-- `QualityURL` answers `none` for an error.
pub record Request : Type 0 where
  pub guild_id : Text
  pub channel_id : Text
  pub caption : Text
  pub initial_url : Text
  pub quality_url : Option (ℕ → Option Text)
  pub quality_label : Text
  pub live : Bool
  pub metadata : Option StreamMetadata
  pub on_near_end : Bool
  pub on_close : Bool

pub record SegmentCta : Type 0 where
  pub text : Text
  pub duration_ms : ℤ

pub record TimedCta : Type 0 where
  pub text : Text
  pub start_ms : ℤ
  pub end_ms : ℤ

pub record Session : Type 0 where
  pub id : Text
  pub busy : Bool
  pub paused : Bool
  pub stop_requested : Bool
  pub controller : Option ℕ
  pub media : Option ℕ
  pub request : Option Request
  pub started_at : Option ℤ
  pub paused_at : Option ℤ
  pub duration_ms : Option ℤ
  pub bytes_read : ℤ
  pub transcode : Option ℕ
  pub pending_seek : Option ℤ
  pub segment_cancel : Option ℕ
  pub captions : Option Track
  pub fonts_dir : Text
  pub caption_source : Text
  pub caption_query_key : Text
  pub metadata : Option StreamMetadata
  pub cta_font_path : Text
  pub pending_segment_ctas : List SegmentCta
  pub timed_ctas : List TimedCta
  pub credits_trigger_ms : ℤ
  pub near_end_triggered : Bool
  pub live_attempt : ℕ
  pub swapping : Bool
  pub loop_done : Option ℕ

pub data Effect : Type 0 where
  cancel : ℕ → Effect
  destroy : ℕ → Effect
  pause_transcode : ℕ → Effect
  resume_transcode : ℕ → Effect
  join_voice : Text → Effect
  leave_voice : Effect
  set_voice_hook : Effect
  clear_voice_hook : Effect
  close_loop : ℕ → Effect
  remove_file : Text → Effect
  call_near_end : Effect
  call_close : CloseReason → Effect

-- The `Session` that `addWorker` and `SetKey` make.
abbrev pub new_session : Text → Session
new_session id = record {
  id = id;
  busy = false;
  paused = false;
  stop_requested = false;
  controller = none;
  media = none;
  request = none;
  started_at = none;
  paused_at = none;
  duration_ms = none;
  bytes_read = pos 0;
  transcode = none;
  pending_seek = none;
  segment_cancel = none;
  captions = none;
  fonts_dir = [];
  caption_source = [];
  caption_query_key = [];
  metadata = none;
  cta_font_path = [];
  pending_segment_ctas = [];
  timed_ctas = [];
  credits_trigger_ms = pos 0;
  near_end_triggered = false;
  live_attempt = 0;
  swapping = false;
  loop_done = none;
}

abbrev pub is_live : Session → Bool
is_live s = elim s.request [ none ↦ false | some r ↦ r.live ]

-- The int64 that is nearest.
unfoldable pub saturate : ℤ → ℤ
saturate d =
    if ltb_ℤ (pos 9_223_372_036_854_775_807) d
    then pos 9_223_372_036_854_775_807
    else if ltb_ℤ d (negsuc 9_223_372_036_854_775_807)
    then negsuc 9_223_372_036_854_775_807
    else d

-- `t.Sub(u)`.
abbrev pub sub_time : ℤ → ℤ → ℤ
sub_time t u = saturate (t -ℤ u)

abbrev pub to_ms : ℤ → ℤ
to_ms d = quot d 1_000_000

abbrev pub of_ms : ℤ → ℤ
of_ms ms = wrap64 (scale ms 1_000_000)

abbrev pub min64 : ℤ → ℤ → ℤ
min64 a b = if ltb_ℤ a b then a else b

-- The clock that a paused session stands at: that of the pause, where one is kept.
abbrev pub clock : Session → ℤ → ℤ
clock s now = if s.paused then elim s.paused_at [ none ↦ now | some t ↦ t ] else now

unfoldable pub uptime_ms : Session → ℤ → ℤ
uptime_ms s now = elim s.started_at [ none ↦ pos 0 | some t ↦ to_ms (sub_time (clock s now) t) ]

abbrev pub capped : Option ℤ → ℤ → ℤ
capped none elapsed = elapsed
capped (some d) elapsed = min64 elapsed d

unfoldable pub position_ms : Session → ℤ → ℤ
position_ms s now = elim s.request [
  | none ↦ pos 0
  | some r ↦ elim s.started_at [
    | none ↦ pos 0
    | some t ↦ capped s.duration_ms (to_ms (sub_time (clock s now) t))
  ]
]
