-- ===== src/Streamer/Sender.antt =====
-- `mediaSender` of internal/streamer/play.go: what its two pumps do with packets, pauses and cards.
-- The peer connection is native; of it there are the timelines of audio and video, as the sums of
-- the durations by which they were advanced, and the video frames that were sent, the last first.
-- Waiting and choosing between channels is outside: each operation is a step, at the time that it
-- is given. They are what `sendVideo` of media_gateway.go hands to the encryption. The native sends are
-- outside: `video_sends n` answers whether, after n frames, a send has bytes and succeeds, and
-- `audio_sends n` so for audio; a timeline advances only then. A peer without its native part is
-- like one that is closed. There is one peer; `active` tells whether `resolvePeer` has found it.
pub mod Moved
pub mod Aligned
pub mod Pumped
pub mod Run
pub mod Drops
use streamly.Prelude.{
  ℕ, suc, length, Bool, true, false, not, ◌&&◌, Option, none, some, List, [], ◌∷◌, if◌then◌else◌,
  ◌==◌,
}
use streamly.Prelude.Signed.{ℤ, pos, negsuc, pos_part, ◌+ℤ◌, ◌-ℤ◌, ltb_ℤ, leb_ℤ, quot, wrap64}
use streamly.Pool.Session.{sub_time, to_ms}
use streamly.H264.Nal.{h264_contains_idr, rewrite_h264_sps}
use streamly.Streamer.Clock.{MediaClock, wait, lateness, shift, reset}

pub record Peer : Type 0 where
  pub closed : Bool
  pub audio : ℤ
  pub video : ℤ
  pub frames : List (List ℕ)
  pub audio_packets : ℕ
  pub video_sends : ℕ → Bool
  pub audio_sends : ℕ → Bool

abbrev pub advance_audio : Peer → ℤ → Peer
advance_audio p d = if p.closed then p else record p { audio = p.audio +ℤ d }

abbrev pub advance_video : Peer → ℤ → Peer
advance_video p d = if p.closed then p else record p { video = p.video +ℤ d }

abbrev pub send_video : Peer → List ℕ → ℤ → Peer
send_video p frame d = if p.closed then p else record p {
  video = if p.video_sends (length p.frames) then p.video +ℤ d else p.video;
  frames = rewrite_h264_sps frame ∷ p.frames;
}

abbrev pub send_audio : Peer → ℤ → Peer
send_audio p d = if p.closed then p else record p {
  audio = if p.audio_sends p.audio_packets then p.audio +ℤ d else p.audio;
  audio_packets = suc p.audio_packets;
}

pub record Sender : Type 0 where
  pub peer : Peer
  pub active : Bool
  pub clock : MediaClock
  pub pause_epoch : ℕ
  pub pause_sent : ℤ
  pub loading_sent : ℤ
  pub drop_to_idr : Bool
  pub last_video_pts_ms : ℤ
  pub last_rtp_at : Option ℤ
  pub gap_pending : Bool

abbrev pub pause_frame_interval : ℤ
pause_frame_interval = pos 500_000_000

abbrev pub buffer_hold_threshold : ℤ
buffer_hold_threshold = pos 350_000_000

abbrev pub mark_rtp : Sender → ℤ → Sender
mark_rtp s now = record s { last_rtp_at = some now }

-- The cancel function of a live segment and `setSpeaking` are left out.
abbrev pub begin_segment : Sender → Sender
begin_segment s = record s {
  pause_epoch = 0;
  drop_to_idr = false;
  last_video_pts_ms = negsuc 0;
  clock = reset s.clock;
  gap_pending = true;
}

abbrev pub needs_audio_resync : Bool → Option ℤ → Bool
needs_audio_resync pending none = false
needs_audio_resync pending (some t) = pending

-- The time that has passed since the last RTP packet, where both timelines are to skip it.
abbrev pub splice_gap : Sender → ℤ → Option ℤ
splice_gap s now = elim s.last_rtp_at [
  | none ↦ none
  | some last ↦
      let gap = sub_time now last in
      if not (needs_audio_resync s.gap_pending s.last_rtp_at)
      then none
      else if leb_ℤ gap (pos 0)
      then none
      else some gap
]

abbrev pub advance_both : Peer → ℤ → Peer
advance_both p gap = advance_video (advance_audio p gap) gap

-- `resolvePeer` and `applySegmentGap`.
unfoldable pub apply_segment_gap : Sender → ℤ → Sender
apply_segment_gap s now = elim (splice_gap s now) [
  | none ↦ record s { active = true; gap_pending = false; last_rtp_at = some now }
  | some gap ↦ record s {
    active = true;
    gap_pending = false;
    last_rtp_at = some now;
    peer = advance_both s.peer gap;
  }
]

-- With the card's frame, where the session gives one.
unfoldable pub send_pause_frame : Sender → Option (List ℕ) → ℤ → Sender
send_pause_frame s none now = s
send_pause_frame s (some frame) now =
    let s' = apply_segment_gap s now in
    record s' {
      peer = send_video s'.peer frame pause_frame_interval;
      last_rtp_at = some now;
      pause_sent = wrap64 (s'.pause_sent +ℤ pause_frame_interval);
    }

unfoldable pub send_loading_frame : Sender → Option (List ℕ) → ℤ → Sender
send_loading_frame s none now = s
send_loading_frame s (some frame) now =
    let s' = apply_segment_gap s now in
    record s' {
      peer = send_video s'.peer frame pause_frame_interval;
      last_rtp_at = some now;
      loading_sent = wrap64 (s'.loading_sent +ℤ pause_frame_interval);
      drop_to_idr = true;
    }

unfoldable pub apply_loading_hold : Sender → ℤ → Sender
apply_loading_hold s now =
    let duration = s.loading_sent in
    if leb_ℤ duration (pos 0) then record s { loading_sent = pos 0 } else record s {
      loading_sent = pos 0;
      clock = shift s.clock duration;
      peer = advance_audio s.peer duration;
      last_rtp_at = some now;
    }

-- Whether the frame is dropped.
unfoldable pub consume_video_drop : Sender → List ℕ → Bool × Sender
consume_video_drop s frame =
    if not s.drop_to_idr
    then (false, s)
    else if h264_contains_idr frame
    then (false, record s { drop_to_idr = false })
    else (true, s)

-- By how much audio and video skip after a pause of `duration`, of which video was sent for `sent`.
abbrev pub video_gap : ℤ → ℤ → ℤ
video_gap duration sent =
    let gap = wrap64 (duration -ℤ sent) in if ltb_ℤ gap (pos 0) then pos 0 else gap

abbrev pub audio_gap : ℤ → ℤ → ℤ
audio_gap duration sent =
    let gap = wrap64 (duration -ℤ sent) in
    if ltb_ℤ gap (pos 0) then wrap64 (duration -ℤ gap) else duration

abbrev pub skip_pause : Peer → ℤ → ℤ → Peer
skip_pause p duration sent =
    let p' = advance_audio p (audio_gap duration sent) in
    if ltb_ℤ (pos 0) (video_gap duration sent)
    then advance_video p' (video_gap duration sent)
    else p'

-- `event` is what the session's `PauseEvent` answers.
unfoldable pub apply_pause_event : Sender → ℤ × ℕ → ℤ → Sender
apply_pause_event s (duration, epoch) now =
    if epoch == s.pause_epoch
    then s
    else if leb_ℤ duration (pos 0)
    then record s { pause_epoch = epoch }
    else let drops = if ltb_ℤ (pos 0) s.pause_sent then true else s.drop_to_idr in
      if s.active
      then record s {
        pause_epoch = epoch;
        pause_sent = pos 0;
        drop_to_idr = drops;
        clock = shift s.clock duration;
        peer = skip_pause s.peer duration s.pause_sent;
        last_rtp_at = some now;
      }
      else record s { pause_epoch = epoch; pause_sent = pos 0; drop_to_idr = drops }

-- `frametime` of video, at the frame rate of the configuration, and of audio.
abbrev pub frametime_video : ℕ → ℤ
frametime_video fps = if fps == 0 then quot (pos 1_000_000_000) 30 else quot (pos 1_000_000_000) fps

abbrev pub frametime_audio : ℤ
frametime_audio = pos 20_000_000

-- What `pump` does with a packet once `wait` has let it pass.
unfoldable pub pump_video : ℕ → Sender → List ℕ → ℤ → ℤ → Sender
pump_video fps s frame pts now =
    let held = apply_loading_hold (apply_segment_gap s now) now in
    let (dropped, s') = consume_video_drop held frame in
    if dropped
    then mark_rtp (record s' { peer = advance_video s'.peer (frametime_video fps) }) now
    else mark_rtp
        (record s' {
          peer = send_video s'.peer frame (frametime_video fps);
          last_video_pts_ms = to_ms pts;
        })
        now

abbrev pub audio_duration : ℤ → ℤ
audio_duration duration = if leb_ℤ duration (pos 0) then frametime_audio else duration

abbrev pub catch_up : MediaClock → ℤ → ℤ → MediaClock
catch_up c pts now =
    if ltb_ℤ buffer_hold_threshold (lateness c pts now) then shift c (lateness c pts now) else c

unfoldable pub pump_audio : Sender → ℤ → ℤ → ℤ → Sender
pump_audio s duration pts now =
    let held = apply_loading_hold (apply_segment_gap s now) now in
    mark_rtp
      (record held {
        clock = catch_up held.clock pts now;
        peer = send_audio held.peer (audio_duration duration);
      })
      now
