-- ===== src/Streamer/Sender/Run.antt =====
-- Any interleaving of what the pumps of audio and video do, segment after segment.
use mathlib.Core.Path.{subst}
use streamly.Prelude.{
  none, ℕ, suc, ◌+◌, ◌<◌, ◌^◌, ◌≡◌, Option, true, false, List, [], ◌∷◌, length, All, arith, refl,
  inr,
}
use streamly.Prelude.Signed.{ℤ, pos, ◌+ℤ◌, Fits64}
use streamly.Streamer.Clock.{wait}
use streamly.Streamer.Sender.{
  Sender, begin_segment, send_pause_frame, send_loading_frame, apply_pause_event, frametime_video,
  pump_video, audio_duration, pump_audio,
}
use streamly.Streamer.Sender.Moved.{Counted-more}
use streamly.Streamer.Sender.Pumped.{pump_video-IsAligned, pump_audio-IsAligned}
use streamly.Streamer.Sender.Aligned.{
  IsAligned, send_pause_frame-IsAligned, send_loading_frame-IsAligned, apply_pause_event-IsAligned,
}

pub data Event : Type 0 where
  segment : Event
  pause_card : Option (List ℕ) → ℤ → Event
  loading_card : Option (List ℕ) → ℤ → Event
  pause_end : ℤ → ℕ → ℤ → Event
  waits : ℤ → ℤ → Event
  video_packet : List ℕ → ℤ → ℤ → Event
  audio_packet : ℤ → ℤ → ℤ → Event

abbrev pub step : ℕ → Sender → Event → Sender
step fps s segment = begin_segment s
step fps s (pause_card frame now) = send_pause_frame s frame now
step fps s (loading_card frame now) = send_loading_frame s frame now
step fps s (pause_end duration epoch now) = apply_pause_event s (duration, epoch) now
step fps s (waits pts now) = record s { clock = (wait s.clock pts (pos 0) now).1 }
step fps s (video_packet frame pts now) = pump_video fps s frame pts now
step fps s (audio_packet duration pts now) = pump_audio s duration pts now

abbrev pub run : ℕ → Sender → List Event → Sender
run fps s [] = s
run fps s (e ∷ events) = run fps (step fps s e) events

-- The durations of the packets, on top of a total.
abbrev pub audio_after : ℤ → Event → ℤ
audio_after total (audio_packet duration pts now) = total +ℤ audio_duration duration
audio_after total e = total

abbrev pub video_after : ℕ → ℤ → Event → ℤ
video_after fps total (video_packet frame pts now) = total +ℤ frametime_video fps
video_after fps total e = total

abbrev pub audio_total : ℤ → List Event → ℤ
audio_total total [] = total
audio_total total (e ∷ events) = audio_total (audio_after total e) events

abbrev pub video_total : ℕ → ℤ → List Event → ℤ
video_total fps total [] = total
video_total fps total (e ∷ events) = video_total fps (video_after fps total e) events

abbrev pub IsDuration : Event → Type 0
IsDuration (pause_end duration epoch now) = Fits64 duration
IsDuration e = Unit

abbrev pub new_sender : Sender
new_sender = record {
  peer = record {
    closed = false;
    audio = pos 0;
    video = pos 0;
    frames = [];
    audio_packets = 0;
    video_sends = λ _. true;
    audio_sends = λ _. true;
  };
  active = false;
  clock = record { wall_start = pos 0; pts_start = pos 0; anchored = false };
  pause_epoch = 0;
  pause_sent = pos 0;
  loading_sent = pos 0;
  drop_to_idr = false;
  last_video_pts_ms = pos 0;
  last_rtp_at = none;
  gap_pending = false;
}

more : (n : ℕ) (a v : ℤ) (s : Sender) → IsAligned n a v s → IsAligned (suc n) a v s
more n a v s h = record {
  is_open = h.is_open;
  skew = h.skew;
  paused = Counted-more n s.pause_sent h.paused;
  loading = Counted-more n s.loading_sent h.loading;
  found = h.found;
}

step-IsAligned :
    (fps n : ℕ) (a v : ℤ) (s : Sender) (e : Event)
    → n < 2 ^ 30
    → IsDuration e
    → IsAligned n a v s
    → IsAligned (suc n) (audio_after a e) (video_after fps v e) (step fps s e)
step-IsAligned fps n a v s segment l d h = record {
  is_open = h.is_open;
  skew = h.skew;
  paused = Counted-more n s.pause_sent h.paused;
  loading = Counted-more n s.loading_sent h.loading;
  found = h.found;
}
step-IsAligned fps n a v s (pause_card frame now) l d h =
    send_pause_frame-IsAligned n a v s frame now l h
step-IsAligned fps n a v s (loading_card frame now) l d h =
    send_loading_frame-IsAligned n a v s frame now l h
step-IsAligned fps n a v s (pause_end duration epoch now) l d h =
    more n a v (step fps s (pause_end duration epoch now))
      (apply_pause_event-IsAligned n a v s duration epoch now (omega arith) d h)
step-IsAligned fps n a v s (waits pts now) l d h = record {
  is_open = h.is_open;
  skew = h.skew;
  paused = Counted-more n s.pause_sent h.paused;
  loading = Counted-more n s.loading_sent h.loading;
  found = h.found;
}
step-IsAligned fps n a v s (video_packet frame pts now) l d h =
    more n a (v +ℤ frametime_video fps) (pump_video fps s frame pts now)
      (pump_video-IsAligned n a v fps s frame pts now h)
step-IsAligned fps n a v s (audio_packet duration pts now) l d h =
    more n (a +ℤ audio_duration duration) v (pump_audio s duration pts now)
      (pump_audio-IsAligned n a v s duration pts now h)

-- Under any sequence of fewer than 2 ^ 30 steps of the two pumps with an open peer, to which every
-- send has bytes and succeeds - packets, pause cards, loading cards, ends of pauses, splices of
-- segments - the video timeline stays ahead of the
-- audio timeline by exactly the difference of their packets and the cards that are not yet
-- accounted for.
pub run-IsAligned :
    (fps n : ℕ) (a v : ℤ) (s : Sender) (events : List Event)
    → n + length events < 2 ^ 30
    → All IsDuration events
    → IsAligned n a v s
    → IsAligned
        (n + length events)
        (audio_total a events)
        (video_total fps v events)
        (run fps s events)
run-IsAligned fps n a v s [] l d h = subst (λ k. IsAligned k a v s) (omega arith) h
run-IsAligned fps n a v s (e ∷ events) l d h =
    let k : suc n + length events ≡ n + suc (length events) = omega arith in
    let s' : Sender = step fps s e in
    subst
      (λ i.
        IsAligned i (audio_total (audio_after a e) events)
          (video_total fps (video_after fps v e) events) (run fps s' events))
      k
      (run-IsAligned fps (suc n) (audio_after a e) (video_after fps v e) s' events (omega arith) d.1
        (step-IsAligned fps n a v s e (omega arith) d.0 h))

pub new_sender-IsAligned : IsAligned 0 (pos 0) (pos 0) new_sender
unfolding ◌+ℤ◌
new_sender-IsAligned = record {
  is_open = (refl, ((λ _. refl), (λ _. refl)));
  skew = refl;
  paused = (refl, omega arith);
  loading = (refl, omega arith);
  found = inr refl;
}
