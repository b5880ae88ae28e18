-- ===== src/Streamer/Sender/Pumped.antt =====
-- The alignment through what the pumps do with packets.
use streamly.Prelude.{ℕ, Bool, not, List, if_split}
use streamly.Prelude.Signed.{ℤ, pos, ◌+ℤ◌}
use streamly.H264.Nal.{h264_contains_idr}
use streamly.Streamer.Sender.Moved.{
  packet_video, packet_audio, send_audio-Moved, advance_video-Moved, send_video-Moved, skew-Moved,
}
use streamly.Streamer.Sender.{
  send_audio, advance_video, send_video, Sender, apply_segment_gap, apply_loading_hold,
  consume_video_drop, frametime_video, pump_video, audio_duration, pump_audio,
}
use streamly.Streamer.Sender.Aligned.{
  IsAligned, apply_segment_gap-IsAligned, apply_loading_hold-IsAligned,
}

consume-IsAligned :
    (n : ℕ) (a v : ℤ) (s : Sender) (frame : List ℕ)
    → IsAligned n a v s
    → IsAligned n a v (consume_video_drop s frame).1
unfolding consume_video_drop
consume-IsAligned n a v s frame h =
    if_split {A = Bool × Sender} (λ x. IsAligned n a v x.1) (not s.drop_to_idr) (λ _. h)
      (λ _.
        if_split {A = Bool × Sender} (λ x. IsAligned n a v x.1) (h264_contains_idr frame)
          (λ _. record {
            is_open = h.is_open;
            skew = h.skew;
            paused = h.paused;
            loading = h.loading;
            found = h.found;
          })
          (λ _. h))

pub pump_video-IsAligned :
    (n : ℕ) (a v : ℤ) (fps : ℕ) (s : Sender) (frame : List ℕ) (pts now : ℤ)
    → IsAligned n a v s
    → IsAligned n a (v +ℤ frametime_video fps) (pump_video fps s frame pts now)
unfolding pump_video
pump_video-IsAligned n a v fps s frame pts now h =
    let held : Sender = apply_loading_hold (apply_segment_gap s now) now in
    let s' : Sender = (consume_video_drop held frame).1 in
    let d : ℤ = frametime_video fps in
    let c : ℤ = s'.pause_sent +ℤ s'.loading_sent in
    let k : IsAligned n a v s' = consume-IsAligned n a v held frame (
      apply_loading_hold-IsAligned n a v (apply_segment_gap s now) now
        (apply_segment_gap-IsAligned n a v s now h)) in
    if_split (IsAligned n a (v +ℤ d)) (consume_video_drop held frame).0
      (λ _.
        let m : _ = advance_video-Moved s'.peer d k.is_open in
        record {
          is_open = m.0;
          skew =
              skew-Moved s'.peer (advance_video s'.peer d) a v a (v +ℤ d) (pos 0) d c c m k.skew
                (packet_video d a v c);
          paused = k.paused;
          loading = k.loading;
          found = k.found;
        })
      (λ _.
        let m : _ = send_video-Moved s'.peer frame d k.is_open in
        record {
          is_open = m.0;
          skew =
              skew-Moved s'.peer (send_video s'.peer frame d) a v a (v +ℤ d) (pos 0) d c c m k.skew
                (packet_video d a v c);
          paused = k.paused;
          loading = k.loading;
          found = k.found;
        })

pub pump_audio-IsAligned :
    (n : ℕ) (a v : ℤ) (s : Sender) (duration pts now : ℤ)
    → IsAligned n a v s
    → IsAligned n (a +ℤ audio_duration duration) v (pump_audio s duration pts now)
unfolding pump_audio
pump_audio-IsAligned n a v s duration pts now h =
    let s' : Sender = apply_loading_hold (apply_segment_gap s now) now in
    let d : ℤ = audio_duration duration in
    let c : ℤ = s'.pause_sent +ℤ s'.loading_sent in
    let k : IsAligned n a v s' =
      apply_loading_hold-IsAligned n a v (apply_segment_gap s now) now
        (apply_segment_gap-IsAligned n a v s now h) in
    let m : _ = send_audio-Moved s'.peer d k.is_open in
    record {
      is_open = m.0;
      skew =
          skew-Moved s'.peer (send_audio s'.peer d) a v (a +ℤ d) v d (pos 0) c c m k.skew
            (packet_audio d a v c);
      paused = k.paused;
      loading = k.loading;
      found = k.found;
    }
