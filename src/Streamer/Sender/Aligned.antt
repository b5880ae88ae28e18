-- ===== src/Streamer/Sender/Aligned.antt =====
-- Audio and video stay aligned over pauses, cards, drops and splices.
use mathlib.Core.Path.{subst}
use streamly.Prelude.{
  ℕ, suc, ◌<◌, ◌^◌, ◌≡◌, ◌⊎◌, inl, inr, ◌∙◌, sym, refl, true, Option, none, some, List, ◌==◌,
  if_split, Option_split,
}
use streamly.Prelude.Signed.{ℤ, pos, ◌+ℤ◌, leb_ℤ, wrap64, Fits64, int_laws}
use streamly.Streamer.Sender.Moved.{
  Sends, Counted, Counted-more, Counted-card, card_pause, card_loading, hold, pause_gaps,
  Counted-zero, zero_of, Moved, true-ne-false, advance_audio-Moved, advance_video-Moved,
  send_video-Moved, Moved-twice, skew-Moved, gaps-match, skip_pause-Moved,
}
use streamly.Streamer.Sender.{
  Peer, advance_audio, send_video, Sender, pause_frame_interval, splice_gap, advance_both,
  apply_segment_gap, send_pause_frame, send_loading_frame, apply_loading_hold, video_gap, audio_gap,
  skip_pause, apply_pause_event,
}

-- The video timeline is ahead of the audio timeline by what their packets differ by, and by the
-- cards that are not yet accounted for; a and v are the durations of the packets of audio and
-- video.
pub record IsAligned (n : ℕ) (a v : ℤ) (s : Sender) : Type 0 where
  pub is_open : Sends s.peer
  pub skew : s.peer.video +ℤ a ≡ s.peer.audio +ℤ v +ℤ (s.pause_sent +ℤ s.loading_sent)
  pub paused : Counted n s.pause_sent
  pub loading : Counted n s.loading_sent
  pub found : (s.active ≡ true) ⊎ (s.pause_sent ≡ pos 0)

moved_both : (a v c gap : ℤ) → (pos 0 +ℤ gap) +ℤ a +ℤ v +ℤ c ≡ (gap +ℤ pos 0) +ℤ v +ℤ a +ℤ c
moved_both a v c gap = grind int_laws

pub apply_segment_gap-IsAligned :
    (n : ℕ) (a v : ℤ) (s : Sender) (now : ℤ)
    → IsAligned n a v s
    → IsAligned n a v (apply_segment_gap s now)
unfolding apply_segment_gap
apply_segment_gap-IsAligned n a v s now h =
    Option_split (IsAligned n a v) (splice_gap s now)
      (λ _. record {
        is_open = h.is_open;
        skew = h.skew;
        paused = h.paused;
        loading = h.loading;
        found = inl refl;
      })
      (λ gap _.
        let p : Peer = s.peer in
        let p' : Peer = advance_audio p gap in
        let m : Moved p gap (pos 0) p' = advance_audio-Moved p gap h.is_open in
        let m' : Moved p (gap +ℤ pos 0) (pos 0 +ℤ gap) (advance_both p gap) =
          Moved-twice p p' (advance_both p gap) gap (pos 0) (pos 0) gap m
            (advance_video-Moved p' gap m.0) in
        record {
          is_open = m'.0;
          skew =
              skew-Moved p (advance_both p gap) a v a v (gap +ℤ pos 0) (pos 0 +ℤ gap)
                (s.pause_sent +ℤ s.loading_sent) (s.pause_sent +ℤ s.loading_sent) m' h.skew
                (moved_both a v (s.pause_sent +ℤ s.loading_sent) gap);
          paused = h.paused;
          loading = h.loading;
          found = inl refl;
        })

segment_gap-active : (s : Sender) (now : ℤ) → (apply_segment_gap s now).active ≡ true
unfolding apply_segment_gap
segment_gap-active s now =
    Option_split {A = Sender} (λ x. x.active ≡ true) (splice_gap s now) (λ _. refl) (λ _ _. refl)

pub send_pause_frame-IsAligned :
    (n : ℕ) (a v : ℤ) (s : Sender) (frame : Option (List ℕ)) (now : ℤ)
    → n < 2 ^ 30
    → IsAligned n a v s
    → IsAligned (suc n) a v (send_pause_frame s frame now)
unfolding send_pause_frame
send_pause_frame-IsAligned n a v s none now l h = record {
  is_open = h.is_open;
  skew = h.skew;
  paused = Counted-more n s.pause_sent h.paused;
  loading = Counted-more n s.loading_sent h.loading;
  found = h.found;
}
send_pause_frame-IsAligned n a v s (some frame) now l h =
    let s' : Sender = apply_segment_gap s now in
    let h' : IsAligned n a v s' = apply_segment_gap-IsAligned n a v s now h in
    let c : _ = Counted-card n s'.pause_sent l h'.paused in
    let m : _ = send_video-Moved s'.peer frame pause_frame_interval h'.is_open in
    record {
      is_open = m.0;
      skew =
          skew-Moved s'.peer (send_video s'.peer frame pause_frame_interval) a v a v (pos 0)
            pause_frame_interval (s'.pause_sent +ℤ s'.loading_sent)
            (wrap64 (s'.pause_sent +ℤ pause_frame_interval) +ℤ s'.loading_sent) m h'.skew
            (rw c.0 (card_pause pause_frame_interval a v s'.pause_sent s'.loading_sent));
      paused = c.1;
      loading = Counted-more n s'.loading_sent h'.loading;
      found = inl (segment_gap-active s now);
    }

pub send_loading_frame-IsAligned :
    (n : ℕ) (a v : ℤ) (s : Sender) (frame : Option (List ℕ)) (now : ℤ)
    → n < 2 ^ 30
    → IsAligned n a v s
    → IsAligned (suc n) a v (send_loading_frame s frame now)
unfolding send_loading_frame
send_loading_frame-IsAligned n a v s none now l h = record {
  is_open = h.is_open;
  skew = h.skew;
  paused = Counted-more n s.pause_sent h.paused;
  loading = Counted-more n s.loading_sent h.loading;
  found = h.found;
}
send_loading_frame-IsAligned n a v s (some frame) now l h =
    let s' : Sender = apply_segment_gap s now in
    let h' : IsAligned n a v s' = apply_segment_gap-IsAligned n a v s now h in
    let c : _ = Counted-card n s'.loading_sent l h'.loading in
    let m : _ = send_video-Moved s'.peer frame pause_frame_interval h'.is_open in
    record {
      is_open = m.0;
      skew =
          skew-Moved s'.peer (send_video s'.peer frame pause_frame_interval) a v a v (pos 0)
            pause_frame_interval (s'.pause_sent +ℤ s'.loading_sent)
            (s'.pause_sent +ℤ wrap64 (s'.loading_sent +ℤ pause_frame_interval)) m h'.skew
            (rw c.0 (card_loading pause_frame_interval a v s'.pause_sent s'.loading_sent));
      paused = Counted-more n s'.pause_sent h'.paused;
      loading = c.1;
      found = inl (segment_gap-active s now);
    }

pub apply_loading_hold-IsAligned :
    (n : ℕ) (a v : ℤ) (s : Sender) (now : ℤ)
    → IsAligned n a v s
    → IsAligned n a v (apply_loading_hold s now)
unfolding apply_loading_hold
apply_loading_hold-IsAligned n a v s now h =
    if_split (IsAligned n a v) (leb_ℤ s.loading_sent (pos 0))
      (λ e.
        let is_zero : s.loading_sent ≡ pos 0 = zero_of s.loading_sent h.loading.0 e in
        record {
          is_open = h.is_open;
          skew =
              subst (λ x. s.peer.video +ℤ a ≡ s.peer.audio +ℤ v +ℤ (s.pause_sent +ℤ x)) is_zero
                h.skew;
          paused = h.paused;
          loading = Counted-zero n;
          found = h.found;
        })
      (λ _.
        let m : _ = advance_audio-Moved s.peer s.loading_sent h.is_open in
        record {
          is_open = m.0;
          skew =
              skew-Moved s.peer (advance_audio s.peer s.loading_sent) a v a v s.loading_sent (pos 0)
                (s.pause_sent +ℤ s.loading_sent) (s.pause_sent +ℤ pos 0) m h.skew
                (hold a v s.pause_sent s.loading_sent);
          paused = h.paused;
          loading = Counted-zero n;
          found = h.found;
        })

pub apply_pause_event-IsAligned :
    (n : ℕ) (a v : ℤ) (s : Sender) (duration : ℤ) (epoch : ℕ) (now : ℤ)
    → n < 2 ^ 31
    → Fits64 duration
    → IsAligned n a v s
    → IsAligned n a v (apply_pause_event s (duration, epoch) now)
unfolding apply_pause_event
apply_pause_event-IsAligned n a v s duration epoch now l f h =
    if_split (IsAligned n a v) (epoch == s.pause_epoch) (λ _. h)
      (λ _.
        if_split (IsAligned n a v) (leb_ℤ duration (pos 0))
          (λ _. record {
            is_open = h.is_open;
            skew = h.skew;
            paused = h.paused;
            loading = h.loading;
            found = h.found;
          })
          (λ e.
            if_split (IsAligned n a v) s.active
              (λ _.
                let da : ℤ = audio_gap duration s.pause_sent in
                let dv : ℤ = video_gap duration s.pause_sent in
                let m : _ = skip_pause-Moved s.peer duration s.pause_sent h.is_open in
                record {
                  is_open = m.0;
                  skew =
                      skew-Moved s.peer (skip_pause s.peer duration s.pause_sent) a v a v da dv
                        (s.pause_sent +ℤ s.loading_sent) (pos 0 +ℤ s.loading_sent) m h.skew
                        (pause_gaps da dv a v s.pause_sent s.loading_sent
                          (gaps-match n duration s.pause_sent l f e h.paused));
                  paused = Counted-zero n;
                  loading = h.loading;
                  found = inr refl;
                })
              (λ g.
                let none_sent : s.pause_sent ≡ pos 0 = elim h.found [
                  | inl t ↦ absurd (true-ne-false (sym t ∙ g))
                  | inr z ↦ z
                ] in
                record {
                  is_open = h.is_open;
                  skew =
                      subst (λ x. s.peer.video +ℤ a ≡ s.peer.audio +ℤ v +ℤ (x +ℤ s.loading_sent))
                        none_sent h.skew;
                  paused = Counted-zero n;
                  loading = h.loading;
                  found = inr refl;
                })))
