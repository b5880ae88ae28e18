-- ===== src/Streamer/Sender/Drops.antt =====
-- Which video frames reach the peer behind a card: none before the next IDR.
use mathlib.Core.Path.{ap₂}
use streamly.Prelude.{
  ◌&&◌, ℕ, ◌≡◌, ◌∙◌, sym, ap, refl, Bool, true, false, not, List, [], ◌∷◌, if◌then◌else◌, if_split,
  Option_split, Bool-cases, inl, inr,
}
use streamly.Prelude.Signed.{ℤ, pos, leb_ℤ}
use streamly.H264.Nal.{h264_contains_idr, rewrite_h264_sps}
use streamly.Streamer.Sender.{
  Peer, advance_audio, advance_video, send_video, advance_both, Sender, splice_gap,
  apply_segment_gap, apply_loading_hold, consume_video_drop, frametime_video, pump_video,
}

-- The packets of video that `pump` takes one after the other, each with its `PTS` and its time.
abbrev pub Packet : Type 0
Packet = List ℕ × ℤ × ℤ

abbrev pub pump_videos : ℕ → Sender → List Packet → Sender
pump_videos fps s [] = s
pump_videos fps s (p ∷ packets) = pump_videos fps (pump_video fps s p.0 p.1 p.2) packets

-- The packets from the first on whose frame has an IDR.
abbrev pub from_idr : List Packet → List Packet
from_idr [] = []
from_idr (p ∷ packets) = if h264_contains_idr p.0 then p ∷ packets else from_idr packets

abbrev pub kept : Bool → List Packet → List Packet
kept drop_to_idr packets = if drop_to_idr then from_idr packets else packets

-- The frames of packets, before those that were sent already, the last first.
abbrev pub sent_on : List Packet → List (List ℕ) → List (List ℕ)
sent_on [] frames = frames
sent_on (p ∷ packets) frames = sent_on packets (rewrite_h264_sps p.0 ∷ frames)

-- The peer has got no frame, and the drop is as it was.
abbrev IsQuiet : Sender → Sender → Type 0
IsQuiet s s' =
    (s'.peer.closed ≡ s.peer.closed)
    × (s'.peer.frames ≡ s.peer.frames)
    × (s'.drop_to_idr ≡ s.drop_to_idr)

abbrev SameFrames : Peer → Peer → Type 0
SameFrames p q = (q.closed ≡ p.closed) × (q.frames ≡ p.frames)

advance_audio-SameFrames : (p : Peer) (d : ℤ) → SameFrames p (advance_audio p d)
advance_audio-SameFrames p d =
    if_split (SameFrames p) p.closed (λ _. (refl, refl)) (λ _. (refl, refl))

advance_video-SameFrames : (p : Peer) (d : ℤ) → SameFrames p (advance_video p d)
advance_video-SameFrames p d =
    if_split (SameFrames p) p.closed (λ _. (refl, refl)) (λ _. (refl, refl))

advance_both-SameFrames : (p : Peer) (d : ℤ) → SameFrames p (advance_both p d)
advance_both-SameFrames p d =
    let a : _ = advance_audio-SameFrames p d in
    let b : _ = advance_video-SameFrames (advance_audio p d) d in (b.0 ∙ a.0, b.1 ∙ a.1)

send_video-sends :
    (p : Peer) (frame : List ℕ) (d : ℤ)
    → p.closed ≡ false
    → ((send_video p frame d).closed ≡ false)
      × ((send_video p frame d).frames ≡ rewrite_h264_sps frame ∷ p.frames)
send_video-sends p frame d o =
    if_split {A = Peer} (λ q. (q.closed ≡ false) × (q.frames ≡ rewrite_h264_sps frame ∷ p.frames))
      p.closed (λ e. absurd (cc (e, o))) (λ _. (o, refl))

apply_segment_gap-IsQuiet : (s : Sender) (now : ℤ) → IsQuiet s (apply_segment_gap s now)
unfolding apply_segment_gap
apply_segment_gap-IsQuiet s now =
    Option_split (IsQuiet s) (splice_gap s now) (λ _. (refl, refl, refl))
      (λ gap _. let p : _ = advance_both-SameFrames s.peer gap in (p.0, p.1, refl))

apply_loading_hold-IsQuiet : (s : Sender) (now : ℤ) → IsQuiet s (apply_loading_hold s now)
unfolding apply_loading_hold
apply_loading_hold-IsQuiet s now =
    if_split (IsQuiet s) (leb_ℤ s.loading_sent (pos 0)) (λ _. (refl, refl, refl))
      (λ _. let p : _ = advance_audio-SameFrames s.peer s.loading_sent in (p.0, p.1, refl))

abbrev drops : Sender → List ℕ → Bool
drops s frame = s.drop_to_idr && not (h264_contains_idr frame)

abbrev next_frames : Bool → List ℕ → List (List ℕ) → List (List ℕ)
next_frames dropped frame frames = if dropped then frames else rewrite_h264_sps frame ∷ frames

-- What one packet does to an open peer.
abbrev Pumped : Bool → List ℕ → List (List ℕ) → Sender → Type 0
Pumped dropped frame frames s' =
    (s'.peer.closed ≡ false)
    × (s'.drop_to_idr ≡ dropped)
    × (s'.peer.frames ≡ next_frames dropped frame frames)

abbrev Consumed : Sender → List ℕ → Bool × Sender → Type 0
Consumed s frame r = (r.0 ≡ drops s frame) × (r.1.drop_to_idr ≡ drops s frame) × (r.1.peer ≡ s.peer)

consume_video_drop-Consumed :
    (s : Sender) (frame : List ℕ) → Consumed s frame (consume_video_drop s frame)
unfolding consume_video_drop
consume_video_drop-Consumed s frame =
    if_split {A = Bool × Sender} (Consumed s frame) (not s.drop_to_idr)
      (λ e.
        let f : false ≡ drops s frame = no_drop s.drop_to_idr (h264_contains_idr frame) e in
        (f, not-true s.drop_to_idr e ∙ f, refl))
      (λ e.
        let d : s.drop_to_idr ≡ true = not-false s.drop_to_idr e in
        if_split {A = Bool × Sender} (Consumed s frame) (h264_contains_idr frame)
          (λ f.
            let g : false ≡ drops s frame = at_idr s.drop_to_idr (h264_contains_idr frame) f in
            (g, g, refl))
          (λ f.
            let g : true ≡ drops s frame = before_idr s.drop_to_idr (h264_contains_idr frame) d f in
            (g, d ∙ g, refl)))
  where
    not-true : (d : Bool) → not d ≡ true → d ≡ false
    not-true true e = cc e
    not-true false e = refl

    not-false : (d : Bool) → not d ≡ false → d ≡ true
    not-false true e = refl
    not-false false e = cc e

    no_drop : (d c : Bool) → not d ≡ true → false ≡ (d && not c)
    no_drop true c e = cc e
    no_drop false c e = refl

    at_idr : (d c : Bool) → c ≡ true → false ≡ (d && not c)
    at_idr true true e = refl
    at_idr true false e = cc e
    at_idr false c e = refl

    before_idr : (d c : Bool) → d ≡ true → c ≡ false → true ≡ (d && not c)
    before_idr true true e f = cc f
    before_idr true false e f = refl
    before_idr false c e f = cc e

pump_video-Pumped :
    (fps : ℕ) (s : Sender) (frame : List ℕ) (pts now : ℤ)
    → s.peer.closed ≡ false
    → Pumped (drops s frame) frame s.peer.frames (pump_video fps s frame pts now)
unfolding pump_video
pump_video-Pumped fps s frame pts now o =
    let gapped : Sender = apply_segment_gap s now in
    let held : Sender = apply_loading_hold gapped now in
    let q : IsQuiet s gapped = apply_segment_gap-IsQuiet s now in
    let q' : IsQuiet gapped held = apply_loading_hold-IsQuiet gapped now in
    let c : Consumed held frame (consume_video_drop held frame) =
      consume_video_drop-Consumed held frame in
    let s' : Sender = (consume_video_drop held frame).1 in
    let same : drops held frame ≡ drops s frame =
      ap (λ d. d && not (h264_contains_idr frame)) (q'.2 ∙ q.2) in
    let frames : s'.peer.frames ≡ s.peer.frames = ap (λ p. p.frames) c.2 ∙ q'.1 ∙ q.1 in
    let is_open : s'.peer.closed ≡ false = ap (λ p. p.closed) c.2 ∙ q'.0 ∙ q.0 ∙ o in
    let d : ℤ = frametime_video fps in
    if_split (Pumped (drops s frame) frame s.peer.frames) (consume_video_drop held frame).0
      (λ e.
        let p : SameFrames s'.peer (advance_video s'.peer d) = advance_video-SameFrames s'.peer d in
        let is_dropped : drops s frame ≡ true = sym same ∙ sym c.0 ∙ e in
        (
          p.0 ∙ is_open,
          c.1 ∙ same,
          p.1 ∙ frames ∙ sym (ap (λ b. next_frames b frame s.peer.frames) is_dropped),
        ))
      (λ e.
        let is_sent : drops s frame ≡ false = sym same ∙ sym c.0 ∙ e in
        let p : _ = send_video-sends s'.peer frame d is_open in
        (
          p.0,
          c.1 ∙ same,
          p.1
              ∙ ap (◌∷◌ (rewrite_h264_sps frame)) frames
              ∙ sym (ap (λ b. next_frames b frame s.peer.frames) is_sent),
        ))

kept-step :
    (d : Bool) (p : Packet) (packets : List Packet) (frames : List (List ℕ))
    → let dropped = d && not (h264_contains_idr p.0) in
      sent_on (kept dropped packets) (next_frames dropped p.0 frames)
      ≡ sent_on (kept d (p ∷ packets)) frames
kept-step false p packets frames = refl
kept-step true p packets frames = elim (Bool-cases (h264_contains_idr p.0)) [
  | inl e ↦ rw e refl
  | inr e ↦ rw e refl
]

-- The video frames that reach an open peer are, if frames are being dropped, those from the first
-- one with an IDR on, else all of them, in order and with their parameter sets rewritten.
pub pump_videos-frames :
    (fps : ℕ) (s : Sender) (packets : List Packet)
    → s.peer.closed ≡ false
    → (pump_videos fps s packets).peer.frames ≡ sent_on (kept s.drop_to_idr packets) s.peer.frames
pump_videos-frames fps s [] o = elim (Bool-cases s.drop_to_idr) [
  | inl e ↦ rw e refl
  | inr e ↦ rw e refl
]
pump_videos-frames fps s (p ∷ packets) o =
    let s' : Sender = pump_video fps s p.0 p.1 p.2 in
    let k : _ = pump_video-Pumped fps s p.0 p.1 p.2 o in
    pump_videos-frames fps s' packets k.0
    ∙ ap₂ (λ d f. sent_on (kept d packets) f) k.1 k.2
    ∙ kept-step s.drop_to_idr p packets s.peer.frames
