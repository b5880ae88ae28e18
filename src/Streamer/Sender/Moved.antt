-- ===== src/Streamer/Sender/Moved.antt =====
-- The peer's timelines, the durations of the cards, and the sums that the alignment is made of.
use mathlib.Core.Path.{subst}
use streamly.Prelude.{
  ℕ, suc, ◌*◌, ◌≤◌, ◌<◌, ◌^◌, ◌≡◌, ◌≢◌, inl, inr, ◌∙◌, sym, ap, refl, true, false, List, length,
  if_split, Bool-cases, arith,
}
use streamly.Prelude.Signed.{
  ℤ, pos, negsuc, pos_part, neg_part, ◌+ℤ◌, ◌-ℤ◌, ltb_ℤ, leb_ℤ, wrap64, wrap64_of_fits, Fits64,
  Fits64-of_parts, int_laws, eq_of_parts, +ℤ_parts, -ℤ_parts,
}
use streamly.Streamer.Sender.{
  Peer, advance_audio, advance_video, send_video, send_audio, pause_frame_interval, video_gap,
  audio_gap, skip_pause,
}

-- Cards were sent for at most n times half a second.
abbrev pub Counted : ℕ → ℤ → Type 0
Counted n d = (neg_part d ≡ 0) × (pos_part d ≤ n * 500_000_000)

pub Counted-more : (n : ℕ) (d : ℤ) → Counted n d → Counted (suc n) d
Counted-more n d (h, k) = (h, omega arith)

-- One card more; n is far from where the sum wraps around.
pub Counted-card :
    (n : ℕ) (d : ℤ)
    → n < 2 ^ 30
    → Counted n d
    → (wrap64 (d +ℤ pause_frame_interval) ≡ d +ℤ pause_frame_interval)
      × Counted (suc n) (wrap64 (d +ℤ pause_frame_interval))
Counted-card n d (l) (h, k) =
    let sum : ℤ = d +ℤ pause_frame_interval in
    let none_below : neg_part sum ≡ 0 =
      below sum (omega (arith, +ℤ_parts d pause_frame_interval)) in
    let at_most : pos_part sum ≤ suc n * 500_000_000 =
      omega (arith, +ℤ_parts d pause_frame_interval) in
    let same : wrap64 sum ≡ sum = wrap64_of_fits sum (omega arith, omega arith) in
    (same, subst (Counted (suc n)) (sym same) (none_below, at_most))
  where
    below : (x : ℤ) → neg_part x ≤ pos_part x → neg_part x ≡ 0
    below (pos m) e = refl
    below (negsuc m) e = absurd (omega arith)

pub card_pause : (i a v p l : ℤ) → i +ℤ a +ℤ v +ℤ (p +ℤ l) ≡ pos 0 +ℤ v +ℤ a +ℤ (p +ℤ i +ℤ l)
card_pause i a v p l = grind int_laws

pub card_loading : (i a v p l : ℤ) → i +ℤ a +ℤ v +ℤ (p +ℤ l) ≡ pos 0 +ℤ v +ℤ a +ℤ (p +ℤ (l +ℤ i))
card_loading i a v p l = grind int_laws

pub hold : (a v p l : ℤ) → pos 0 +ℤ a +ℤ v +ℤ (p +ℤ l) ≡ l +ℤ v +ℤ a +ℤ (p +ℤ pos 0)
hold a v p l = grind int_laws

pub pause_gaps :
    (da dv a v p l : ℤ) → dv +ℤ p ≡ da → dv +ℤ a +ℤ v +ℤ (p +ℤ l) ≡ da +ℤ v +ℤ a +ℤ (pos 0 +ℤ l)
pause_gaps da dv a v p l e = rw⁻¹ e (grind int_laws)

pub packet_video : (d a v c : ℤ) → d +ℤ a +ℤ v +ℤ c ≡ pos 0 +ℤ (v +ℤ d) +ℤ a +ℤ c
packet_video d a v c = grind int_laws

pub packet_audio : (d a v c : ℤ) → pos 0 +ℤ (a +ℤ d) +ℤ v +ℤ c ≡ d +ℤ v +ℤ a +ℤ c
packet_audio d a v c = grind int_laws

pub Counted-zero : (n : ℕ) → Counted n (pos 0)
Counted-zero n = (refl, omega arith)

pub zero_of : (d : ℤ) → neg_part d ≡ 0 → leb_ℤ d (pos 0) ≡ true → d ≡ pos 0
zero_of (pos n) h e = ap pos (ground (arith, e))
zero_of (negsuc n) h e = absurd (omega arith)

-- The peer is open, and every send to it succeeds.
abbrev pub Sends : Peer → Type 0
Sends p =
    (p.closed ≡ false) × (((k : ℕ) → p.video_sends k ≡ true) × ((k : ℕ) → p.audio_sends k ≡ true))

-- The peer's timelines went on by da and dv.
abbrev pub Moved : Peer → ℤ → ℤ → Peer → Type 0
Moved p da dv q = Sends q × (q.audio ≡ p.audio +ℤ da) × (q.video ≡ p.video +ℤ dv)

+ℤ-zero : (x : ℤ) → x ≡ x +ℤ pos 0
+ℤ-zero x = grind int_laws

pub true-ne-false : true ≢ false
true-ne-false e = cc e

pub advance_audio-Moved : (p : Peer) (d : ℤ) → Sends p → Moved p d (pos 0) (advance_audio p d)
advance_audio-Moved p d o =
    if_split (Moved p d (pos 0)) p.closed (λ e. absurd (true-ne-false (sym e ∙ o.0)))
      (λ _. (o, refl, +ℤ-zero p.video))

pub advance_video-Moved : (p : Peer) (d : ℤ) → Sends p → Moved p (pos 0) d (advance_video p d)
advance_video-Moved p d o =
    if_split (Moved p (pos 0) d) p.closed (λ e. absurd (true-ne-false (sym e ∙ o.0)))
      (λ _. (o, +ℤ-zero p.audio, refl))

pub send_video-Moved :
    (p : Peer) (frame : List ℕ) (d : ℤ) → Sends p → Moved p (pos 0) d (send_video p frame d)
send_video-Moved p frame d o =
    if_split (Moved p (pos 0) d) p.closed (λ e. absurd (true-ne-false (sym e ∙ o.0)))
      (λ _. (o, +ℤ-zero p.audio, rw (o.1.0 (length p.frames)) refl))

pub send_audio-Moved : (p : Peer) (d : ℤ) → Sends p → Moved p d (pos 0) (send_audio p d)
send_audio-Moved p d o =
    if_split (Moved p d (pos 0)) p.closed (λ e. absurd (true-ne-false (sym e ∙ o.0)))
      (λ _. (o, rw (o.1.1 p.audio_packets) refl, +ℤ-zero p.video))

join_skips : (x a b : ℤ) (y z : ℤ) → y ≡ x +ℤ a → z ≡ y +ℤ b → z ≡ x +ℤ (a +ℤ b)
join_skips x a b y z e f = f ∙ ap (λ w. w +ℤ b) e ∙ grind int_laws

pub Moved-twice :
    (p q r : Peer) (a v b w : ℤ) → Moved p a v q → Moved q b w r → Moved p (a +ℤ b) (v +ℤ w) r
Moved-twice p q r a v b w (_, x, y) (o, x', y') =
    (o, join_skips p.audio a b q.audio r.audio x x', join_skips p.video v w q.video r.video y y')

-- The rest of a state whose timelines went on; what the cards count is c before and c' after.
rebalance :
    (pv pa a v a' v' da dv c c' : ℤ)
    → pv +ℤ a ≡ pa +ℤ v +ℤ c
    → dv +ℤ a' +ℤ v +ℤ c ≡ da +ℤ v' +ℤ a +ℤ c'
    → pv +ℤ dv +ℤ a' ≡ pa +ℤ da +ℤ v' +ℤ c'
rebalance pv pa a v a' v' da dv c c' h e =
    let h0 : pos_part (pv +ℤ a) ≡ pos_part (pa +ℤ v +ℤ c) = ap pos_part h in
    let h1 : neg_part (pv +ℤ a) ≡ neg_part (pa +ℤ v +ℤ c) = ap neg_part h in
    let e0 : pos_part (dv +ℤ a' +ℤ v +ℤ c) ≡ pos_part (da +ℤ v' +ℤ a +ℤ c') = ap pos_part e in
    let e1 : neg_part (dv +ℤ a' +ℤ v +ℤ c) ≡ neg_part (da +ℤ v' +ℤ a +ℤ c') = ap neg_part e in
    eq_of_parts (pv +ℤ dv +ℤ a') (pa +ℤ da +ℤ v' +ℤ c') (
      omega (
        arith,
        +ℤ_parts pv a,
        +ℤ_parts pa v,
        +ℤ_parts (pa +ℤ v) c,
        +ℤ_parts dv a',
        +ℤ_parts (dv +ℤ a') v,
        +ℤ_parts (dv +ℤ a' +ℤ v) c,
        +ℤ_parts da v',
        +ℤ_parts (da +ℤ v') a,
        +ℤ_parts (da +ℤ v' +ℤ a) c',
        +ℤ_parts pv dv,
        +ℤ_parts (pv +ℤ dv) a',
        +ℤ_parts pa da,
        +ℤ_parts (pa +ℤ da) v',
        +ℤ_parts (pa +ℤ da +ℤ v') c',
      ))

pub skew-Moved :
    (p q : Peer) (a v a' v' da dv c c' : ℤ)
    → Moved p da dv q
    → p.video +ℤ a ≡ p.audio +ℤ v +ℤ c
    → dv +ℤ a' +ℤ v +ℤ c ≡ da +ℤ v' +ℤ a +ℤ c'
    → q.video +ℤ a' ≡ q.audio +ℤ v' +ℤ c'
skew-Moved p q a v a' v' da dv c c' (_, x, y) h e =
    rw (x, y) (rebalance p.video p.audio a v a' v' da dv c c' h e)

take_back : (d s : ℤ) → d -ℤ (d -ℤ s) ≡ s
take_back d s = grind int_laws

-- Both gaps of a pause, with the cards that were sent, are one duration.
pub gaps-match :
    (n : ℕ) (duration sent : ℤ)
    → n < 2 ^ 31
    → Fits64 duration
    → leb_ℤ duration (pos 0) ≡ false
    → Counted n sent
    → video_gap duration sent +ℤ sent ≡ audio_gap duration sent
gaps-match n duration sent l f e c =
    let gap : ℤ = duration -ℤ sent in
    let positive : neg_part duration < pos_part duration = ground (arith, e) in
    let fits : Fits64 gap =
      Fits64-of_parts gap (omega (arith, -ℤ_parts duration sent))
        (omega (arith, -ℤ_parts duration sent)) in
    let same : wrap64 gap ≡ gap = wrap64_of_fits gap fits in
    elim (Bool-cases (ltb_ℤ gap (pos 0))) [
      | inl f ↦
          let back : wrap64 (duration -ℤ gap) ≡ sent =
            ap wrap64 (take_back duration sent) ∙ wrap64_of_fits sent (omega arith, omega arith) in
          rw (same, f, back) (grind int_laws)
      | inr f ↦ rw (same, f) (grind int_laws)
    ]

zero-+ℤ : (x : ℤ) → pos 0 +ℤ x ≡ x
zero-+ℤ x = grind int_laws

video_gap-zero :
    (duration sent : ℤ)
    → ltb_ℤ (pos 0) (video_gap duration sent) ≡ false
    → video_gap duration sent ≡ pos 0
video_gap-zero duration sent =
    let gap : ℤ = wrap64 (duration -ℤ sent) in
    if_split (λ x. ltb_ℤ (pos 0) x ≡ false → x ≡ pos 0) (ltb_ℤ gap (pos 0)) (λ _ _. refl)
      (λ e f. eq_of_parts gap (pos 0) (ground (arith, e, f)))

pub skip_pause-Moved :
    (p : Peer) (duration sent : ℤ)
    → Sends p
    → Moved p (audio_gap duration sent) (video_gap duration sent) (skip_pause p duration sent)
skip_pause-Moved p duration sent o =
    let da : ℤ = audio_gap duration sent in
    let dv : ℤ = video_gap duration sent in
    let p' : Peer = advance_audio p da in
    let m : Moved p da (pos 0) p' = advance_audio-Moved p da o in
    if_split (Moved p da dv) (ltb_ℤ (pos 0) dv)
      (λ _.
        let m' : _ =
          Moved-twice p p' (advance_video p' dv) da (pos 0) (pos 0) dv m
            (advance_video-Moved p' dv m.0) in
        (
          m'.0,
          m'.1 ∙ ap (λ x. p.audio +ℤ x) (sym (+ℤ-zero da)),
          m'.2 ∙ ap (λ x. p.video +ℤ x) (zero-+ℤ dv),
        ))
      (λ e. (m.0, m.1, m.2 ∙ ap (λ x. p.video +ℤ x) (sym (video_gap-zero duration sent e))))
