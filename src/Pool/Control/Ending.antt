-- ===== src/Pool/Control/Ending.antt =====
-- What the end of `runLoop` in internal/pool/pool.go leaves, by release or for a hot swap.
use mathlib.Core.Path.{subst}
use streamly.Prelude.{
  ℕ, Bool, true, false, not, ◌&&◌, Option, none, some, List, [], ◌∷◌, ◌++◌, ◌≡◌, inl, inr, refl,
  sym, Bool-cases, All, All-append, Any,
}
use streamly.Pool.Session.{
  Session, Request, Effect, cancel, destroy, leave_voice, clear_voice_hook, close_loop,
  call_near_end, call_close, swapped,
}
use streamly.Pool.Control.{
  Acts, end_loop, teardown_for_swap, release, each, when, close_reason, removed_file, is_ended,
}

abbrev pub IsLeave : Effect → Type 0
IsLeave leave_voice = Unit
IsLeave _ = ⊥

abbrev pub StaysInVoice : Effect → Type 0
StaysInVoice leave_voice = ⊥
StaysInVoice clear_voice_hook = ⊥
StaysInVoice _ = Unit

-- The session after the loop's end, and what was called.
pub data Leaving (s : Session) : Acts → Type 0 where
  swaps :
      (s' : Session) (acts : List Effect)
      → s.swapping ≡ true
      → All StaysInVoice acts
      → s'.busy ≡ s.busy
      → s'.request ≡ s.request
      → s'.controller ≡ none
      → s'.pending_seek ≡ none
      → Leaving s (s', acts)
  frees :
      (s' : Session) (acts : List Effect)
      → s.swapping ≡ false
      → Any IsLeave acts
      → s'.busy ≡ false
      → s'.request ≡ none
      → s'.controller ≡ none
      → s'.pending_seek ≡ none
      → Leaving s (s', acts)

each-All :
    {A : Type 0} (P : Effect → Type 0) (o : Option A) (f : A → Effect)
    → ((a : A) → P (f a))
    → All P (each o f)
each-All P none f h = tt
each-All P (some a) f h = (h a, tt)

when-All : (P : Effect → Type 0) (b : Bool) (e : Effect) → P e → All P (when b e)
when-All P true e h = (h, tt)
when-All P false e h = tt

Any-right : (P : Effect → Type 0) (l k : List Effect) → Any P k → Any P (l ++ k)
Any-right P [] k h = h
Any-right P (x ∷ l) k h = inr (Any-right P l k h)

Any-left : (P : Effect → Type 0) (l k : List Effect) → Any P l → Any P (l ++ k)
Any-left P [] k h = absurd h
Any-left P (x ∷ l) k (inl h) = inl h
Any-left P (x ∷ l) k (inr h) = inr (Any-left P l k h)

release-leaves : (s : Session) → Any IsLeave (release s).1
unfolding release
release-leaves s = Any-right IsLeave (each s.controller cancel) _ (
    Any-right IsLeave (each s.media destroy) _
      (Any-right IsLeave (removed_file s.captions) _ (inr (inl tt))))

swap_acts : Session → Request → ℕ → Option ℕ → List Effect
swap_acts s r c closing =
    cancel c
    ∷ (each s.media destroy ++ (when r.on_close (call_close swapped) ++ each closing close_loop))

swap_acts-StaysInVoice :
    (s : Session) (r : Request) (c : ℕ) (closing : Option ℕ)
    → All StaysInVoice (swap_acts s r c closing)
unfolding swap_acts
swap_acts-StaysInVoice s r c closing = (
  tt,
  All-append _ (each s.media destroy) _ (each-All _ s.media destroy (λ a. tt)) (
      All-append _ (when r.on_close (call_close swapped)) _
        (when-All _ r.on_close (call_close swapped) tt) (each-All _ closing close_loop (λ a. tt))),
)

end_swap :
    (s : Session) (r : Request) (failed : Bool) (c : ℕ) (closing : Option ℕ)
    → s.swapping ≡ true
    → end_loop s r failed c closing ≡ ((teardown_for_swap s).0, swap_acts s r c closing)
unfolding end_loop teardown_for_swap swap_acts
end_swap s r failed c closing w = simp w

free_acts : Session → Request → Bool → ℕ → Option ℕ → List Effect
free_acts s r failed c closing =
    let reason = close_reason s.stop_requested failed in
    cancel c
    ∷ (when (is_ended reason && (r.on_near_end && not s.near_end_triggered)) call_near_end
        ++ ((release s).1 ++ (each closing close_loop ++ when r.on_close (call_close reason))))

free_acts-leaves :
    (s : Session) (r : Request) (failed : Bool) (c : ℕ) (closing : Option ℕ)
    → Any IsLeave (free_acts s r failed c closing)
unfolding free_acts
free_acts-leaves s r failed c closing =
    inr (Any-right IsLeave _ _ (Any-left IsLeave (release s).1 _ (release-leaves s)))

end_free :
    (s : Session) (r : Request) (failed : Bool) (c : ℕ) (closing : Option ℕ)
    → s.swapping ≡ false
    → end_loop s r failed c closing ≡ ((release s).0, free_acts s r failed c closing)
unfolding end_loop free_acts
end_free s r failed c closing w = simp w

-- Where a hot swap has marked the session, the loop's end stays in the voice channel and keeps the
-- session busy, with its request; else it leaves the channel and frees the session. Either way no
-- context and no seek of the old stream is left.
pub end_loop-Leaving :
    (s : Session) (r : Request) (failed : Bool) (c : ℕ) (closing : Option ℕ)
    → Leaving s (end_loop s r failed c closing)
unfolding teardown_for_swap release
end_loop-Leaving s r failed c closing = elim (Bool-cases s.swapping) [
  | inl w ↦ subst (Leaving s) (sym (end_swap s r failed c closing w)) (
      swaps (teardown_for_swap s).0 (swap_acts s r c closing) w
        (swap_acts-StaysInVoice s r c closing) refl refl refl refl)
  | inr w ↦ subst (Leaving s) (sym (end_free s r failed c closing w)) (
      frees (release s).0 (free_acts s r failed c closing) w (free_acts-leaves s r failed c closing)
        refl refl refl refl)
]
