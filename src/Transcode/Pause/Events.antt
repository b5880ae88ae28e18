-- ===== src/Transcode/Pause/Events.antt =====
-- What the sender learns of the pauses of a transcode.
use streamly.Prelude.{◌+◌, ◌%◌, ◌^◌, ◌<◌, ◌≡◌, refl, true, false, some, ◌==◌, arith}
use streamly.Prelude.Signed.{ℤ, pos}
use streamly.Pool.Session.{sub_time}
use streamly.Transcode.Pause.{PauseState, pause, resume, event}

pause_eq :
    (p : PauseState) (t : ℤ)
    → p.paused ≡ false
    → pause p t ≡ record p { paused = true; since = some t }
unfolding pause
pause_eq p t e = simp e

-- From a running state: pausing at t and again later, and resuming at t' and again later, reports
-- the one pause from t to t', under the next epoch, to who has seen the epoch before; who has seen
-- the next one gets nothing, and neither does anyone during the pause.
pause-resume-event :
    (p : PauseState) (t u t' u' : ℤ)
    → p.paused ≡ false
    → p.epoch < 2 ^ 64
    → let q = pause (pause p t) u in
      let r = resume (resume q t') u' in
      (event q p.epoch ≡ (pos 0, p.epoch))
      × ((event r p.epoch ≡ (sub_time t' t, (p.epoch + 1) % 2 ^ 64))
          × (event r ((p.epoch + 1) % 2 ^ 64) ≡ (pos 0, (p.epoch + 1) % 2 ^ 64)))
unfolding pause resume event
pause-resume-event p t u t' u' h l =
    let next : ((p.epoch + 1) % 2 ^ 64 == p.epoch) ≡ false = ground arith in
    let same : (p.epoch == p.epoch) ≡ true = ground arith in
    let same' : ((p.epoch + 1) % 2 ^ 64 == (p.epoch + 1) % 2 ^ 64) ≡ true = ground arith in
    rw (pause_eq p t h) (rw same refl, (rw next refl, rw same' refl))
