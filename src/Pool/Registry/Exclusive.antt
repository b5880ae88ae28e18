-- ===== src/Pool/Registry/Exclusive.antt =====
-- `Acquire` of internal/pool/pool.go against the pool's other operations, and against `Release`.
use mathlib.Core.Path.{subst}
use streamly.Prelude.{true, false, none, some, ◌≡◌, refl, sym, inl, inr, Bool-cases, Option-cases}
use streamly.Prelude.Text.{Text, eq_text_refl}
use streamly.Pool.Session.{Session, new_session}
use streamly.Pool.Control.{release}
use streamly.Pool.Registry.{
  Pool, no_worker, worker_busy, Acquired, ok, err, acquire, acquired, require_available, put,
  active_in_guild,
}

put_same : (p : Pool) (g : Text) (s : Session) → put p g s g ≡ some s
unfolding put
put_same p g s = rw (eq_text_refl g) refl

-- What `acquire` answers at a guild.
pub data AcquireAnswer (p : Pool) (g : Text) : Acquired → Type 0 where
  missing : p g ≡ none → require_available p g ≡ some no_worker → AcquireAnswer p g (err no_worker)
  taken :
      (s : Session)
      → p g ≡ some s
      → s.busy ≡ true
      → require_available p g ≡ some worker_busy
      → AcquireAnswer p g (err worker_busy)
  granted :
      (s : Session) (p' : Pool)
      → require_available p g ≡ none
      → acquire p' g ≡ err worker_busy
      → require_available p' g ≡ some worker_busy
      → active_in_guild p' g ≡ some s
      → AcquireAnswer p g (ok p' s)

by : (p : Pool) (g : Text) {x y : Acquired} → x ≡ y → AcquireAnswer p g y → AcquireAnswer p g x
by p g e t = subst (AcquireAnswer p g) (sym e) t

require_none : (p : Pool) (g : Text) → p g ≡ none → require_available p g ≡ some no_worker
unfolding require_available
require_none p g e = rw (e, require_available) refl

require_busy :
    (p : Pool) (g : Text) (s : Session)
    → p g ≡ some s
    → s.busy ≡ true
    → require_available p g ≡ some worker_busy
unfolding require_available
require_busy p g s e b = rw (e, b, require_available) refl

require_idle :
    (p : Pool) (g : Text) (s : Session)
    → p g ≡ some s
    → s.busy ≡ false
    → require_available p g ≡ none
unfolding require_available
require_idle p g s e b = rw (e, b, require_available) refl

acquire_busy :
    (p : Pool) (g : Text) (s : Session)
    → p g ≡ some s
    → s.busy ≡ true
    → acquire p g ≡ err worker_busy
unfolding acquire
acquire_busy p g s e b = rw (e, b, acquire) refl

active_busy :
    (p : Pool) (g : Text) (s : Session)
    → p g ≡ some s
    → s.busy ≡ true
    → active_in_guild p g ≡ some s
unfolding active_in_guild
active_busy p g s e b = rw (e, b, active_in_guild) refl

-- `Acquire` fails exactly as `RequireAvailable` says, for want of a worker or for a busy session.
-- Where it succeeds, the session is the guild's active one in the pool after it, and an `Acquire`
-- there is refused for the same guild.
pub acquire-AcquireAnswer : (p : Pool) (g : Text) → AcquireAnswer p g (acquire p g)
unfolding acquire
acquire-AcquireAnswer p g = elim (Option-cases (p g)) [
  | inl e ↦ by p g (simp (e, acquire)) (missing e (require_none p g e))
  | inr (s, e) ↦ elim (Bool-cases s.busy) [
    | inl b ↦ by p g (simp (e, b, acquire)) (taken s e b (require_busy p g s e b))
    | inr b ↦
        let q = put_same p g (acquired s) in
        by p g (simp (e, b, acquire)) (
          granted (acquired s) (put p g (acquired s)) (require_idle p g s e b)
            (acquire_busy (put p g (acquired s)) g (acquired s) q refl)
            (require_busy (put p g (acquired s)) g (acquired s) q refl)
            (active_busy (put p g (acquired s)) g (acquired s) q refl))
  ]
]

-- Nothing of a stream outlives its release: acquiring the released session gives what acquiring a
-- new one gives, whatever the stream left behind, but for the marks of a hot swap.
acquired-release :
    (s : Session)
    → acquired (release s).0
      ≡ acquired (record (new_session s.id) { swapping = s.swapping; loop_done = s.loop_done })
unfolding release
acquired-release s = refl
