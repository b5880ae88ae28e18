-- ===== src/Pool/Registry.antt =====
-- `Pool` of internal/pool/pool.go: the sessions by guild. A session is changed in place, so an
-- operation on the one of a guild is a `put` of it; the pool's lock makes each operation one step,
-- but for `SetKey`, which gives it up for the login.
pub mod Exclusive
use streamly.Prelude.{
  ℕ, Bool, true, false, not, ◌&&◌, ◌||◌, Option, none, some, List, [], ◌∷◌, if◌then◌else◌,
}
use streamly.Prelude.Signed.{ℤ, pos}
use streamly.Prelude.Text.{Text, eq_text, is_empty}
use streamly.Captions.{new_track}
use streamly.Pool.Session.{Session, new_session, Effect, clear_voice_hook, leave_voice}

abbrev pub Pool : Type 0
Pool = Text → Option Session

abbrev pub empty : Pool
empty id = none

unfoldable pub put : Pool → Text → Session → Pool
put p id s id' = if eq_text id id' then some s else p id'

pub data PoolError : Type 0 where
  no_worker worker_busy key_change_active login_failed : PoolError

-- `none` is no error.
unfoldable pub require_available : Pool → Text → Option PoolError
require_available p guild = elim (p guild) [
  | none ↦ some no_worker
  | some s ↦ if s.busy then some worker_busy else none
]

unfoldable pub require_worker : Pool → Text → Option PoolError
require_worker p guild = elim (p guild) [ none ↦ some no_worker | some s ↦ none ]

-- What `Acquire` sets.
abbrev pub acquired : Session → Session
acquired s = record s {
  busy = true;
  paused = false;
  stop_requested = false;
  duration_ms = none;
  bytes_read = pos 0;
  captions = some new_track;
  fonts_dir = [];
  caption_source = [];
  caption_query_key = [];
  metadata = none;
  cta_font_path = [];
  pending_segment_ctas = [];
  timed_ctas = [];
  credits_trigger_ms = pos 0;
  near_end_triggered = false;
  live_attempt = 0;
}

pub data Acquired : Type 0 where
  ok : Pool → Session → Acquired
  err : PoolError → Acquired

unfoldable pub acquire : Pool → Text → Acquired
acquire p guild = elim (p guild) [
  | none ↦ err no_worker
  | some s ↦ if s.busy then err worker_busy else ok (put p guild (acquired s)) (acquired s)
]

unfoldable pub active_in_guild : Pool → Text → Option Session
active_in_guild p guild = elim (p guild) [ none ↦ none | some s ↦ if s.busy then some s else none ]

-- `Active`: the empty channel matches every request.
unfoldable pub active : Pool → Text → Text → Option Session
active p guild channel = elim (p guild) [
  | none ↦ none
  | some s ↦ elim s.request [
    | none ↦ none
    | some r ↦ if s.busy && (is_empty channel || eq_text r.channel_id channel) then some s else none
  ]
]

-- `Swap` up to the wait for the loop's end: an idle session is acquired, a busy one is marked.
pub data Swapping : Type 0 where
  idle : Acquired → Swapping
  marked : Pool → Session → Swapping
  no_session : Swapping

unfoldable pub begin_swap : Pool → Text → Swapping
unfolding acquire
begin_swap p guild = elim (p guild) [
  | none ↦ no_session
  | some s ↦
      if s.busy
      then marked (put p guild (record s { swapping = true })) (record s { swapping = true })
      else idle (acquire p guild)
]

-- `rearmForSwap`.
unfoldable pub rearm_for_swap : Session → Session
rearm_for_swap s = record (acquired s) { swapping = false }

abbrev guild_busy : Pool → Text → Bool
guild_busy p guild = elim (p guild) [ none ↦ false | some s ↦ s.busy ]

-- The end of `SetKey`: the session of the guild leaves voice, and a new one replaces it.
unfoldable pub replace_session : Pool → Text → Pool × List Effect
replace_session p guild = elim (p guild) [
  | none ↦ (put p guild (new_session guild), [])
  | some s ↦ (put p guild (new_session guild), clear_voice_hook ∷ leave_voice ∷ [])
]

-- `SetKey`; `login` answers whether the token is accepted, logged in and stored. The lock is not
-- held meanwhile: `later` is the pool behind it, and the session is not tested again.
unfoldable pub set_key : Pool → Pool → Text → Bool → Option PoolError × Pool × List Effect
unfolding replace_session
set_key p later guild login =
    if guild_busy p guild
    then (some key_change_active, p, [])
    else if login
    then (let (q, effects) = replace_session later guild in (none, q, effects))
    else (some login_failed, later, [])
