-- ===== src/Streamer/Clock.antt =====
-- `mediaClock` of internal/streamer/play.go. Times and durations are nanoseconds; a time is a point
-- of the monotonic clock, a duration an int64.
pub mod Pace
use streamly.Prelude.{ℕ, Bool, true, false, not, Option, none, some, if◌then◌else◌}
use streamly.Prelude.Signed.{ℤ, pos, ◌+ℤ◌, ◌-ℤ◌, ltb_ℤ, leb_ℤ, wrap64}
use streamly.Pool.Session.{sub_time}

pub record MediaClock : Type 0 where
  pub wall_start : ℤ
  pub pts_start : ℤ
  pub anchored : Bool

abbrev pub expected : MediaClock → ℤ → ℤ
expected c pts = wrap64 (pts -ℤ c.pts_start)

-- How long `wait` sleeps at the time `now`, none where it returns at once, and the clock after it.
abbrev pub sleep_time : ℤ → ℤ → ℤ → ℤ
sleep_time due actual extra_delay =
    let sleep = wrap64 (due -ℤ actual) in
    if ltb_ℤ (pos 0) extra_delay then wrap64 (sleep +ℤ extra_delay) else sleep

abbrev pub positive : ℤ → Option ℤ
positive sleep = if leb_ℤ sleep (pos 0) then none else some sleep

unfoldable pub wait : MediaClock → ℤ → ℤ → ℤ → Option ℤ × MediaClock
wait c pts extra_delay now =
    if not c.anchored
    then (none, record { wall_start = now; pts_start = pts; anchored = true })
    else (positive (sleep_time (expected c pts) (sub_time now c.wall_start) extra_delay), c)

abbrev pub late_by : ℤ → ℤ → ℤ
late_by actual due = if leb_ℤ actual due then pos 0 else wrap64 (actual -ℤ due)

unfoldable pub lateness : MediaClock → ℤ → ℤ → ℤ
lateness c pts now =
    if not c.anchored then pos 0 else late_by (sub_time now c.wall_start) (expected c pts)

unfoldable pub shift : MediaClock → ℤ → MediaClock
shift c duration =
    if leb_ℤ duration (pos 0)
    then c
    else if c.anchored
    then record c { wall_start = c.wall_start +ℤ duration }
    else c

abbrev pub reset : MediaClock → MediaClock
reset c = record c { anchored = false }
