-- ===== src/Pool/Tests.antt =====
-- Runs of a session on concrete inputs, and the theorems at inputs that meet their hypotheses.
use streamly.Prelude.{
  ◌≤◌, ◌≡◌, ◌⊎◌, ◌↔◌, refl, true, false, none, some, List, [], ◌∷◌, Any, All, arith,
}
use streamly.Prelude.Text.{codes}
use streamly.Prelude.Signed.{pos, ◌+ℤ◌, ◌≤ℤ◌, ◌-ℤ◌, quot, Fits64}
use streamly.Pool.Session.{Session, Request, TimedCta, new_session, position_ms, saturate}
use streamly.Pool.Control.{pause, resume, seek, play, end_loop}
use streamly.Pool.Control.Pause.{pause-resume}
use streamly.Pool.Control.Ending.{Leaving, end_loop-Leaving}
use streamly.Pool.Control.Seek.{SeekAnswer, seek-SeekAnswer}
use streamly.Pool.Registry.{Pool, empty, put, acquire, acquired}
use streamly.Pool.Registry.Exclusive.{AcquireAnswer, acquire-AcquireAnswer}
use streamly.Pool.Cta.{timed_windows}
use streamly.Pool.Cta.Shown.{OpenAt, ShowsAt, timed_windows-Shown}
use streamly.Pool.Live.{
  Round, LiveState, first_state, turn, play_live_hls, has_fallback, live_reconnect_delay,
}
use streamly.Pool.Live.Delay.{live_reconnect_delay_bounds}
use streamly.Pool.Live.Trace.{IsTrace, IsCount, play_live_hls-IsTrace, turn-switches}
use streamly.Pool.Live.Urls.{IsUrlOf, Uses}
use streamly.Pool.Progressive.{Segment, play_progressive}
use streamly.Pool.Progressive.Links.{StartsAt, IsLinked, HasUrl, play_progressive-IsTrace}
use streamly.Pool.Vod.{Attempt}
use streamly.Pool.Vod.Retries.{Ending}

abbrev request : Request
request = record {
  guild_id = codes "g";
  channel_id = codes "c";
  caption = codes "film";
  initial_url = codes "http://host/film.mp4";
  quality_url = none;
  quality_label = [];
  live = false;
  metadata = none;
  on_near_end = false;
  on_close = true;
}

abbrev idle_session : Session
idle_session = new_session (codes "g")

-- A stream of an hour, started at 5 s.
abbrev playing : Session
playing = record (acquired idle_session) {
  request = some request;
  started_at = some (pos 5_000_000_000);
  duration_ms = some (pos 3_600_000);
  transcode = some 3;
  segment_cancel = some 2;
  controller = some 1;
}

short_pause : Fits64 (pos 100_000_000_000 -ℤ pos 65_000_000_000)
unfolding ◌-ℤ◌
short_pause = omega arith

pause-resume_example :
    (position_ms (pause playing (pos 65_000_000_000)).0 (pos 90_000_000_000)
      ≡ position_ms playing (pos 65_000_000_000))
    × (position_ms
          (resume (pause playing (pos 65_000_000_000)).0 (pos 100_000_000_000)).0
          (pos 100_000_000_000 +ℤ pos 90_000_000_000)
        ≡ position_ms playing (pos 65_000_000_000 +ℤ pos 90_000_000_000))
pause-resume_example =
    pause-resume playing (pos 65_000_000_000) (pos 100_000_000_000) (pos 90_000_000_000) refl refl
      refl short_pause

position_run : position_ms playing (pos 65_000_000_000) ≡ pos 60_000
unfolding position_ms saturate ◌-ℤ◌ quot
position_run = refl

seek-SeekAnswer_example :
    SeekAnswer playing (pos 4_000_000_000_000) (seek playing (pos 4_000_000_000_000))
seek-SeekAnswer_example = seek-SeekAnswer playing (pos 4_000_000_000_000) (omega arith)

abbrev one_guild : Pool
one_guild = put empty (codes "g") idle_session

acquire-AcquireAnswer_example : AcquireAnswer one_guild (codes "g") (acquire one_guild (codes "g"))
acquire-AcquireAnswer_example = acquire-AcquireAnswer one_guild (codes "g")

abbrev third : Session
third = (play (acquired idle_session) request (pos 7) true 4).1

abbrev dropped : Round
dropped = record {
  live_answers = some (some (codes "u2") ∷ []);
  fallback_answer = some (some (codes "backup"));
  duration = pos 3_000_000_000;
  clean_end = false;
}

play_live_hls-IsTrace_example :
    let (turns, l) =
      play_live_hls (first_state (codes "u1")) (dropped ∷ (dropped ∷ (dropped ∷ (dropped ∷ [])))) in
    IsTrace (codes "u1") turns
    × ((l.attempt ≡ 4)
        × IsCount 0 turns (dropped ∷ (dropped ∷ (dropped ∷ (dropped ∷ [])))) l.failures)
play_live_hls-IsTrace_example =
    play_live_hls-IsTrace (codes "u1") (dropped ∷ (dropped ∷ (dropped ∷ (dropped ∷ []))))

abbrev failing : LiveState
failing = record { url = codes "u2"; attempt = 3; failures = 3; using_fallback = false }

turn-switches_example :
    (((turn failing dropped).1.using_fallback ≡ true) ↔ (
      (failing.using_fallback ≡ true) ⊎ ((3 ≤ failing.failures) × (has_fallback dropped ≡ true))))
    × (IsUrlOf
          (turn failing dropped).1.using_fallback
          (codes "u2")
          dropped
          (turn failing dropped).1.url
        × Uses (turn failing dropped).0 (turn failing dropped).1.url)
turn-switches_example = turn-switches failing dropped (omega arith)

live_reconnect_delay_bounds_example :
    (pos 2_000_000_000 ≤ℤ live_reconnect_delay 4)
    × ((live_reconnect_delay 4 ≤ℤ pos 15_000_000_000)
        × ((live_reconnect_delay 2 ≤ℤ live_reconnect_delay 4)
            × (live_reconnect_delay 5 ≤ℤ live_reconnect_delay 4 +ℤ live_reconnect_delay 4)))
live_reconnect_delay_bounds_example = live_reconnect_delay_bounds 2 4 (omega arith)

abbrev failed_attempt : Attempt
failed_attempt = record {
  fresh = some none;
  done_before = false;
  done_after = false;
  play_err = none;
  trans_err = some 7;
  duration = pos 1_000_000_000;
}

abbrev clean_attempt : Attempt
clean_attempt = record failed_attempt { trans_err = none }

end_loop-Leaving_example :
    Leaving
      (record third { swapping = true })
      (end_loop (record third { swapping = true }) request true 1 (some 4))
end_loop-Leaving_example =
    end_loop-Leaving (record third { swapping = true }) request true 1 (some 4)

abbrev timed : List TimedCta
timed =
    record { text = codes "skip"; start_ms = pos 30_000; end_ms = pos 90_000 }
    ∷ (record { text = codes "next"; start_ms = pos 3_500_000; end_ms = pos 3_600_000 } ∷ [])

timed_windows-Shown_example :
    Any (OpenAt (codes "skip") (pos 65_000 -ℤ pos 60_000)) (timed_windows timed (pos 60_000))
    ↔ Any (ShowsAt (codes "skip") (pos 65_000)) timed
timed_windows-Shown_example =
    timed_windows-Shown timed (codes "skip") (pos 60_000) (pos 65_000) (ground arith) (ground arith)
      (omega arith) (λ e. cc e)

abbrev sought_segment : Segment
sought_segment = record {
  done_before = false;
  create_err = none;
  sought = some (pos 60_000_000_000);
  done_after = false;
  play_err = none;
  trans_err = none;
}

abbrev qualities : Request
qualities = record request { quality_url = some (λ attempt. some (codes "http://host/q.mp4")) }

play_progressive-IsTrace_example :
    let plays = (play_progressive qualities 0 (pos 0) (sought_segment ∷ (sought_segment ∷ []))).0 in
    StartsAt 0 (pos 0) plays
    × (IsLinked qualities (sought_segment ∷ (sought_segment ∷ [])) plays
        × All (HasUrl qualities) plays)
play_progressive-IsTrace_example =
    play_progressive-IsTrace qualities 0 (pos 0) (sought_segment ∷ (sought_segment ∷ []))
