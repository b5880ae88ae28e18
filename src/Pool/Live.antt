-- ===== src/Pool/Live.antt =====
-- The loop of `playLiveHLS` in internal/pool/pool.go, which reconnects a live stream until its
-- context is done, with the functions that it calls. One `Round` holds what the outside answers in
-- one turn of the loop. Durations are nanoseconds.
pub mod Delay
pub mod Urls
pub mod Trace
use streamly.Prelude.{
  ℕ, zero, suc, ◌+◌, ◌-◌, ◌*◌, ◌^◌, Bool, true, false, not, ◌&&◌, ◌||◌, Option, none, some, List,
  [], ◌∷◌, if◌then◌else◌, ltb, leb, ◌==◌,
}
use streamly.Prelude.Text.{Text, is_empty, codes}
use streamly.Prelude.Signed.{ℤ, pos, leb_ℤ, ltb_ℤ, wrap64}
use streamly.Pool.Session.{SegmentCta}

abbrev pub live_reconnect_delay_min : ℕ
live_reconnect_delay_min = 2_000_000_000

abbrev pub live_reconnect_delay_max : ℕ
live_reconnect_delay_max = 15_000_000_000

abbrev pub live_stable_segment_window : ℤ
live_stable_segment_window = pos 30_000_000_000

abbrev pub live_provider_fallback_after : ℕ
live_provider_fallback_after = 3

unfoldable pub live_failure_count_after_segment : ℕ → ℤ → Bool → ℕ
live_failure_count_after_segment failures duration clean_end =
    if leb_ℤ live_stable_segment_window duration
    then 0
    else if clean_end
    then failures
    else suc failures

-- The product is an int64, which wraps.
unfoldable pub live_reconnect_delay : ℕ → ℤ
live_reconnect_delay failures =
    if leb failures 1
    then pos live_reconnect_delay_min
    else let shift = if ltb 3 (failures - 1) then 3 else failures - 1 in
      let delay = wrap64 (pos (live_reconnect_delay_min * 2 ^ shift)) in
      if ltb_ℤ (pos live_reconnect_delay_max) delay then pos live_reconnect_delay_max else delay

-- What `ResolveURL` answers: an error, or a URL.
abbrev pub Answer : Type 0
Answer = Option Text

-- `url` after an answer: an error and the empty URL leave it.
abbrev pub refreshed : Text → Answer → Text
refreshed url none = url
refreshed url (some fresh) = if is_empty fresh then url else fresh

-- `refreshLiveUpstream` where there is a `ResolveURL`: one answer for each of the at most three
-- tries; the loop goes on while there is no URL. `answers` ends early where the context is done.
unfoldable pub refresh_live_upstream : ℕ → Text → List Answer → Text
refresh_live_upstream zero url answers = url
refresh_live_upstream (suc retries) url [] = url
refresh_live_upstream (suc retries) url (a ∷ answers) =
    let rest = refresh_live_upstream retries (refreshed url a) answers in
    if is_empty (refreshed url a) then rest else refreshed url a

-- The loop's variables. The headers follow the URL and are left out.
pub record LiveState : Type 0 where
  pub url : Text
  pub attempt : ℕ
  pub failures : ℕ
  pub using_fallback : Bool

pub record Round : Type 0 where
  pub live_answers : Option (List Answer)
  pub fallback_answer : Option Answer
  pub duration : ℤ
  pub clean_end : Bool

-- Whether a `ResolveFallbackURL` is given.
abbrev pub has_fallback : Round → Bool
has_fallback r = elim r.fallback_answer [ none ↦ false | some a ↦ true ]

abbrev pub switches : LiveState → Round → Bool
switches l r = l.using_fallback || (leb live_provider_fallback_after l.failures && has_fallback r)

abbrev live_url : LiveState → Round → Text
live_url l r = elim r.live_answers [
  | none ↦ l.url
  | some answers ↦ refresh_live_upstream 3 l.url answers
]

abbrev fallback_url : LiveState → Round → Text
fallback_url l r = elim r.fallback_answer [ none ↦ l.url | some a ↦ refreshed l.url a ]

-- The turn up to the segment: the switch to the fallback and the refresh of the URL.
unfoldable pub reconnect : LiveState → Round → LiveState
reconnect l r =
    if l.attempt == 0
    then l
    else if switches l r
    then record l { using_fallback = true; url = fallback_url l r }
    else record l { using_fallback = false; url = live_url l r }

-- What a turn does: a pause of so many nanoseconds, or a segment played from a URL after one.
pub data Turn : Type 0 where
  waited : ℤ → Turn
  played : ℤ → Text → Turn

-- After a segment: `liveFailureCountAfterSegment` and the next attempt.
abbrev pub after_segment : LiveState → Round → LiveState
after_segment l r = record l {
  failures = live_failure_count_after_segment l.failures r.duration r.clean_end;
  attempt = suc l.attempt;
}

unfoldable pub turn : LiveState → Round → Turn × LiveState
turn l r =
    let l' = reconnect l r in
    if l.attempt == 0
    then (played (pos 0) l'.url, after_segment l' r)
    else if is_empty l'.url
    then (
      waited (live_reconnect_delay (suc l'.failures)),
      record l' { failures = suc l'.failures; attempt = suc l'.attempt },
    )
    else (played (live_reconnect_delay l'.failures) l'.url, after_segment l' r)

-- The CTA of a segment.
unfoldable pub segment_ctas : LiveState → List SegmentCta
segment_ctas l =
    if l.attempt == 0
    then []
    else if ltb 1 l.failures
    then record { text = codes "The live stream provider is degraded"; duration_ms = pos 8000 } ∷ []
    else record { text = codes "The live stream has restarted"; duration_ms = pos 8000 } ∷ []

abbrev pub first_state : Text → LiveState
first_state url = record { url = url; attempt = 0; failures = 0; using_fallback = false }

-- The turns until the context is done.
unfoldable pub play_live_hls : LiveState → List Round → List Turn × LiveState
play_live_hls l [] = ([], l)
play_live_hls l (r ∷ rounds) =
    let (t, l') = turn l r in let (ts, l'') = play_live_hls l' rounds in (t ∷ ts, l'')
