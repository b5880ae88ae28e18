-- ===== src/Pool/Vod.antt =====
-- The retries of a recorded stream in internal/pool/pool.go: `playVodHLS` over HLS, and the URL
-- of a quality attempt. A segment's error is a number, `none` for nil.
pub mod Retries
use streamly.Prelude.{
  ℕ, zero, suc, ◌+◌, ◌*◌, ◌≤◌, ◌<◌, ◌≡◌, ◌⊎◌, Bool, true, false, not, ◌&&◌, ◌||◌, Option, none,
  some, List, [], ◌∷◌, if◌then◌else◌, leb, ltb, ◌==◌, length, refl, arith, inl, inr, Bool-cases,
  Option-cases,
}
use streamly.Prelude.Text.{Text, is_empty}
use streamly.Prelude.Signed.{ℤ, pos, leb_ℤ}
use streamly.Pool.Session.{Request}
use streamly.Pool.Live.{Answer, refreshed}

abbrev pub Error : Type 0
Error = ℕ

-- What the outside answers in one attempt: the refreshed URL, the errors and the time of the
-- segment, and whether the context is done before it and after it.
pub record Attempt : Type 0 where
  pub fresh : Option Answer
  pub done_before : Bool
  pub done_after : Bool
  pub play_err : Option Error
  pub trans_err : Option Error
  pub duration : ℤ

pub data Outcome : Type 0 where
  finished : Outcome
  failed : Error → Outcome
  cancelled : Outcome

abbrev pub hls_startup_retry_window : ℤ
hls_startup_retry_window = pos 15_000_000_000

-- `playErr` where there is one, else `transErr`.
abbrev pub error_of : Attempt → Option Error
error_of a = elim a.play_err [ none ↦ a.trans_err | some e ↦ some e ]

abbrev pub next_url : ℕ → Text → Attempt → Text
next_url attempt url a =
    if attempt == 0 then url else elim a.fresh [ none ↦ url | some answer ↦ refreshed url answer ]

-- The loop from `attempt` on, with `left` more retries allowed, so that `attempt + left` is
-- `config.Download.MaxRetries`: the URLs that were played, and the outcome. `attempts` are the
-- outside's answers; past their end the outside has cancelled.
unfoldable pub play_vod_hls : ℕ → ℕ → Text → List Attempt → List Text × Outcome
play_vod_hls attempt left url [] = ([], cancelled)
play_vod_hls attempt zero url (a ∷ rest) =
    let url' = next_url attempt url a in
    if a.done_before
    then ([], cancelled)
    else if a.done_after
    then (url' ∷ [], cancelled)
    else elim (error_of a) [ none ↦ (url' ∷ [], finished) | some e ↦ (url' ∷ [], failed e) ]
play_vod_hls attempt (suc left) url (a ∷ rest) =
    let url' = next_url attempt url a in
    let again = play_vod_hls (suc attempt) left url' rest in
    if a.done_before
    then ([], cancelled)
    else if a.done_after
    then (url' ∷ [], cancelled)
    else elim (error_of a) [
      | none ↦ (url' ∷ [], finished)
      | some e ↦
          if leb_ℤ hls_startup_retry_window a.duration
          then (url' ∷ [], failed e)
          else (url' ∷ again.0, again.1)
    ]

-- The sleep before a retry, in nanoseconds.
abbrev pub retry_sleep : ℕ → ℕ
retry_sleep attempt = attempt * 500_000_000

-- `playbackURLForAttempt`; `none` is an error.
unfoldable pub playback_url_for_attempt : Request → ℕ → Option Text
playback_url_for_attempt r attempt =
    let initial = if attempt == 0 then some r.initial_url else none in
    elim r.quality_url [
      | none ↦ initial
      | some quality ↦ elim (quality attempt) [
        | none ↦ none
        | some url ↦ if is_empty url then initial else some url
      ]
    ]
