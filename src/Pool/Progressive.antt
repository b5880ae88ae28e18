-- ===== src/Pool/Progressive.antt =====
-- The loop of `playProgressive` in internal/pool/pool.go, which plays a file in segments: a new one
-- at the target of each seek, and one of the next quality where the transcoder fails. `QualityURL`
-- is taken to answer an attempt always in the same way.
pub mod Links
use streamly.Prelude.{ℕ, suc, Bool, true, false, Option, none, some, List, [], ◌∷◌, if◌then◌else◌}
use streamly.Prelude.Text.{Text}
use streamly.Prelude.Signed.{ℤ, pos}
use streamly.Pool.Session.{Request}
use streamly.Pool.Vod.{Error, Outcome, finished, failed, cancelled, playback_url_for_attempt}

-- What the outside answers in one turn: whether the context is done at its start and after the
-- segment, the error of opening the source, the seek that is pending after the segment, and the
-- errors of the playback and of the transcoder.
pub record Segment : Type 0 where
  pub done_before : Bool
  pub create_err : Option Error
  pub sought : Option ℤ
  pub done_after : Bool
  pub play_err : Option Error
  pub trans_err : Option Error

-- A segment that is played.
pub record Play : Type 0 where
  pub attempt : ℕ
  pub offset : ℤ
  pub url : Text

pub data Next : Type 0 where
  again : ℕ → ℤ → Next
  stops : Outcome → Next

-- Whether there is a URL for the attempt: `QualityURL` is given and answers no error.
abbrev pub has_quality : Request → ℕ → Bool
has_quality r attempt = elim r.quality_url [
  | none ↦ false
  | some quality ↦ elim (quality attempt) [ none ↦ false | some url ↦ true ]
]

-- What follows a segment without a seek.
abbrev pub after_error : Request → ℕ → Segment → Next
after_error r attempt g = elim g.play_err [
  | some e ↦ stops (failed e)
  | none ↦ elim g.trans_err [
    | none ↦ stops finished
    | some e ↦ if has_quality r (suc attempt) then again (suc attempt) (pos 0) else stops (failed e)
  ]
]

abbrev pub after_play : Request → ℕ → Segment → Next
after_play r attempt g =
    if g.done_after
    then stops cancelled
    else elim g.sought [ some target ↦ again attempt target | none ↦ after_error r attempt g ]

-- The error of `playbackURLForAttempt` is the model's error 0.
unfoldable pub play_progressive : Request → ℕ → ℤ → List Segment → List Play × Outcome
play_progressive r attempt offset [] = ([], cancelled)
play_progressive r attempt offset (g ∷ rest) =
    let next = after_play r attempt g in
    let more : List Play × Outcome = elim next [
      | again a o ↦ play_progressive r a o rest
      | stops outcome ↦ ([], outcome)
    ] in
    if g.done_before then ([], cancelled) else elim (playback_url_for_attempt r attempt) [
      | none ↦ ([], failed 0)
      | some url ↦ elim g.create_err [
        | some e ↦ ([], failed e)
        | none ↦ (record { attempt = attempt; offset = offset; url = url } ∷ more.0, more.1)
      ]
    ]
