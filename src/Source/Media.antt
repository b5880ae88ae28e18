-- ===== src/Source/Media.antt =====
-- `MediaSource` of internal/source/source.go: a file read over HTTP, with ranges, from connections
-- that may break. Bytes are numbers; an open body is the list of the bytes that its connection has
-- still to send. An unknown size, -1 in the code, is `none`; an offset is a count of bytes below
-- 2 ^ 63. The HTTP client and the URL resolver are outside: a `Round` holds what they answer in one
-- turn of the loop of `Read`. Watchdogs only make a connection break, which any answer may.
pub mod Honest
pub mod Retries
pub mod Rounds
pub mod Seek
use streamly.Prelude.{
  ℕ, zero, suc, ◌+◌, ◌-◌, Bool, true, false, not, ◌&&◌, ◌||◌, Option, none, some, List, [], ◌∷◌,
  length, take, drop, if◌then◌else◌, ltb, leb, ◌==◌, min, ◌*◌, ◌^◌,
}
use streamly.Prelude.Text.{Text, trim_space}
use streamly.Prelude.Signed.{ℤ, pos, negsuc, pos_part, ◌+ℤ◌, ltb_ℤ, wrap64}
use streamly.Pool.Live.{Answer, refreshed}

-- `Content-Length`, and the text of `Content-Range`.
pub record Response : Type 0 where
  pub status : ℕ
  pub content_length : Option ℕ
  pub content_range : Text
  pub bytes : List ℕ

pub record MediaSource : Type 0 where
  pub url : Text
  pub offset : ℕ
  pub size : Option ℕ
  pub body : Option (List ℕ)
  pub bytes_read : ℕ

pub data ReadError : Type 0 where
  eof unexpected_eof cancelled : ReadError
  failed : ℕ → ReadError

-- The answers in one turn: whether the context is done at its start, the response to a request
-- (none where there is none), whether the context is then done, the count and the error that the
-- body's `Read` gives, whether the context is done after it, and the resolver's answer.
pub record Round : Type 0 where
  pub done_first : Bool
  pub response : Option Response
  pub done_open : Bool
  pub count : ℕ
  pub read_err : Option ReadError
  pub done_read : Bool
  pub fresh : Answer

abbrev pub close_body : MediaSource → MediaSource
close_body m = record m { body = none }

abbrev pub refresh_url : MediaSource → Round → MediaSource
refresh_url m r = record m { url = refreshed m.url r.fresh }

-- The text behind the last `/`.
abbrev pub behind_last_slash : Text → Option Text
behind_last_slash [] = none
behind_last_slash (c ∷ t) =
    let rest : Option Text = behind_last_slash t in
    let here : Option Text = if c == b'/' then some t else none in
    elim rest [ some u ↦ some u | none ↦ here ]

-- Digits only, behind those of the value so far; an int64 has at most 2 ^ 63 - 1.
abbrev pub read_digits : ℕ → Text → Option ℕ
read_digits n [] = if ltb n (2 ^ 63) then some n else none
read_digits n (c ∷ t) =
    let rest : Option ℕ = read_digits (n * 10 + (c - b'0')) t in
    if leb b'0' c && leb c b'9' then rest else none

abbrev pub read_count : Text → Option ℕ
read_count [] = none
read_count (c ∷ t) = read_digits 0 (c ∷ t)

-- `strconv.ParseInt`, where the result is not negative.
abbrev pub parse_count : Text → Option ℕ
parse_count [] = none
parse_count (c ∷ t) =
    if c == b'+'
    then read_count t
    else if c == b'-'
    then elim (read_count t) [ none ↦ none | some n ↦ if n == 0 then some 0 else none ]
    else read_count (c ∷ t)

unfoldable pub content_range_total : Text → Option ℕ
content_range_total value = elim (behind_last_slash value) [
  | none ↦ none
  | some t ↦ parse_count (trim_space t)
]

unfoldable pub note_size : MediaSource → Response → MediaSource
note_size m r =
    if r.status == 206
    then elim (content_range_total r.content_range) [
      | some total ↦ record m { size = some total }
      | none ↦ elim r.content_length [ some n ↦ record m { size = some (m.offset + n) } | none ↦ m ]
    ]
    else elim r.content_length [ some n ↦ record m { size = some n } | none ↦ m ]

-- `discard` in chunks; none where the body ends before, as it does if the context ends meanwhile.
-- Each round with bytes left drops one at least.
unfoldable pub discard : ℕ → ℕ → List ℕ → Option (List ℕ)
discard fuel zero bytes = some bytes
discard zero (suc n) bytes = none
discard (suc fuel) (suc n) bytes =
    let chunk = min 32_768 (suc n) in
    let rest = discard fuel (suc n - chunk) (drop chunk bytes) in
    if ltb (length bytes) chunk then none else rest

abbrev pub is_success : ℕ → Bool
is_success status = leb 200 status && ltb status 300

-- `open`, and whether it succeeds.
unfoldable pub open_body : MediaSource → Option Response → MediaSource × Bool
open_body m none = (m, false)
open_body m (some r) =
    if not (is_success r.status)
    then (m, false)
    else let m' = note_size m r in
      if r.status == 200 && ltb 0 m.offset
      then elim (discard m.offset m.offset r.bytes) [
        | none ↦ (m', false)
        | some rest ↦ (record m' { body = some rest }, true)
      ]
      else (record m' { body = some r.bytes }, true)

unfoldable pub ensure_body : MediaSource → Option Response → MediaSource × Bool
ensure_body m response = elim m.body [ some b ↦ (m, true) | none ↦ open_body m response ]

abbrev pub body_bytes : MediaSource → List ℕ
body_bytes m = elim m.body [ none ↦ [] | some b ↦ b ]

-- What the body's `Read` puts into a buffer of `room` bytes.
abbrev pub received : MediaSource → Round → ℕ → List ℕ
received m r room = take (min r.count room) (body_bytes m)

-- The source after the bytes have been taken off the body.
abbrev pub advance : MediaSource → List ℕ → MediaSource
advance m got = record m {
  body = some (drop (length got) (body_bytes m));
  offset = m.offset + length got;
  bytes_read = m.bytes_read + length got;
}

-- What `Read` returns; `waiting` where the outside's answers end.
pub data ReadResult : Type 0 where
  got : List ℕ → ReadResult
  stopped : ReadError → ReadResult
  waiting : ReadResult

-- What follows a turn; a retry refreshes the URL first.
pub data Next : Type 0 where
  returns : ReadResult → MediaSource → Next
  retries : ReadError → MediaSource → Next
  repeats : MediaSource → Next

abbrev pub after_break : MediaSource → Round → ReadError → Next
after_break m r e =
    if r.done_read then returns (stopped cancelled) (close_body m) else retries e (close_body m)

-- After the end of the body: early, where the size is known and not reached.
unfoldable pub after_end : MediaSource → Next
after_end m = elim m.size [
  | none ↦ returns (stopped eof) m
  | some size ↦
      if ltb m.offset size then retries unexpected_eof (close_body m) else returns (stopped eof) m
]

abbrev pub after_error : MediaSource → Round → ReadError → Next
after_error m r eof = after_end m
after_error m r unexpected_eof = after_break m r unexpected_eof
after_error m r cancelled = after_break m r cancelled
after_error m r (failed k) = after_break m r (failed k)

-- After a `Read` of the body that gives no bytes.
unfoldable pub after_nothing : MediaSource → Round → Next
after_nothing m r = elim r.read_err [ none ↦ repeats m | some e ↦ after_error m r e ]

abbrev pub after_bytes : MediaSource → Round → List ℕ → Next
after_bytes m r [] = after_nothing m r
after_bytes m r (b ∷ bs) = returns (got (b ∷ bs)) (advance m (b ∷ bs))

unfoldable pub turn : ℕ → MediaSource → Round → Next
turn room m r =
    let (m', ok) = ensure_body m r.response in
    if r.done_first
    then returns (stopped cancelled) m
    else if not ok
    then (if r.done_open then returns (stopped cancelled) m' else retries (failed 0) m')
    else after_bytes m' r (received m' r room)

-- The loop of `Read`, with `left` retries; the buffer has `room` bytes.
unfoldable pub read : ℕ → ℕ → MediaSource → List Round → ReadResult × MediaSource
read room left m [] = (waiting, m)
read room left m (r ∷ rounds) = elim (turn room m r) [
  | returns a m' ↦ (a, m')
  | repeats m' ↦ read room left m' rounds
  | retries e m' ↦ elim left [
    | zero ↦ (stopped e, m')
    | suc k ↦ read room k (refresh_url m' r) rounds
  ]
]

pub data Whence : Type 0 where
  seek_start seek_current seek_end other : Whence

-- `Seek`; none is an error. `response` answers the request that `Size` makes where it is unknown.
abbrev pub with_size : MediaSource → Option Response → MediaSource
with_size m response = elim m.size [ some n ↦ m | none ↦ (ensure_body m response).0 ]

abbrev pub seek_to : MediaSource → ℤ → Option ℕ × MediaSource
seek_to m target =
    if ltb_ℤ target (pos 0)
    then (none, m)
    else if pos_part target == m.offset
    then (some (pos_part target), m)
    else (some (pos_part target), record m { body = none; offset = pos_part target })

unfoldable pub seek : MediaSource → ℤ → Whence → Option Response → Option ℕ × MediaSource
seek m offset seek_start response = seek_to m offset
seek m offset seek_current response = seek_to m (wrap64 (pos m.offset +ℤ offset))
seek m offset seek_end response =
    let m' = with_size m response in
    elim m'.size [ none ↦ (none, m') | some n ↦ seek_to m' (wrap64 (pos n +ℤ offset)) ]
seek m offset other response = (none, m)
