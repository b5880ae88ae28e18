-- ===== src/Introdb/Record.antt =====
-- The records of internal/introdb/client.go and parse.go. An int64 is an integer, a nil pointer
-- `none`.
use Prim.Native.String.{String}
use streamly.Prelude.{Option, none, some, List, map}
use streamly.Prelude.Signed.{ℤ, pos}

pub record SegmentTimestamp : Type 0 where
  pub start_ms : ℤ
  pub end_ms : Option ℤ

pub record MediaRecord : Type 0 where
  pub tmdb_id : ℤ
  pub kind : String
  pub intro : List SegmentTimestamp

pub record SegmentTimestampRaw : Type 0 where
  pub start_ms : Option ℤ
  pub end_ms : Option ℤ

pub record MediaResponseRaw : Type 0 where
  pub tmdb_id : ℤ
  pub kind : String
  pub intro : List SegmentTimestampRaw

start_or_zero : Option ℤ → ℤ
start_or_zero none = pos 0
start_or_zero (some start) = start

unfoldable pub normalize_segment : SegmentTimestampRaw → SegmentTimestamp
unfolding start_or_zero
normalize_segment raw = record { start_ms = start_or_zero raw.start_ms; end_ms = raw.end_ms }

unfoldable pub parse_media_response : MediaResponseRaw → MediaRecord
parse_media_response raw = record {
  tmdb_id = raw.tmdb_id;
  kind = raw.kind;
  intro = map normalize_segment raw.intro;
}
