-- ===== src/Introdb/Credits/Tests.antt =====
-- The credits of a film of 100 minutes with three segments.
use streamly.Prelude.{some, List, [], ◌∷◌}
use streamly.Prelude.Signed.{ℤ, pos, scale, quot}
use streamly.Introdb.Record.{SegmentTimestamp, MediaRecord}

abbrev segments : List SegmentTimestamp
segments =
    record { start_ms = pos 60_000; end_ms = some (pos 120_000) }
    ∷ (record { start_ms = pos 5_700_000; end_ms = some (pos 5_900_000) }
        ∷ (record { start_ms = pos 5_000_000; end_ms = some (pos 5_100_000) } ∷ []))

abbrev film : MediaRecord
film = record { tmdb_id = pos 27205; kind = "movie"; intro = segments }

abbrev late_threshold : ℤ → ℤ
late_threshold d = quot (scale d 65) 100
