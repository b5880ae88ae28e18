-- ===== src/Introdb/Lookup/Tests.antt =====
-- A title that is looked up twice, and one that the service does not know.
use streamly.Prelude.{◌≡◌, ◌↔◌, none, some, []}
use streamly.Prelude.Text.{codes}
use streamly.Prelude.Signed.{pos}
use streamly.Introdb.Lookup.{
  MediaQuery, Reply, answered, get_media, get_media_cached, err, no_intro_data,
}
use streamly.Introdb.Lookup.Cached.{
  Remembers, IsUnknown, map_result, get_media_cached-Remembers, get_media-no_intro_data,
}

abbrev query : MediaQuery
query = record {
  tmdb_id = pos 1399;
  imdb_id = [];
  season = pos 1;
  episode = pos 2;
  duration_ms = pos 0;
}

abbrev found : Reply
found = answered 200 (codes "{}") (some (record { tmdb_id = pos 1399; kind = "tv"; intro = [] }))

get_media_cached-Remembers_example :
    Remembers [] query (pos 10) found (pos 20) (get_media_cached [] query (pos 10) found (pos 20))
get_media_cached-Remembers_example = get_media_cached-Remembers [] query (pos 10) found (pos 20)

get_media-no_intro_data_example :
    (map_result (get_media query (answered 404 (codes "no") none)) ≡ err no_intro_data)
    ↔ IsUnknown query (answered 404 (codes "no") none)
get_media-no_intro_data_example = get_media-no_intro_data query (answered 404 (codes "no") none)
