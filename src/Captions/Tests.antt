-- ===== src/Captions/Tests.antt =====
-- Searches for the subtitles of the third episode of a second season.
use streamly.Prelude.{◌≡◌, refl, true, none, some, [], ◌∷◌, All, leb, if◌then◌else◌}
use streamly.Prelude.Text.{Text, codes, is_empty, eq_text, lower_code, contains, has_suffix}
use streamly.Media.Qualities.{mem_text}
use streamly.Captions.Language.{looks_english_language_tag, has_foreign_language_name}
use streamly.Prelude.Signed.{pos}
use streamly.Captions.SubDl.{UnpackFile, Subtitle, file_matches_episode, pick_subdl_paths}
use streamly.Captions.SubDl.Paths.{IsOffered, pick_subdl_paths-IsOffered}
use streamly.Captions.SubDl.Resolve.{
  Query, err_no_subtitle, err_rate_limited, Search, found, not_found, subdl_query_variants,
  resolve_paths,
}
use streamly.Captions.SubDl.Resolve.Gather.{IsResolved}
use streamly.Captions.SubDl.Resolve.Once.{resolve_paths-IsResolved}
use streamly.Captions.Subtitle.{ok, err, ext_of}
use streamly.Captions.Fetch.{SubDlClient, Entry, find_sidecar}

abbrev file : UnpackFile
file = record {
  url = codes " /f1 ";
  name = codes "Show.S02E03.srt";
  release_name = [];
  season = pos 0;
  episode = pos 0;
  format = codes "srt";
  language = codes "EN";
}

abbrev pack : Subtitle
pack = record {
  release_name = codes "Show.S02";
  name = [];
  url = codes "/pack.zip";
  season = pos 2;
  episode = pos 0;
  unpack_files = file ∷ [];
}

abbrev query : Query
query = record {
  imdb_id = codes "tt1";
  tmdb_id = pos 5;
  share_key = [];
  video_fid = pos 0;
  video_name = codes "Show.mkv";
  season = pos 2;
  episode = pos 3;
}

-- The search by IMDb ID is refused.
abbrev ask : Search
ask q = if is_empty q.imdb_id then found (pack ∷ []) else not_found err_rate_limited

abbrev client : SubDlClient
client = record {
  api_key = codes "key";
  library = record { decode = λ b. b; is_valid = λ b. true; is_cjk = leb 0x4e00 };
  open_zip = λ b. none;
  ask = ask;
  get = λ path.
      if eq_text path (codes "/f1")
      then ok (codes "1\n0 --> 1\nHello there")
      else err err_no_subtitle;
  write = λ p. none;
}

pick_subdl_paths-IsOffered_example :
    All (IsOffered (pack ∷ []) (pos 2) (pos 3)) (pick_subdl_paths (pack ∷ []) (pos 2) (pos 3))
pick_subdl_paths-IsOffered_example =
    pick_subdl_paths-IsOffered (pack ∷ []) (pos 2) (pos 3) refl refl

resolve_paths-IsResolved_example :
    IsResolved ask (subdl_query_variants query) (resolve_paths ask query)
resolve_paths-IsResolved_example = resolve_paths-IsResolved ask query

-- A file of the fifth season whose name starts with the episode's number is taken for the second's.
leading_number_other_season :
    file_matches_episode
      (record file { name = codes "03 Title.srt"; season = pos 5; episode = pos 3 })
      (pos 2)
      (pos 3)
    ≡ true
unfolding file_matches_episode looks_english_language_tag mem_text eq_text lower_code
    has_foreign_language_name contains
leading_number_other_season = refl

abbrev sidecar : Text → Entry
sidecar name = record { fid = pos 2; is_dir = pos 0; file_name = name }

-- A sidecar file is found by its name in lower case, but not in capitals: the extension in
-- lower case is no suffix of it.
lower_found :
    find_sidecar (sidecar (codes "Film.srt") ∷ []) (pos 1) (codes "Film.mkv")
    ≡ some (sidecar (codes "Film.srt"))
unfolding find_sidecar mem_text eq_text ext_of lower_code has_foreign_language_name contains
    has_suffix
lower_found = refl

upper_not_found : find_sidecar (sidecar (codes "Film.SRT") ∷ []) (pos 1) (codes "Film.mkv") ≡ none
unfolding find_sidecar mem_text eq_text ext_of lower_code has_foreign_language_name contains
    has_suffix
upper_not_found = refl
