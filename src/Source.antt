-- ===== src/Source.antt =====
-- internal/source/hls.go: which URLs are HLS playlists.
pub mod Media
mod Tests
use streamly.Prelude.{Bool, ◌||◌}
use streamly.Prelude.Text.{Text, codes, has_suffix, contains, before, to_lower}

-- The test of the lowered URL's part before its query.
unfoldable pub is_hls_path : Text → Bool
unfolding has_suffix contains
is_hls_path path =
    has_suffix path (codes ".m3u8")
    || has_suffix path (codes ".m3u")
    || contains path (codes "/papi/tv/playlist/")
    || contains path (codes "/api/proxy/playlist")

unfoldable pub is_hls_url : Text → Bool
is_hls_url raw = is_hls_path (before b'?' (to_lower raw))
