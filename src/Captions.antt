-- ===== src/Captions.antt =====
-- internal/captions/track.go. The lock is left out; a nil `*Track` is a `none`.
pub mod Language
pub mod Names
pub mod SubDl
pub mod Subtitle
pub mod Fetch
mod Tests
use streamly.Prelude.{Bool, true, false, not, ◌&&◌, Option, none, some, [], if◌then◌else◌}
use streamly.Prelude.Text.{Text, is_empty}

pub record Track : Type 0 where
  pub enabled : Bool
  pub path : Text

abbrev pub new_track : Track
new_track = record { enabled = false; path = [] }

abbrev pub is_enabled : Option Track → Bool
is_enabled none = false
is_enabled (some t) = t.enabled && not (is_empty t.path)

abbrev pub stored_path : Option Track → Text
stored_path none = []
stored_path (some t) = t.path

abbrev pub has_subtitle : Option Track → Bool
has_subtitle t = not (is_empty (stored_path t))

abbrev pub shown_path : Option Track → Text
shown_path none = []
shown_path (some t) = if t.enabled then t.path else []

abbrev pub set : Text → Track → Track
set path t = record t { path = path; enabled = not (is_empty path) }

abbrev pub enable : Track → Track
enable t = if is_empty t.path then t else record t { enabled = true }

abbrev pub disable : Track → Track
disable t = record t { enabled = false }

-- The file that `Reset` removes is the path of before, where there is one.
abbrev pub reset : Track → Track
reset t = record t { path = []; enabled = false }
