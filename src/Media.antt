-- ===== src/Media.antt =====
-- internal/media: the choice among the files of a title.
pub mod Qualities
mod Tests
