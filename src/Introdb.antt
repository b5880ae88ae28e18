-- ===== src/Introdb.antt =====
-- internal/introdb: timing records of a title's intro and credits.
pub mod Record
pub mod Skip
pub mod Lookup
pub mod Credits
mod Tests
