-- ===== src/Pool.antt =====
-- internal/pool: the guilds' sessions, one for each worker.
pub mod Session
pub mod Control
pub mod Cta
pub mod Live
pub mod Vod
pub mod Progressive
pub mod Registry
mod Tests
