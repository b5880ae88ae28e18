-- ===== src/Streamer.antt =====
-- internal/streamer/play.go: how packets, cards and pauses reach the peer.
pub mod Clock
pub mod Sender
pub mod Key
pub mod Waiting
mod Tests
