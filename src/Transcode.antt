-- ===== src/Transcode.antt =====
-- internal/transcode: what of it is Go code of its own, without the bindings of libav.
pub mod Pause
pub mod Opus
mod Tests
