-- ===== src/H264.antt =====
-- internal/streamer/h264_bitstream.go and h264.go: the bit reader and writer with
-- emulation-prevention bytes, Exp-Golomb codes, NAL units and the rewriting of an SPS.
pub mod Escape
pub mod Reader
pub mod Writer
pub mod Golomb
pub mod Script
pub mod Sps
pub mod RoundTrip
pub mod Nal
mod Tests
