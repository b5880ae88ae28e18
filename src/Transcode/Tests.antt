-- ===== src/Transcode/Tests.antt =====
-- Packets of Opus.
use streamly.Prelude.{◌≡◌, refl, [], ◌∷◌}
use streamly.Transcode.Opus.{frame_count, opus_packet_duration}

-- Two frames of 20 ms.
two_frames : opus_packet_duration (0x0d ∷ (7 ∷ [])) ≡ 40_000_000
unfolding opus_packet_duration frame_count
two_frames = refl
