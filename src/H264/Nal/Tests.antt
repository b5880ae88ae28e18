-- ===== src/H264/Nal/Tests.antt =====
-- Frames with a parameter set and a picture.
use streamly.Prelude.{ℕ, ◌≡◌, refl, Bool, true, false, List, [], ◌∷◌, map, All, arith}
use streamly.H264.Nal.{starts, index, split_nalus, rewrite_unit, rewrite_h264_sps}
use streamly.H264.Nal.Split.{IsSplit, split_nalus-IsSplit}
use streamly.H264.Nal.Joined.{IsUnit, framed, split_nalus-framed}
use streamly.H264.Nal.Rewritten.{rewritten, rewrite_h264_sps-framed}
use streamly.H264.Script.{
  run, run_bits, copy_bits, copy_ue, copy_se, read_field, read_ue_field, put_bits, put_ue,
  copy_flag,
}
use streamly.H264.Sps.{
  copy_deltas, copy_scaling_lists, copy_chroma, copy_offsets, copy_pic_order,
  add_bitstream_restriction, copy_cpbs, copy_hrd_parameters, copy_aspect_ratio, drop_signal_type,
  rewrite_restriction, rewrite_vui, add_vui, copy_frame, sps_script, rewrite_sps_vui,
}
use streamly.H264.Reader.{read_bits, leading_zeros, read_ue, read_se}
use streamly.H264.Writer.{flush, write_bits, len32_loop, write_ue, write_se}

-- A parameter set of 1280x720, behind a long start code, and an IDR behind a short one.
abbrev frame : List (Bool × List ℕ)
frame =
    (true, 0x67 ∷ 0x42 ∷ 0xc0 ∷ 0x1f ∷ 0xda ∷ 0x01 ∷ 0x40 ∷ 0x16 ∷ 0xc4 ∷ [])
    ∷ (false, 0x65 ∷ 0 ∷ 0 ∷ 3 ∷ 1 ∷ [])
    ∷ []

frame-units : All (λ p. IsUnit p.1) frame
unfolding starts index
frame-units = (
  ((λ e. cc e), refl, (λ e. omega (arith, e))),
  (((λ e. cc e), refl, (λ e. omega (arith, e))), record {}),
)

split_nalus-IsSplit_example : IsSplit (framed frame) (split_nalus (framed frame))
split_nalus-IsSplit_example = split_nalus-IsSplit (framed frame)

split_nalus-framed_example : split_nalus (framed frame) ≡ map (λ p. p.1) frame
split_nalus-framed_example = split_nalus-framed frame frame-units

rewritten-IsUnit : All IsUnit (map (λ p. rewritten p.1) frame)
unfolding rewrite_unit starts index run run_bits copy_bits copy_ue copy_se read_field read_ue_field
    put_bits put_ue copy_flag copy_deltas copy_scaling_lists copy_chroma copy_offsets copy_pic_order
    add_bitstream_restriction copy_cpbs copy_hrd_parameters copy_aspect_ratio drop_signal_type
    rewrite_restriction rewrite_vui add_vui copy_frame sps_script rewrite_sps_vui read_bits
    leading_zeros read_ue read_se flush write_bits len32_loop write_ue write_se
rewritten-IsUnit = (
  ((λ e. cc e), refl, (λ e. omega (arith, e))),
  (((λ e. cc e), refl, (λ e. omega (arith, e))), record {}),
)

rewrite_h264_sps-framed_example :
    split_nalus (rewrite_h264_sps (framed frame)) ≡ map (λ p. rewritten p.1) frame
rewrite_h264_sps-framed_example = rewrite_h264_sps-framed frame frame-units rewritten-IsUnit
