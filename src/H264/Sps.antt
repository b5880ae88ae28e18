-- ===== src/H264/Sps.antt =====
-- `rewriteSPSVUI` and `copyHRDParameters` of internal/streamer/h264.go: a sequence parameter set is
-- copied field by field, with a VUI that forbids reordered frames. An `int` is the natural number
-- below 2 ^ 64 that its bits spell; a loop over a negative count makes no round.
pub mod Payload
use streamly.Prelude.{
  ℕ, zero, suc, ◌+◌, ◌-◌, ◌%◌, ◌^◌, Bool, ◌||◌, Option, none, some, List, [], ◌∷◌, ◌==◌, ltb,
  if◌then◌else◌,
}
use streamly.H264.Reader.{new_bit_reader}
use streamly.H264.Writer.{new_bit_writer, flush}
use streamly.H264.Script.{
  Script, done, ◌>>=◌, ◌>>◌, run, Machines, copy_bits, copy_ue, copy_se, read_field, read_ue_field,
  put_bits, put_ue, when_set, copy_flag,
}

-- Go's `a % 256` on an `int`, which takes the sign of `a`.
abbrev pub rem_256 : ℕ → ℕ
rem_256 a = if ltb a (2 ^ 63) then a % 256 else (2 ^ 64 - (2 ^ 64 - a) % 256) % 2 ^ 64

-- The inner loop over `size` deltas.
unfoldable pub copy_deltas : ℕ → ℕ → Script (Unit {0})
copy_deltas zero last_scale = done tt
copy_deltas (suc size) last_scale = do
  delta ← copy_se
  let next_scale = rem_256 ((last_scale + delta + 256) % 2 ^ 64)
  copy_deltas size (if next_scale == 0 then last_scale else next_scale)

-- The loop over the scaling lists, from index `i` on.
unfoldable pub copy_scaling_lists : ℕ → ℕ → Script (Unit {0})
copy_scaling_lists zero i = done tt
copy_scaling_lists (suc left) i = do
  _ ← copy_flag (copy_deltas (if ltb i 6 then 16 else 64) 8)
  copy_scaling_lists left (i + 1)

-- The profiles with chroma fields.
abbrev pub is_high_profile : ℕ → Bool
is_high_profile p =
    p == 100
    || p == 110
    || p == 122
    || p == 244
    || p == 44
    || p == 83
    || p == 86
    || p == 118
    || p == 128
    || p == 138
    || p == 144

unfoldable pub copy_chroma : Script (Unit {0})
copy_chroma = do
  chroma_format_idc ← copy_ue
  when_set (if chroma_format_idc == 3 then 1 else 0) (do copy_bits 1; done tt)
  copy_ue
  copy_ue
  copy_bits 1
  _ ← copy_flag (copy_scaling_lists (if chroma_format_idc == 3 then 12 else 8) 0)
  done tt

-- `for i := 0; i < num; i++` over a signed count.
abbrev pub rounds : ℕ → ℕ
rounds num = if ltb num (2 ^ 63) then num else 0

unfoldable pub copy_offsets : ℕ → Script (Unit {0})
copy_offsets zero = done tt
copy_offsets (suc n) = do copy_se; copy_offsets n

unfoldable pub copy_pic_order : Script (Unit {0})
copy_pic_order = do
  pic_order_cnt_type ← copy_ue
  if pic_order_cnt_type == 0
      then (do copy_ue; done tt)
      else when_set (if pic_order_cnt_type == 1 then 1 else 0)
          (do copy_bits 1; copy_se; copy_se; num ← copy_ue; copy_offsets (rounds num))

-- `addBitstreamRestriction`.
unfoldable pub add_bitstream_restriction : ℕ → Script (Unit {0})
add_bitstream_restriction max_num_ref_frames = do
  put_bits 1 1
  put_ue 2
  put_ue 1
  put_ue 16
  put_ue 16
  put_ue 0
  put_ue max_num_ref_frames

-- The body of the loop of `copyHRDParameters`.
unfoldable pub copy_cpbs : ℕ → Script (Unit {0})
copy_cpbs zero = done tt
copy_cpbs (suc n) = do copy_ue; copy_ue; copy_bits 1; copy_cpbs n

-- `i <= cpbCntMinus1` makes one round more than the count, and none at a negative one.
unfoldable pub copy_hrd_parameters : Script (Unit {0})
copy_hrd_parameters = do
  cpb_cnt_minus1 ← copy_ue
  copy_bits 4
  copy_bits 4
  copy_cpbs (if ltb cpb_cnt_minus1 (2 ^ 63) then suc cpb_cnt_minus1 else 0)
  copy_bits 5
  copy_bits 5
  copy_bits 5
  copy_bits 5
  done tt

unfoldable pub copy_aspect_ratio : Script (Unit {0})
copy_aspect_ratio = do
  aspect_ratio_idc ← copy_bits 8
  when_set (if aspect_ratio_idc == 255 then 1 else 0) (do copy_bits 16; copy_bits 16; done tt)

-- The video signal type is read and dropped.
unfoldable pub drop_signal_type : Script (Unit {0})
drop_signal_type = do
  present ← read_field 1
  put_bits 0 1
  when_set present (do
    _ ← read_field 3
    _ ← read_field 1
    colour ← read_field 1
    when_set colour (do _ ← read_field 8; _ ← read_field 8; _ ← read_field 8; done tt))

-- The bitstream restriction: added, or copied with its last two fields replaced.
unfoldable pub rewrite_restriction : ℕ → Script (Unit {0})
rewrite_restriction max_num_ref_frames = do
  present ← read_field 1
  put_bits 1 1
  if present == 0 then add_bitstream_restriction max_num_ref_frames else (do
    copy_bits 1
    copy_ue
    copy_ue
    copy_ue
    copy_ue
    _ ← read_ue_field
    put_ue 0
    _ ← read_ue_field
    put_ue max_num_ref_frames)

unfoldable pub rewrite_vui : ℕ → Script (Unit {0})
rewrite_vui max_num_ref_frames = do
  copy_flag copy_aspect_ratio
  copy_flag (do copy_bits 1; done tt)
  drop_signal_type
  copy_flag (do copy_ue; copy_ue; done tt)
  copy_flag (do copy_bits 32; copy_bits 32; copy_bits 1; done tt)
  nal_hrd_present ← copy_flag copy_hrd_parameters
  vcl_hrd_present ← copy_flag copy_hrd_parameters
  when_set (nal_hrd_present + vcl_hrd_present) (do copy_bits 1; done tt)
  copy_bits 1
  rewrite_restriction max_num_ref_frames

unfoldable pub add_vui : ℕ → Script (Unit {0})
add_vui max_num_ref_frames = do
  put_bits 0 2
  put_bits 0 1
  put_bits 0 5
  put_bits 1 1
  add_bitstream_restriction max_num_ref_frames

-- From `frameMbsOnly` to the cropping.
unfoldable pub copy_frame : Script (Unit {0})
copy_frame = do
  copy_bits 1
  copy_ue
  copy_ue
  frame_mbs_only ← copy_bits 1
  when_set (if frame_mbs_only == 0 then 1 else 0) (do copy_bits 1; done tt)
  copy_bits 1
  _ ← copy_flag (do copy_ue; copy_ue; copy_ue; copy_ue; done tt)
  done tt

-- The whole body behind the NAL header, up to the stop bit.
unfoldable pub sps_script : Script (Unit {0})
sps_script = do
  profile_idc ← copy_bits 8
  copy_bits 8
  copy_bits 8
  copy_ue
  if is_high_profile profile_idc then copy_chroma else done tt
  copy_ue
  copy_pic_order
  max_num_ref_frames ← copy_ue
  copy_frame
  vui_present ← read_field 1
  put_bits 1 1
  if vui_present == 0 then add_vui max_num_ref_frames else rewrite_vui max_num_ref_frames
  put_bits 1 1

abbrev pub finished : Option (Unit {0} × Machines) → Option (List ℕ)
finished none = none
finished (some (_, (_, w))) = some (flush w).arr

-- `none` is the nil that a recovered panic leaves, also that of `sps[0]` on no bytes.
unfoldable pub rewrite_sps_vui : List ℕ → Option (List ℕ)
rewrite_sps_vui [] = none
rewrite_sps_vui (header ∷ body) =
    finished (run (do put_bits header 8; sps_script) (new_bit_reader body) new_bit_writer)
