-- ===== src/H264/Tests.antt =====
-- Runs on concrete inputs, and the theorems at inputs that meet their hypotheses.
use streamly.Prelude.{ℕ, List, [], ◌∷◌, ◌++◌, ◌≡◌, refl, arith}
use streamly.H264.Escape.{unescape, byte_bits}
use streamly.H264.Reader.{BitReader, read_bits, read_ue}
use streamly.H264.Reader.Remaining.{IsReader, remaining}
use streamly.H264.Reader.Refine.{Agrees, take_value, read_bits-Agrees}
use streamly.H264.Writer.{BitWriter, new_bit_writer, write_bits, write_ue}
use streamly.H264.Writer.Written.{IsWriter, written}
use streamly.H264.Writer.Refine.{write_bits-written}
use streamly.H264.Script.{run, run_bits, put_bits, ◌>>◌}
use streamly.H264.Script.Refine.{SameRun, run-SameRun}
use streamly.H264.Sps.{rewrite_sps_vui, sps_script, copy_frame}
use streamly.H264.Sps.Payload.{Writes, rewrite_sps_vui-Writes}
use streamly.Prelude.Bits.{bits}
use streamly.H264.RoundTrip.{Reads, reread, write_ue-read_ue}

-- The body of a baseline parameter set of 1280x720 with no VUI.
abbrev plain_body : List ℕ
plain_body = 0x42 ∷ 0xc0 ∷ 0x1f ∷ 0xda ∷ 0x01 ∷ 0x40 ∷ 0x16 ∷ 0xc4 ∷ []

rewrite_sps_vui-Writes_example :
    Writes
      (run_bits (put_bits 0x67 8 >> sps_script) (byte_bits (unescape 0 plain_body)) [])
      (rewrite_sps_vui (0x67 ∷ plain_body))
rewrite_sps_vui-Writes_example = rewrite_sps_vui-Writes 0x67 plain_body (omega arith)

-- A reader three bits into a buffer whose last zero bytes are escaped.
abbrev mid_reader : BitReader
mid_reader = record { buf = 0xda ∷ 0 ∷ 0 ∷ 3 ∷ 1 ∷ 0x80 ∷ []; byte_offset = 0; bit_offset = 3 }

mid_reader-IsReader : IsReader mid_reader
mid_reader-IsReader = record { inside = omega arith; bytes = omega arith }

abbrev mid_writer : BitWriter
mid_writer = record { arr = 0 ∷ 0 ∷ []; pending_byte = 0; bit_offset = 6 }

mid_writer-IsWriter : IsWriter mid_writer
mid_writer-IsWriter = record {
  inside = omega arith;
  clean = refl;
  byte = omega arith;
  bytes = omega arith;
}

run-SameRun_example :
    SameRun
      (run copy_frame mid_reader mid_writer)
      (run_bits copy_frame (remaining mid_reader) (written mid_writer))
run-SameRun_example =
    run-SameRun copy_frame mid_reader mid_writer mid_reader-IsReader mid_writer-IsWriter

read_bits-Agrees_example :
    Agrees mid_reader.buf (read_bits 30 mid_reader) (take_value 30 0 (remaining mid_reader))
read_bits-Agrees_example = read_bits-Agrees 30 mid_reader mid_reader-IsReader

write_bits-written_example :
    IsWriter (write_bits 0x5 10 mid_writer)
    × (written (write_bits 0x5 10 mid_writer) ≡ written mid_writer ++ bits 10 0x5)
write_bits-written_example = write_bits-written 0x5 10 mid_writer mid_writer-IsWriter

write_ue-read_ue_example : Reads (read_ue (reread (write_ue 12 new_bit_writer))) 12
write_ue-read_ue_example = write_ue-read_ue 12 (omega arith)
