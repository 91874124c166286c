-- ===== src/Tests/Frames.antt =====
-- Frames and records at concrete inputs, with a checksum that adds the bytes up.
use epoch_io.Common.{ℕ, ◌+◌, ◌%◌, ◌^◌, ◌≡◌, ◌<◌, refl, arith, List, [], ◌∷◌, ◌++◌, ok, length}
use epoch_io.Rpc.Frame as Frame
use epoch_io.Rpc.Frame.{FrameHeader, FrameError, frame_header_len}
use epoch_io.Rpc.Frame.Wire.{decode-encode}
use epoch_io.Store.Record as Record
use epoch_io.Store.Record.{
  RecordHeader, record_header_len, record_footer_len, record_align, new_header, encode_footer,
  decode_footer, record_on_disk_len,
}
use epoch_io.Store.Record.Disk.{decode-encode_record}

abbrev sum_bytes : List ℕ → ℕ
sum_bytes [] = 0
sum_bytes (b ∷ bs) = b + sum_bytes bs

abbrev stub_crc : List ℕ → ℕ
stub_crc bs = sum_bytes bs % 2 ^ 32

stub_crc-lt : (bs : List ℕ) → stub_crc bs < 256 ^ 4
stub_crc-lt bs = omega arith

abbrev sample_header : FrameHeader
sample_header = record {
  pcode = 258;
  flags = 3;
  stream_id = 77;
  seq = 5;
  session = 70000;
  payload_len = 4096;
  trace_id = 9;
  deadline_ms = 250;
}

decode-encode_example :
    (Frame.decode stub_crc (Frame.encode stub_crc sample_header ++ (1 ∷ 2 ∷ [])) ≡ ok sample_header)
    × (length (Frame.encode stub_crc sample_header) ≡ frame_header_len)
decode-encode_example = decode-encode stub_crc stub_crc-lt sample_header (1 ∷ 2 ∷ []) (record {
  pcode = omega arith;
  stream_id = omega arith;
  seq = omega arith;
  session = omega arith;
  payload_len = omega arith;
  trace_id = omega arith;
  deadline_ms = omega arith;
})

abbrev sample_record : RecordHeader
sample_record = record { blob_id = 300; shard_id = 500; body_len = 1000 }

built : new_header 300 500 1000 ≡ ok sample_record
unfolding new_header
built = refl

decode-encode_record_example :
    (Record.decode stub_crc (Record.encode stub_crc sample_record ++ (1 ∷ [])) ≡ ok sample_record)
    × (length (Record.encode stub_crc sample_record) ≡ record_header_len)
    × (sample_record ≡ record { blob_id = 300; shard_id = 500; body_len = 1000 })
decode-encode_record_example =
    decode-encode_record stub_crc stub_crc-lt 300 500 1000 sample_record (1 ∷ []) (omega arith)
      (omega arith) built
