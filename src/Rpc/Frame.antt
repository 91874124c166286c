-- ===== src/Rpc/Frame.antt =====
-- crates/epoch-rpc/src/frame.rs: the fixed 50-byte frame header. The checksum is a third-party
-- crate's, and a parameter; it returns a `u32`.
pub mod Wire
use epoch_io.Common.{
  ℕ, ◌≡◌, Bool, true, false, not, Option, none, some, List, [], ◌∷◌, Result, ok, err, ◌==◌, length,
  if◌then◌else◌, replicate, first_chunk, get_or,
}
use epoch_io.Common.Bytes.{to_le_bytes, from_le_bytes, copy_at, read_at, bytes_eq}

abbrev pub frame_header_len : ℕ
frame_header_len = 50

-- `*b"ER"`.
abbrev pub frame_magic : List ℕ
frame_magic = b'E' ∷ b'R' ∷ []

abbrev pub protocol_version : ℕ
protocol_version = 1

pub data FrameError : Type 0 where
  truncated : (got : ℕ) → (need : ℕ) → FrameError
  bad_magic : FrameError
  version : (got : ℕ) → FrameError
  header_checksum : (stored : ℕ) → (computed : ℕ) → FrameError

pub record FrameHeader : Type 0 where
  pub pcode : ℕ
  pub flags : ℕ
  pub stream_id : ℕ
  pub seq : ℕ
  pub session : ℕ
  pub payload_len : ℕ
  pub trace_id : ℕ
  pub deadline_ms : ℕ

module _ (crc32c : List ℕ → ℕ) where
  -- The buffer before the checksum is put in.
  abbrev pub unsealed : FrameHeader → List ℕ
  unsealed h = copy_at 34 (to_le_bytes 4 h.deadline_ms) (
      copy_at 26 (to_le_bytes 8 h.trace_id) (
        copy_at 22 (to_le_bytes 4 h.payload_len) (
          copy_at 14 (to_le_bytes 8 h.session) (
            copy_at 10 (to_le_bytes 4 h.seq) (
              copy_at 6 (to_le_bytes 4 h.stream_id) (
                copy_at 4 (to_le_bytes 2 h.pcode) (
                  copy_at 3 (h.flags ∷ []) (
                    copy_at 2 (protocol_version ∷ [])
                      (copy_at 0 frame_magic (replicate frame_header_len 0))))))))))

  unfoldable pub encode : FrameHeader → List ℕ
  encode h = copy_at 38 (to_le_bytes 4 (crc32c (unsealed h))) (unsealed h)

  abbrev pub zeroed : List ℕ → List ℕ
  zeroed buf = copy_at 38 (replicate 4 0) buf

  abbrev pub fields : List ℕ → FrameHeader
  fields buf = record {
    pcode = from_le_bytes (read_at 4 2 buf);
    flags = get_or buf 3 0;
    stream_id = from_le_bytes (read_at 6 4 buf);
    seq = from_le_bytes (read_at 10 4 buf);
    session = from_le_bytes (read_at 14 8 buf);
    payload_len = from_le_bytes (read_at 22 4 buf);
    trace_id = from_le_bytes (read_at 26 8 buf);
    deadline_ms = from_le_bytes (read_at 34 4 buf);
  }

  -- The checks on a whole header.
  unfoldable pub validate : List ℕ → Result FrameError FrameHeader
  validate buf =
      if not (bytes_eq (read_at 0 2 buf) frame_magic)
      then err bad_magic
      else if not (get_or buf 2 0 == protocol_version)
      then err (version (get_or buf 2 0))
      else if not (from_le_bytes (read_at 38 4 buf) == crc32c (zeroed buf))
      then err (header_checksum (from_le_bytes (read_at 38 4 buf)) (crc32c (zeroed buf)))
      else ok (fields buf)

  abbrev pub decode_chunk : Option (List ℕ) → ℕ → Result FrameError FrameHeader
  decode_chunk none got = err (truncated got frame_header_len)
  decode_chunk (some chunk) got = validate chunk

  unfoldable pub decode : List ℕ → Result FrameError FrameHeader
  unfolding validate
  decode buf = decode_chunk (first_chunk frame_header_len buf) (length buf)
