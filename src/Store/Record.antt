-- ===== src/Store/Record.antt =====
-- crates/epoch-store/src/extent/record.rs: the header and the footer of a record on disk. The
-- checksum is a third-party crate's, and a parameter; it returns a `u32`. Ids are raw `u64` values.
pub mod Disk
use epoch_io.Common.{
  ℕ, ◌+◌, ◌-◌, ◌%◌, ◌^◌, not, Option, none, some, List, [], ◌∷◌, Result, ok, err, ◌==◌, ltb, length,
  if◌then◌else◌, replicate, first_chunk, drop,
}
use epoch_io.Common.Bytes.{to_le_bytes, from_le_bytes, copy_at, read_at, bytes_eq}

abbrev pub record_header_len : ℕ
record_header_len = 32

abbrev pub record_footer_len : ℕ
record_footer_len = 8

abbrev pub record_align : ℕ
record_align = 4096

-- `*b"EPRH"` and `*b"EPRF"`.
abbrev pub header_magic : List ℕ
header_magic = b'E' ∷ b'P' ∷ b'R' ∷ b'H' ∷ []

abbrev pub footer_magic : List ℕ
footer_magic = b'E' ∷ b'P' ∷ b'R' ∷ b'F' ∷ []

pub data RecordError : Type 0 where
  truncated : (got : ℕ) → (need : ℕ) → RecordError
  bad_header_magic bad_footer_magic : RecordError
  header_checksum : (stored : ℕ) → (computed : ℕ) → RecordError
  body_too_large : ℕ → RecordError

pub record RecordHeader : Type 0 where
  pub blob_id : ℕ
  pub shard_id : ℕ
  pub body_len : ℕ

-- `RecordHeader::new`.
unfoldable pub new_header : ℕ → ℕ → ℕ → Result RecordError RecordHeader
new_header blob_id shard_id body_len =
    if ltb body_len (2 ^ 32)
    then ok (record { blob_id = blob_id; shard_id = shard_id; body_len = body_len })
    else err (body_too_large body_len)

module _ (crc32c : List ℕ → ℕ) where
  -- The buffer before the checksum is put in.
  abbrev pub unsealed : RecordHeader → List ℕ
  unsealed h = copy_at 24 (to_le_bytes 4 h.body_len) (
      copy_at 16 (to_le_bytes 8 h.shard_id) (
        copy_at 8 (to_le_bytes 8 h.blob_id)
          (copy_at 4 header_magic (replicate record_header_len 0))))

  unfoldable pub encode : RecordHeader → List ℕ
  encode h = copy_at 0 (to_le_bytes 4 (crc32c (drop 4 (unsealed h)))) (unsealed h)

  abbrev pub stored_crc : List ℕ → ℕ
  stored_crc buf = from_le_bytes (read_at 0 4 buf)

  abbrev pub fields : List ℕ → RecordHeader
  fields buf = record {
    blob_id = from_le_bytes (read_at 8 8 buf);
    shard_id = from_le_bytes (read_at 16 8 buf);
    body_len = from_le_bytes (read_at 24 4 buf);
  }

  -- The checks on a whole header.
  unfoldable pub validate : List ℕ → Result RecordError RecordHeader
  validate buf =
      if not (bytes_eq (read_at 4 4 buf) header_magic)
      then err bad_header_magic
      else if not (stored_crc buf == crc32c (drop 4 buf))
      then err (header_checksum (stored_crc buf) (crc32c (drop 4 buf)))
      else ok (fields buf)

  abbrev pub decode_chunk : Option (List ℕ) → ℕ → Result RecordError RecordHeader
  decode_chunk none got = err (truncated got record_header_len)
  decode_chunk (some chunk) got = validate chunk

  unfoldable pub decode : List ℕ → Result RecordError RecordHeader
  unfolding validate
  decode buf = decode_chunk (first_chunk record_header_len buf) (length buf)

unfoldable pub encode_footer : ℕ → List ℕ
encode_footer body_crc =
    copy_at 4 (to_le_bytes 4 body_crc) (copy_at 0 footer_magic (replicate record_footer_len 0))

abbrev pub decode_footer_chunk : Option (List ℕ) → ℕ → Result RecordError ℕ
decode_footer_chunk none got = err (truncated got record_footer_len)
decode_footer_chunk (some chunk) got =
    if not (bytes_eq (read_at 0 4 chunk) footer_magic)
    then err bad_footer_magic
    else ok (from_le_bytes (read_at 4 4 chunk))

unfoldable pub decode_footer : List ℕ → Result RecordError ℕ
decode_footer buf = decode_footer_chunk (first_chunk record_footer_len buf) (length buf)

-- `usize::next_multiple_of` at the alignment.
abbrev pub padded : ℕ → ℕ
padded raw = if raw % record_align == 0 then raw else raw + (record_align - raw % record_align)

unfoldable pub record_on_disk_len : ℕ → ℕ
record_on_disk_len body_len = padded (record_header_len + body_len + record_footer_len)
