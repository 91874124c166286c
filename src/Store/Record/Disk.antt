-- ===== src/Store/Record/Disk.antt =====
-- What crates/epoch-store/src/extent/record.rs reads back from disk.
use epoch_io.Common.{
  ℕ, ◌+◌, ◌≡◌, ◌<◌, ◌≤◌, ◌%◌, ◌^◌, refl, ap, ◌∙◌, arith, true, List, ◌++◌, ok, ◌==◌, ==_refl,
  length, drop,
}
use epoch_io.Common.Bytes.{from_le_bytes-to_le_bytes, bytes_eq}
use epoch_io.Store.Record.{
  RecordHeader, record_header_len, record_footer_len, record_align, new_header, unsealed,
  stored_crc, fields, encode, validate, decode, encode_footer, decode_footer, record_on_disk_len,
}

module _ (crc32c : List ℕ → ℕ) (crc_fits : (bs : List ℕ) → crc32c bs < 256 ^ 4) where
  fields-encode :
      (h : RecordHeader)
      → h.blob_id < 256 ^ 8
      → h.shard_id < 256 ^ 8
      → h.body_len < 256 ^ 4
      → fields crc32c (encode crc32c h) ≡ h
  unfolding encode
  fields-encode h hb hs hl = λ i. record {
    blob_id = from_le_bytes-to_le_bytes 8 h.blob_id hb i;
    shard_id = from_le_bytes-to_le_bytes 8 h.shard_id hs i;
    body_len = from_le_bytes-to_le_bytes 4 h.body_len hl i;
  }

  crc_matches :
      (h : RecordHeader)
      → (stored_crc crc32c (encode crc32c h) == crc32c (drop 4 (encode crc32c h))) ≡ true
  unfolding encode
  crc_matches h =
      let c : ℕ = crc32c (drop 4 (unsealed crc32c h)) in
      ap (λ t. t == c) (from_le_bytes-to_le_bytes 4 c (crc_fits (drop 4 (unsealed crc32c h))))
      ∙ ==_refl c

  decode-append :
      (h : RecordHeader) (rest : List ℕ)
      → decode crc32c (encode crc32c h ++ rest) ≡ validate crc32c (encode crc32c h)
  unfolding decode encode
  decode-append h rest = refl

  new_header-fits :
      (blob_id shard_id body_len : ℕ) (h : RecordHeader)
      → new_header blob_id shard_id body_len ≡ ok h
      → (body_len < 256 ^ 4)
        × (h ≡ record { blob_id = blob_id; shard_id = shard_id; body_len = body_len })
  unfolding new_header
  new_header-fits b s n h e = ground arith

  -- A header that was built, encoded and written in front of a body decodes to itself: 32 bytes
  -- that hold the blob, the shard and the body's length.
  pub decode-encode_record :
      (blob_id shard_id body_len : ℕ) (h : RecordHeader) (rest : List ℕ)
      → blob_id < 256 ^ 8
      → shard_id < 256 ^ 8
      → new_header blob_id shard_id body_len ≡ ok h
      → (decode crc32c (encode crc32c h ++ rest) ≡ ok h)
        × (length (encode crc32c h) ≡ record_header_len)
        × (h ≡ record { blob_id = blob_id; shard_id = shard_id; body_len = body_len })
  decode-encode_record b s n h rest hb hs e =
      let (hl, eq) = new_header-fits b s n h e in
      (
        decode-append h rest
            ∙ valid
            ∙ ap ok (fields-encode h (ground arith) (ground arith) (ground arith)),
        unfold encode in refl,
        eq,
      )
    where
      valid : validate crc32c (encode crc32c h) ≡ ok (fields crc32c (encode crc32c h))
      valid = unfold validate encode bytes_eq in rw (crc_matches h) refl

-- An encoded footer, whatever follows it, decodes to the checksum it holds, and is eight bytes long.
pub decode_footer-encode_footer :
    (body_crc : ℕ) (rest : List ℕ)
    → body_crc < 256 ^ 4
    → (decode_footer (encode_footer body_crc ++ rest) ≡ ok body_crc)
      × (length (encode_footer body_crc) ≡ record_footer_len)
unfolding decode_footer encode_footer bytes_eq
decode_footer-encode_footer c rest h = (ap ok (from_le_bytes-to_le_bytes 4 c h), refl)

-- The space of a record is the least multiple of the alignment that holds its header, body and
-- footer.
pub record_on_disk_len-padded :
    (body_len : ℕ)
    → (record_header_len + body_len + record_footer_len ≤ record_on_disk_len body_len)
      × (record_on_disk_len body_len
          < record_header_len + body_len + record_footer_len + record_align)
      × (record_on_disk_len body_len % record_align ≡ 0)
unfolding record_on_disk_len
record_on_disk_len-padded n = ground arith
