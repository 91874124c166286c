-- ===== src/Rpc/Frame/Wire.antt =====
-- What crates/epoch-rpc/src/frame.rs reads back, and what it refuses.
use epoch_io.Common.{
  ℕ, zero, suc, ◌≡◌, ◌<◌, ◌^◌, refl, ap, ◌∙◌, arith, true, none, List, [], ◌∷◌, ◌++◌, ok, err, ◌==◌,
  ==_refl, length, first_chunk,
}
use epoch_io.Common.Bytes.{from_le_bytes, from_le_bytes-to_le_bytes, read_at, bytes_eq}
use epoch_io.Rpc.Frame.{
  FrameHeader, truncated, frame_header_len, unsealed, zeroed, fields, encode, validate, decode,
}

-- Every field fits its Rust type.
pub record Fits (h : FrameHeader) : Type 0 where
  pub pcode : h.pcode < 256 ^ 2
  pub stream_id : h.stream_id < 256 ^ 4
  pub seq : h.seq < 256 ^ 4
  pub session : h.session < 256 ^ 8
  pub payload_len : h.payload_len < 256 ^ 4
  pub trace_id : h.trace_id < 256 ^ 8
  pub deadline_ms : h.deadline_ms < 256 ^ 4

module _ (crc32c : List ℕ → ℕ) (crc_fits : (bs : List ℕ) → crc32c bs < 256 ^ 4) where
  fields-encode : (h : FrameHeader) → Fits h → fields crc32c (encode crc32c h) ≡ h
  unfolding encode
  fields-encode h fits = λ i. record {
    pcode = from_le_bytes-to_le_bytes 2 h.pcode fits.pcode i;
    flags = h.flags;
    stream_id = from_le_bytes-to_le_bytes 4 h.stream_id fits.stream_id i;
    seq = from_le_bytes-to_le_bytes 4 h.seq fits.seq i;
    session = from_le_bytes-to_le_bytes 8 h.session fits.session i;
    payload_len = from_le_bytes-to_le_bytes 4 h.payload_len fits.payload_len i;
    trace_id = from_le_bytes-to_le_bytes 8 h.trace_id fits.trace_id i;
    deadline_ms = from_le_bytes-to_le_bytes 4 h.deadline_ms fits.deadline_ms i;
  }

  stored_crc :
      (h : FrameHeader)
      → (from_le_bytes (read_at 38 4 (encode crc32c h)) == crc32c (zeroed crc32c (encode crc32c h)))
        ≡ true
  unfolding encode
  stored_crc h =
      let c : ℕ = crc32c (unsealed crc32c h) in
      ap (λ t. t == c) (from_le_bytes-to_le_bytes 4 c (crc_fits (unsealed crc32c h))) ∙ ==_refl c

  decode-append :
      (h : FrameHeader) (rest : List ℕ)
      → decode crc32c (encode crc32c h ++ rest) ≡ validate crc32c (encode crc32c h)
  unfolding decode encode
  decode-append h rest = refl

  -- Decoding an encoded header, whatever follows it in the buffer, gives the header back; the
  -- encoding is 50 bytes long.
  pub decode-encode :
      (h : FrameHeader) (rest : List ℕ)
      → Fits h
      → (decode crc32c (encode crc32c h ++ rest) ≡ ok h)
        × (length (encode crc32c h) ≡ frame_header_len)
  decode-encode h rest fits =
      (decode-append h rest ∙ valid ∙ ap ok (fields-encode h fits), unfold encode in refl)
    where
      valid : validate crc32c (encode crc32c h) ≡ ok (fields crc32c (encode crc32c h))
      valid = unfold validate encode bytes_eq in rw (stored_crc h) refl

first_chunk-short {ℓ} : {A : Type ℓ} (n : ℕ) (xs : List A) → length xs < n → first_chunk n xs ≡ none
first_chunk-short zero xs h = absurd (omega arith)
first_chunk-short (suc n) [] h = refl
first_chunk-short (suc n) (x ∷ xs) h = rw (first_chunk-short n xs (omega arith)) refl

module _ (crc32c : List ℕ → ℕ) where
  -- A buffer shorter than a header is refused with its length, before anything in it is read.
  pub decode_short :
      (buf : List ℕ)
      → length buf < frame_header_len
      → decode crc32c buf ≡ err (truncated (length buf) frame_header_len)
  unfolding decode
  decode_short buf h = rw (first_chunk-short frame_header_len buf h) refl
