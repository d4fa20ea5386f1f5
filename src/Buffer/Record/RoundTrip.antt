-- ===== src/Buffer/Record/RoundTrip.antt =====
-- src/buffer.rs: what `read_record` reads of the bytes that `push` writes.
use softnix_log_agent.Prelude.{
  ℕ, ◌+◌, ◌≤◌, ◌<◌, ◌≡◌, some, List, ◌++◌, length, drop, ==-refl, ge→ltb, arith, length-append,
  take-length-append, drop-length-append,
}
use softnix_log_agent.Buffer.Record.{
  Codec, ok, header_len, to_le_bytes, read_header, read_payload, read_record, encode_record,
}

module _ {E : Type 0} (codec : Codec E) where
  -- A payload that the header can describe: not empty, and with a 32-bit length and checksum.
  pub record IsPayload (payload : List ℕ) : Type 0 where
    pub nonempty : 0 < length payload
    pub len_fits : length payload < 4294967296
    pub hash_fits : codec.hash payload < 4294967296

  pub length-encode_record :
      (payload : List ℕ) → length (encode_record codec payload) ≡ header_len + length payload
  unfolding encode_record to_le_bytes
  length-encode_record payload = omega arith

  read_header-encode_record :
      (payload tail : List ℕ)
      → IsPayload payload
      → read_header (encode_record codec payload ++ tail)
        ≡ some (length payload, codec.hash payload, payload ++ tail)
  unfolding read_header encode_record to_le_bytes
  read_header-encode_record payload tail v = ground arith

  read_payload-append :
      (payload tail : List ℕ)
      → read_payload codec (length payload) (codec.hash payload) (payload ++ tail)
        ≡ ok payload (header_len + length payload)
  unfolding read_payload
  read_payload-append payload tail = rw (
    ge→ltb (length (payload ++ tail)) (length payload) (omega (arith, length-append payload tail)),
    take-length-append payload tail,
    ==-refl,
  )

  -- A written record reads back as its payload, whatever follows it, under any bound that its
  -- length meets.
  pub read_record-encode_record :
      (payload tail : List ℕ) (max : ℕ)
      → IsPayload payload
      → length payload ≤ max
      → read_record codec (encode_record codec payload ++ tail) max
        ≡ ok payload (header_len + length payload)
  unfolding read_record
  read_record-encode_record payload tail max v h = ground (
    arith,
    read_header-encode_record payload tail v,
    read_payload-append payload tail,
    v.nonempty,
  )

  pub drop-encode_record :
      (payload tail : List ℕ)
      → drop (header_len + length payload) (encode_record codec payload ++ tail) ≡ tail
  drop-encode_record payload tail =
      rw (← length-encode_record payload) (drop-length-append (encode_record codec payload) tail)
