-- ===== src/Record/Encode.antt =====
-- `Key::to_be_bytes` and the two `encode` methods of `RecordCodec`.
use logregator.Common.{
  ℕ, ◌+◌, ◌%◌, ◌^◌, List, ◌++◌, Bool, not, ◌&&◌, leb, ltb, ◌==◌, length, to_be_bytes,
}
use logregator.Codec.{not_enough_bytes, invalid_payload_size, io, Encoder}
use logregator.Codec.Buffer.{◌>>=◌, ◌>>◌, return, len, fail_if, copy, within}
use logregator.Record.{
  Key, Record, key_size, payload_len_size, min_payload_length, max_payload_length,
  min_record_wire_length, max_record_wire_length, wire_len,
}

-- The four fields, in the order `source_id`, `timestamp`, `sequence_num`, `stream_id`.
unfoldable pub key_bytes : Key → List ℕ
key_bytes k =
    to_be_bytes 8 k.source_id
    ++ to_be_bytes 8 k.timestamp
    ++ to_be_bytes 8 k.sequence_num
    ++ to_be_bytes 8 k.stream_id

-- `dst.try_into()` to a `&mut [u8; 32]` fails unless `dst` has that length.
unfoldable pub encode_key : Key → Encoder ℕ
encode_key k = do
  n ← len
  fail_if (ltb n key_size) (not_enough_bytes n key_size)
  fail_if (not (n == key_size)) io
  copy 0 key_size (key_bytes k)
  return key_size

-- `(MIN_PAYLOAD_LENGTH..=MAX_PAYLOAD_LENGTH).contains(&n)`
abbrev pub valid_payload_len : ℕ → Bool
valid_payload_len n = leb min_payload_length n && leb n max_payload_length

unfoldable pub encode_record : Record → Encoder ℕ
encode_record rec = do
  n ← len
  fail_if (ltb n (wire_len rec)) (not_enough_bytes n (wire_len rec))
  within 0 key_size (encode_key rec.key)
  fail_if (not (valid_payload_len (length rec.payload)))
      (invalid_payload_size (length rec.payload) max_record_wire_length min_record_wire_length)
  copy key_size (key_size + payload_len_size) (to_be_bytes 4 (length rec.payload % 2 ^ 32))
  copy (key_size + payload_len_size) (key_size + payload_len_size + length rec.payload) rec.payload
  return (wire_len rec)

-- The frame that a successful `encode_record` leaves at the front of `dst`.
unfoldable pub record_bytes : Record → List ℕ
record_bytes rec = key_bytes rec.key ++ to_be_bytes 4 (length rec.payload % 2 ^ 32) ++ rec.payload
