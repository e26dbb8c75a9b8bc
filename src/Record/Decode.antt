-- ===== src/Record/Decode.antt =====
-- `Key::from_be_bytes`, the two `decode` methods of `RecordCodec` and `check_payload_size`.
use logregator.Common.{
  ℕ, ◌+◌, List, Option, none, some, not, Outcome, ok, err, ◌>>=◌, ◌>>◌, ltb, if◌then◌else◌, length,
  range, from_be_bytes,
}
use logregator.Codec.{CodecError, not_enough_bytes, invalid_payload_size, Decoder}
use logregator.Record.{
  Key, Record, key_size, payload_len_size, min_record_wire_length, max_record_wire_length,
}
use logregator.Record.Encode.{valid_payload_len}

unfoldable pub key_from_be_bytes : List ℕ → Outcome CodecError Key
key_from_be_bytes src =
    if ltb (length src) key_size then err (not_enough_bytes (length src) key_size) else (do
      source_id ← range src 0 8
      timestamp ← range src 8 16
      sequence_num ← range src 16 24
      stream_id ← range src 24 32
      ok (record {
        stream_id = from_be_bytes stream_id;
        timestamp = from_be_bytes timestamp;
        sequence_num = from_be_bytes sequence_num;
        source_id = from_be_bytes source_id;
      }))

unfoldable pub decode_key : Decoder Key
decode_key src =
    if ltb (length src) key_size
    then ok none
    else (do bytes ← range src 0 key_size; k ← key_from_be_bytes bytes; ok (some (k, key_size)))

unfoldable pub check_payload_size : ℕ → Outcome CodecError (Unit {0})
check_payload_size n =
    if not (valid_payload_len n)
    then err (invalid_payload_size n max_record_wire_length min_record_wire_length)
    else ok tt

-- What `decode` does once the key is read.
unfoldable pub decode_payload : List ℕ → Key → Outcome CodecError (Option (Record × ℕ))
decode_payload src key = do
  len_bytes ← range src key_size (key_size + 4)
  let payload_len = from_be_bytes len_bytes
  check_payload_size payload_len
  let total = key_size + payload_len_size + payload_len
  if ltb (length src) total then ok none else (do
    payload ← range src (key_size + payload_len_size) total
    ok (some (record { key = key; payload = payload }, total)))

unfoldable pub decode_record : Decoder Record
decode_record src =
    if ltb (length src) (key_size + payload_len_size)
    then ok none
    else (do o ← decode_key src; elim o [ none ↦ ok none | some (key, _) ↦ decode_payload src key ])
