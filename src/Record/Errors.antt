-- ===== src/Record/Errors.antt =====
-- `decode` on every input, and what `encode` does when it refuses.
use logregator.Common.{
  ℕ, ◌+◌, ◌≤◌, ◌≡◌, not, List, none, some, arith, ok, err, ltb, le→ltb, if◌then◌else◌, Bool-cases,
  inl, inr, ltb→le, length, slice, take, slice-take, range-ok, from_be_bytes, length-take,
}
use logregator.Codec.{invalid_payload_size}
use logregator.Record.{
  Key, Record, key_size, payload_len_size, min_record_wire_length, max_record_wire_length,
}
use logregator.Record.Encode.{valid_payload_len}
use logregator.Record.Decode.{
  key_from_be_bytes, decode_key, check_payload_size, decode_payload, decode_record,
}

-- The key that stands at the front of `src`, and the payload length behind it.
abbrev pub key_of : List ℕ → Key
key_of src = record {
  stream_id = from_be_bytes (slice src 24 32);
  timestamp = from_be_bytes (slice src 8 16);
  sequence_num = from_be_bytes (slice src 16 24);
  source_id = from_be_bytes (slice src 0 8);
}

abbrev pub payload_len_of : List ℕ → ℕ
payload_len_of src = from_be_bytes (slice src key_size (key_size + payload_len_size))

key_from_be_bytes-eq : (src : List ℕ) → 32 ≤ length src → key_from_be_bytes src ≡ ok (key_of src)
unfolding key_from_be_bytes
key_from_be_bytes-eq src h = rw (
  le→ltb (length src) 32 h,
  range-ok src 0 8 (omega arith) (omega arith),
  range-ok src 8 16 (omega arith) (omega arith),
  range-ok src 16 24 (omega arith) (omega arith),
  range-ok src 24 32 (omega arith) (omega arith),
)

decode_key-eq : (src : List ℕ) → 32 ≤ length src → decode_key src ≡ ok (some (key_of src, key_size))
unfolding decode_key
decode_key-eq src h = rw (
  le→ltb (length src) 32 h,
  range-ok src 0 32 (omega arith) h,
  key_from_be_bytes-eq (take 32 src) (omega (arith, length-take 32 src)),
  slice-take src 0 8 32 (omega arith) (omega arith),
  slice-take src 8 16 32 (omega arith) (omega arith),
  slice-take src 16 24 32 (omega arith) (omega arith),
  slice-take src 24 32 32 (omega arith) (omega arith),
)

-- The record that a complete frame at the front of `src` stands for.
abbrev pub record_of : List ℕ → Record
record_of src = record {
  key = key_of src;
  payload =
      slice src (key_size + payload_len_size) (key_size + payload_len_size + payload_len_of src);
}

abbrev frame_len : List ℕ → ℕ
frame_len src = key_size + payload_len_size + payload_len_of src

decode_payload-eq :
    (src : List ℕ) (key : Key)
    → 36 ≤ length src
    → decode_payload src key ≡ (
        if not (valid_payload_len (payload_len_of src))
        then err (
            invalid_payload_size (payload_len_of src) max_record_wire_length min_record_wire_length)
        else if ltb (length src) (frame_len src)
        then ok none
        else ok (some (record { key = key; payload = (record_of src).payload }, frame_len src)))
unfolding decode_payload check_payload_size
decode_payload-eq src key h =
    rw (range-ok src 32 36 (omega arith) h) (elim (Bool-cases (valid_payload_len n)) [
      | inr invalid ↦ rw invalid
      | inl valid ↦ elim (Bool-cases (ltb (length src) (36 + n))) [
        | inl short ↦ rw (valid, short)
        | inr long ↦ rw (
          valid,
          long,
          range-ok src 36 (36 + n) (omega arith) (ltb→le (length src) (36 + n) long),
        )
      ]
    ])
  where
    n : ℕ
    n = payload_len_of src

-- What `decode` returns on every input, in this order of tests: nothing when the key and the length
-- prefix are not all there, an error when the announced length is out of range, nothing when the
-- payload is not all there, and else the record with the length of its frame. It never panics.
pub decode_record_lem :
    (src : List ℕ)
    → decode_record src ≡ (
        if ltb (length src) (key_size + payload_len_size)
        then ok none
        else if not (valid_payload_len (payload_len_of src))
        then err (
            invalid_payload_size (payload_len_of src) max_record_wire_length min_record_wire_length)
        else if ltb (length src) (key_size + payload_len_size + payload_len_of src)
        then ok none
        else ok (some (record_of src, key_size + payload_len_size + payload_len_of src)))
unfolding decode_record
decode_record_lem src = elim (Bool-cases (ltb (length src) 36)) [
  | inl short ↦ rw short
  | inr long ↦
      let h = ltb→le (length src) 36 long in
      rw (long, decode_key-eq src (omega (arith, h))) (decode_payload-eq src (key_of src) h)
]
