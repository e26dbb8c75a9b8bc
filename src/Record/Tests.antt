-- ===== src/Record/Tests.antt =====
-- Runs of the record codec, and its theorems at concrete inputs.
use logregator.Common.{
  ◌≡◌, refl, List, [], ◌∷◌, ◌++◌, none, some, ok, err, arith, ℕ, ◌≤◌, length, drop, replicate,
  to_be_bytes, from_be_bytes, range,
}
use logregator.Codec.{invalid_payload_size}
use logregator.Codec.Buffer.{◌>>=◌, return, len, fail_if, copy, within}
use logregator.Record.{Record, IsEncodable, wire_len}
use logregator.Record.Encode.{key_bytes, encode_key, encode_record, record_bytes}
use logregator.Record.Decode.{
  key_from_be_bytes, decode_key, check_payload_size, decode_payload, decode_record,
}
use logregator.Record.RoundTrip.{decode_record-encode_record}
use logregator.Record.Sound.{decode_record_sound, decode_record_torn}

abbrev sample : Record
sample = record {
  key = record { stream_id = 4; timestamp = 2; sequence_num = 3; source_id = 1 };
  payload = 0 ∷ 170 ∷ 187 ∷ [];
}

abbrev sample_bytes : List ℕ
sample_bytes =
    0 ∷ 0 ∷ 0 ∷ 0 ∷ 0 ∷ 0 ∷ 0 ∷ 1 ∷ 0 ∷ 0 ∷ 0 ∷ 0 ∷ 0 ∷ 0 ∷ 0 ∷ 2 ∷ 0 ∷ 0 ∷ 0 ∷ 0 ∷ 0 ∷ 0 ∷ 0 ∷ 3
    ∷ 0 ∷ 0 ∷ 0 ∷ 0 ∷ 0 ∷ 0 ∷ 0 ∷ 4 ∷ 0 ∷ 0 ∷ 0 ∷ 3 ∷ 0 ∷ 170 ∷ 187 ∷ []

encode_sample : encode_record sample (replicate 40 9) ≡ (ok 39, sample_bytes ++ (9 ∷ []))
unfolding encode_record encode_key key_bytes to_be_bytes ◌>>=◌ return len fail_if copy within
encode_sample = refl

decode_sample : decode_record (sample_bytes ++ (9 ∷ [])) ≡ ok (some (sample, 39))
unfolding decode_record decode_key decode_payload key_from_be_bytes check_payload_size range
    from_be_bytes
decode_sample = refl

decode_bad_length : decode_record (replicate 36 0) ≡ err (invalid_payload_size 0 4132 38)
unfolding decode_record decode_key decode_payload key_from_be_bytes check_payload_size range
    from_be_bytes
decode_bad_length = refl

sample-IsEncodable : IsEncodable sample
sample-IsEncodable = omega arith

decode_record-encode_record_example :
    ((encode_record sample (replicate 40 9)).0 ≡ ok (wire_len sample))
    × (decode_record ((encode_record sample (replicate 40 9)).1 ++ (7 ∷ []))
        ≡ ok (some (sample, wire_len sample)))
decode_record-encode_record_example =
    decode_record-encode_record sample (replicate 40 9) (7 ∷ []) sample-IsEncodable (omega arith)

decode_record_sound_example :
    IsEncodable sample
    × (39 ≡ wire_len sample)
    × (39 ≤ length (sample_bytes ++ (9 ∷ [])))
    × (record_bytes sample ++ drop 39 (sample_bytes ++ (9 ∷ [])) ≡ sample_bytes ++ (9 ∷ []))
decode_record_sound_example =
    decode_record_sound (sample_bytes ++ (9 ∷ [])) sample 39 (omega arith) decode_sample

sample_frame : sample_bytes ≡ record_bytes sample
unfolding record_bytes key_bytes to_be_bytes
sample_frame = refl

decode_record_torn_example : decode_record (0 ∷ 0 ∷ []) ≡ ok none
decode_record_torn_example =
    decode_record_torn sample (0 ∷ 0 ∷ []) (drop 3 sample_bytes) 0 sample-IsEncodable sample_frame
