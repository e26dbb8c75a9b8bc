-- ===== src/Framed/Tests.antt =====
-- Runs of the reader and the writer, and the round trip at a concrete stream.
use logregator.Common.{ℕ, ◌≡◌, refl, List, [], ◌∷◌, ◌++◌, arith, take, drop, to_be_bytes}
use logregator.Codec.Buffer.{◌>>=◌, return, len, fail_if, copy, within}
use logregator.Record.{Record, IsEncodable}
use logregator.Record.Codec.{record_codec}
use logregator.Record.Encode.{key_bytes, encode_key, encode_record, record_bytes}
use logregator.Framed.{item, finished, new_reader, new_writer, write}
use logregator.Framed.Fill.{flatten}
use logregator.Framed.RoundTrip.{items, IsTorn, write_all, items-write_all}

abbrev sample : Record
sample = record {
  key = record { stream_id = 4; timestamp = 2; sequence_num = 3; source_id = 1 };
  payload = 0 ∷ 170 ∷ 187 ∷ [];
}

sample-IsEncodable : IsEncodable sample
sample-IsEncodable = omega arith

-- One frame and three bytes of another, in reads of 10, 30 and 2 bytes.
abbrev chunks : List (List ℕ)
chunks =
    take 10 (record_bytes sample) ∷ (drop 10 (record_bytes sample) ++ (0 ∷ [])) ∷ (0 ∷ 0 ∷ []) ∷ []

zeros-IsTorn : IsTorn (0 ∷ 0 ∷ 0 ∷ [])
unfolding record_bytes key_bytes to_be_bytes
zeros-IsTorn = (sample, 0, drop 4 (record_bytes sample), sample-IsEncodable, refl)

chunks_whole : flatten chunks ≡ (write_all new_writer (sample ∷ [])).inner ++ (0 ∷ 0 ∷ 0 ∷ [])
unfolding write_all write encode_record encode_key key_bytes record_bytes to_be_bytes ◌>>=◌ return
    len fail_if copy within
chunks_whole = refl

items-write_all_example : items record_codec 50 2 (new_reader chunks) ≡ item sample ∷ finished ∷ []
unfolding record_bytes key_bytes to_be_bytes
items-write_all_example =
    items-write_all (sample ∷ []) chunks (0 ∷ 0 ∷ 0 ∷ []) 50 (sample-IsEncodable, tt) (omega arith)
      zeros-IsTorn chunks_whole (omega arith)
