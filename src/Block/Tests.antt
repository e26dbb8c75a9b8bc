-- ===== src/Block/Tests.antt =====
-- The theorems on blocks at concrete inputs, with the sum of the bytes for the checksum.
use logregator.Common.{
  ℕ, ◌+◌, ◌%◌, ◌^◌, ◌⊎◌, some, none, ◌≡◌, refl, List, [], ◌∷◌, ◌++◌, ok, length, replicate, arith,
  IsU32, range, to_be_bytes, from_be_bytes,
}
use logregator.Codec.Buffer.{◌>>=◌, return, len, fail_if, copy, within}
use logregator.Record.{Record, IsEncodable}
use logregator.Record.Codec.{record_codec}
use logregator.Record.Encode.{key_bytes, encode_key, encode_record, record_bytes}
use logregator.Block.Writer.{BlockWriter, new, write, into_block, written, full}
use logregator.Block.Writer.Holds.{Holds, frames, IsAccepted, new-Holds, write-Holds}
use logregator.Block.Writer.IntoBlock.{scan-into_block}
use logregator.Block.Cursor
use logregator.Block.Cursor.{seek_to_first}
use logregator.Block.Cursor.Scan.{scan}
use logregator.Block.{Block}
use logregator.Block.Format.{check_offsets, read_u16s, decode_body, encode_block, decode_block}
use logregator.Block.RoundTrip.{IsWellFormed, offset_bytes, decode_block-encode_block}
use logregator.Block.Sound.{decode_block_sound}

abbrev add_up : List ℕ → ℕ
add_up [] = 0
add_up (x ∷ xs) = x + add_up xs

abbrev pub toy_crc : List ℕ → ℕ
toy_crc bs = add_up bs % 2 ^ 32

pub toy_crc-IsU32 : (bs : List ℕ) → IsU32 (toy_crc bs)
toy_crc-IsU32 bs = omega arith

abbrev two : Block
two = record { data_bytes = replicate 79 5; offsets = 0 ∷ 40 ∷ [] }

two-IsWellFormed : IsWellFormed two
two-IsWellFormed = record {
  some_record = λ h. cc;
  spaced = omega arith;
  room = omega arith;
  data_room = omega arith;
}

decode_block-encode_block_example :
    (bytes : List ℕ) × (encode_block toy_crc two ≡ ok bytes)
    × (bytes ≡ (
        two.data_bytes
        ++ offset_bytes two.offsets
        ++ to_be_bytes 2 (length two.offsets)
        ++ to_be_bytes 4 (
            toy_crc
              (two.data_bytes ++ offset_bytes two.offsets ++ to_be_bytes 2 (length two.offsets)))))
    × (length bytes ≡ 89)
    × (decode_block toy_crc bytes ≡ ok two)
decode_block-encode_block_example =
    decode_block-encode_block toy_crc toy_crc-IsU32 two two-IsWellFormed

abbrev two_bytes : List ℕ
two_bytes = replicate 79 5 ++ (0 ∷ 0 ∷ 0 ∷ 40 ∷ 0 ∷ 2 ∷ 0 ∷ 0 ∷ 1 ∷ 181 ∷ [])

decode_two : decode_block toy_crc two_bytes ≡ ok two
unfolding decode_block decode_body range from_be_bytes read_u16s check_offsets
decode_two = refl

decode_block_sound_example : encode_block toy_crc two ≡ ok two_bytes
decode_block_sound_example =
    decode_block_sound toy_crc two_bytes two (omega arith) decode_two (λ e. cc e) (omega arith)
      (omega arith)

abbrev pub sample : Record
sample = record {
  key = record { stream_id = 4; timestamp = 2; sequence_num = 3; source_id = 1 };
  payload = 0 ∷ 170 ∷ 187 ∷ [];
}

pub sample-IsEncodable : IsEncodable sample
sample-IsEncodable = omega arith

abbrev tiny_writer : BlockWriter
tiny_writer = record {
  buffer = [];
  offsets = [];
  size = 0;
  limit = 20;
  record_count = 0;
  first_key = none;
  last_key = none;
}

new_tiny : new (some 20) ≡ ok tiny_writer
unfolding new
new_tiny = refl

-- The writer after a first record, which is longer than its limit.
abbrev one_writer : BlockWriter
one_writer = record {
  buffer = frames (sample ∷ []);
  offsets = 0 ∷ [];
  size = 39;
  limit = 20;
  record_count = 1;
  first_key = some sample.key;
  last_key = some sample.key;
}

write_first : write record_codec tiny_writer sample ≡ (ok written, one_writer)
unfolding write encode_record encode_key key_bytes record_bytes to_be_bytes ◌>>=◌ return len fail_if
    copy within
write_first = refl

write_second : write record_codec one_writer sample ≡ (ok full, one_writer)
unfolding write record_bytes key_bytes to_be_bytes
write_second = refl

one_writer-Holds : Holds one_writer (sample ∷ [])
unfolding record_bytes key_bytes to_be_bytes
one_writer-Holds = record {
  buffer = refl;
  offsets = refl;
  size = refl;
  record_count = refl;
  first_key = refl;
  last_key = refl;
  encodable = (sample-IsEncodable, tt);
  room = omega arith;
}

tiny_writer-Holds : Holds tiny_writer []
tiny_writer-Holds = (new-Holds (some 20) tiny_writer new_tiny).0

write-Holds_example :
    (IsAccepted one_writer (sample ∷ []) sample
      × (w' : BlockWriter) × (write record_codec one_writer sample ≡ (ok written, w'))
      × Holds w' (sample ∷ sample ∷ [])
      × (w'.limit ≡ 20))
    ⊎ ((¬ IsAccepted one_writer (sample ∷ []) sample)
        × (write record_codec one_writer sample ≡ (ok full, one_writer)))
write-Holds_example =
    write-Holds one_writer (sample ∷ []) sample one_writer-Holds sample-IsEncodable

scan-into_block_example :
    (some sample.key ≡ some sample.key)
    × (some sample.key ≡ some sample.key)
    × (bytes : List ℕ) × (encode_block toy_crc (into_block one_writer).0 ≡ ok bytes)
    × (b : Block) × (decode_block toy_crc bytes ≡ ok b)
    × (scan record_codec 2 (seek_to_first record_codec (Cursor.new b)) ≡ some sample ∷ none ∷ [])
unfolding into_block
scan-into_block_example =
    scan-into_block toy_crc toy_crc-IsU32 one_writer (sample ∷ [])
      (one_writer-Holds, (λ h. cc), omega arith)
