-- ===== src/Block.antt =====
-- logregator-tsdb/src/block.rs: fixed-size blocks of records with an index of offsets and a checksum.
pub mod Format
pub mod RoundTrip
pub mod Sound
pub mod Writer
pub mod Cursor
pub mod Tests
use logregator.Common.{ℕ, ◌+◌, ◌*◌, ◌-◌, ◌^◌, Option, List, length}
use logregator.Record.{min_record_wire_length}

pub record Block : Type 0 where
  pub data_bytes : List ℕ
  pub offsets : List ℕ

abbrev pub default_block_size : ℕ
default_block_size = 16 * 1024

-- `u16::MAX`
abbrev pub max_block_size : ℕ
max_block_size = 2 ^ 16 - 1

-- `BlockCodecError`, its nested errors flattened.
pub data BlockError : Type 0 where
  too_many_records : ℕ → BlockError
  max_size_exceeded : ℕ → BlockError
  invalid_offsets : (start end : ℕ) → BlockError
  invalid_offset_segment : (start end len : Option ℕ) → BlockError
  invalid_payload_size : (got max min : ℕ) → BlockError
  corrupted_metadata : BlockError
  unexpected_size : (got want : ℕ) → BlockError
  checksum_mismatch : (original computed : ℕ) → BlockError

unfoldable pub num_of_records : Block → ℕ
num_of_records b = length b.offsets

unfoldable pub offset_segment_start : Block → ℕ
offset_segment_start b = length b.data_bytes

unfoldable pub offset_segment_len : Block → ℕ
offset_segment_len b = length b.offsets * 2

unfoldable pub offset_segment_end : Block → ℕ
unfolding offset_segment_start offset_segment_len
offset_segment_end b = offset_segment_start b + offset_segment_len b
