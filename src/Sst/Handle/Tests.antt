-- ===== src/Sst/Handle/Tests.antt =====
-- A file of two blocks of one record each, and its handle.
use logregator.Common.{ℕ, ◌≡◌, refl, List, [], ◌∷◌, ◌++◌, ok, length, arith}
use logregator.Block.Tests.{toy_crc, toy_crc-IsU32, sample}
use logregator.Block.Writer.Holds.{length-frames-cons}
use logregator.Block.Writer.IntoBlock.{IsFinished}
use logregator.Sst.Finalize.{SstHandle}
use logregator.Sst.Handle.{read_block}
use logregator.Sst.Handle.ReadBlock.{read_block_lem}
use logregator.Sst.Writer.Placed.{Placed, IsPlaced, Listed, bytes_of, block_of, into_block-IsPlaced}
use logregator.Sst.Writer.Tests.{one_record, one_record-Holds, full_filter}

pub one_record-IsFinished : IsFinished one_record (sample ∷ [])
one_record-IsFinished = (one_record-Holds, (λ e. cc e), omega (arith, length-frames-cons sample []))

abbrev pub block : Placed
block = record {
  records = sample ∷ [];
  bytes =
      (into_block-IsPlaced toy_crc toy_crc-IsU32 one_record (sample ∷ []) one_record-IsFinished).0;
}

pub block-IsPlaced : IsPlaced toy_crc block
block-IsPlaced =
    (into_block-IsPlaced toy_crc toy_crc-IsU32 one_record (sample ∷ []) one_record-IsFinished).2

abbrev pub two_blocks : SstHandle (List ℕ)
two_blocks = record {
  fh = bytes_of (block ∷ block ∷ []) ++ (1 ∷ 2 ∷ []);
  block_metadata =
      record { offset = 0; first_key = sample.key; last_key = sample.key }
      ∷ record { offset = length block.bytes; first_key = sample.key; last_key = sample.key }
      ∷ [];
  block_metadata_start_offset = length (bytes_of (block ∷ block ∷ []));
  bloom = full_filter;
}

pub two_blocks-Listed : Listed 0 (block ∷ block ∷ []) two_blocks.block_metadata
two_blocks-Listed = (refl, refl, refl, (omega arith, refl, refl, tt))

read_block_lem_example : read_block toy_crc two_blocks 1 ≡ ok (block_of (sample ∷ []))
read_block_lem_example =
    read_block_lem toy_crc two_blocks (block ∷ []) block [] (1 ∷ 2 ∷ []) block-IsPlaced
      two_blocks-Listed refl refl
