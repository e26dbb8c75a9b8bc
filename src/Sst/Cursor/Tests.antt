-- ===== src/Sst/Cursor/Tests.antt =====
-- A cursor that stands on the first record of a table of two blocks of one record each.
use logregator.Common.{◌≡◌, refl, [], ◌∷◌, none, some, ok}
use logregator.Common.Bound.{unbounded}
use logregator.Block.Tests.{toy_crc, sample, sample-IsEncodable}
use logregator.Sst.Cursor.{SstCursor}
use logregator.Sst.Cursor.Pull.{standing}
use logregator.Sst.Cursor.Reads.{steps, IsWritten, IsAt, steps-IsAt}
use logregator.Sst.Handle.Tests.{block, block-IsPlaced, two_blocks, two_blocks-Listed}
use logregator.Sst.Writer.Placed.{block_of}

abbrev on_first : SstCursor
on_first = record {
  sst = two_blocks;
  block_cursor = ok (standing (block_of block.records) 0 (ok (some sample)));
  block_idx = 0;
  end_bound = unbounded;
}

two_blocks-IsWritten : IsWritten toy_crc two_blocks (block ∷ block ∷ []) unbounded
two_blocks-IsWritten = record {
  rest = 1 ∷ 2 ∷ [];
  blocks = (block-IsPlaced, (block-IsPlaced, tt));
  encodable = ((sample-IsEncodable, tt), ((sample-IsEncodable, tt), tt));
  listed = two_blocks-Listed;
  start = refl;
  file = refl;
  begins = λ i m h. refl;
}

on_first-IsAt : IsAt toy_crc on_first [] block (block ∷ []) (sample ∷ []) []
on_first-IsAt = record {
  i = 0;
  cur = ok (some sample);
  cursor = refl;
  split = refl;
  place = refl;
  idx = refl;
  table = two_blocks-IsWritten;
}

steps-IsAt_example : steps toy_crc 2 on_first ≡ ok (some sample ∷ none ∷ [])
steps-IsAt_example =
    steps-IsAt toy_crc (block ∷ []) [] on_first [] block (sample ∷ []) on_first-IsAt
