-- ===== src/Sst/Handle.antt =====
-- `SstHandle::read_block` (logregator-tsdb/src/sst.rs), on a file whose bytes are known.
pub mod ReadBlock
pub mod Tests
use logregator.Common.{
  ℕ, suc, ◌+◌, ◌-◌, ◌==◌, Option, none, some, List, [], ◌∷◌, ◌++◌, Outcome, ok, err, panic, map_err,
  ltb, leb, if◌then◌else◌, length, get_elem?, slice, ◌>>=◌,
}
use logregator.Block.{Block}
use logregator.Block.Format.{decode_block}
use logregator.Sst.{BlockMetadata}
use logregator.Sst.Writer.{SstError, io, block_codec_error, block_idx_out_of_bounds}
use logregator.Sst.Finalize.{SstHandle}

-- `.get(i).ok_or(..)?.offset`
abbrev pub offset_or : SstError → Option BlockMetadata → Outcome SstError ℕ
offset_or e none = err e
offset_or e (some m) = ok m.offset

-- `self.block_meta()[i].offset`
abbrev pub offset_at : Option BlockMetadata → Outcome SstError ℕ
offset_at none = panic
offset_at (some m) = ok m.offset

-- `read_exact_at` a place of the file, and the `debug_assert!` before it.
abbrev pub read_exact_at : List ℕ → ℕ → ℕ → Outcome SstError (List ℕ)
read_exact_at file start end =
    if ltb start end
    then (if leb end (length file) then ok (slice file start end) else err io)
    else panic

abbrev pub block_end : SstHandle (List ℕ) → ℕ → Outcome SstError ℕ
block_end h block_idx =
    if block_idx == length h.block_metadata - 1
    then ok h.block_metadata_start_offset
    else offset_at (get_elem? h.block_metadata (block_idx + 1))

unfoldable pub read_block : (List ℕ → ℕ) → SstHandle (List ℕ) → ℕ → Outcome SstError Block
read_block crc h block_idx = do
  start ←
      offset_or (block_idx_out_of_bounds block_idx (length h.block_metadata))
        (get_elem? h.block_metadata block_idx)
  end ← block_end h block_idx
  buf ← read_exact_at h.fh start end
  map_err block_codec_error (decode_block crc buf)
