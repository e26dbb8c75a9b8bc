-- ===== src/Sst/Cursor.antt =====
-- `SstCursor` (logregator-tsdb/src/sst.rs) after it was opened: `next` and `take_current`, on a file of
-- known bytes. A `todo!` is a panic.
pub mod Pull
pub mod Reads
mod Tests
use logregator.Common.{
  ℕ, ◌+◌, Bool, true, false, Option, none, some, List, Outcome, ok, err, panic, leb, if◌then◌else◌,
  length, get_elem?,
}
use logregator.Common.Bound.{Bound}
use logregator.Codec.{CodecError, SpecCodec}
use logregator.Record.{Key, Record}
use logregator.Block.{Block}
use logregator.Block.Cursor
use logregator.Block.Cursor.{BlockCursor, seek_to_first}
use logregator.Memtable.Set.{before_end}
use logregator.MergeIter
use logregator.Sst.{BlockMetadata}
use logregator.Sst.Finalize.{SstHandle}
use logregator.Sst.Handle.{read_block}
use logregator.Sst.Writer.{SstError, block_idx_out_of_bounds, block_cursor_exhausted}

pub record SstCursor : Type 0 where
  pub sst : SstHandle (List ℕ)
  pub block_cursor : Outcome SstError BlockCursor
  pub block_idx : ℕ
  pub end_bound : Bound Key

-- `BlockCursor::take_current`
abbrev pub taken_record : Outcome CodecError (Option Record) → Option Record
taken_record (ok o) = o
taken_record (err e) = none
taken_record panic = none

abbrev pub take_from : SstCursor → Outcome SstError BlockCursor → Option Record × SstCursor
take_from c (ok bc) =
    (taken_record bc.current, record c { block_cursor = ok (record bc { current = ok none }) })
take_from c (err e) = (none, c)
take_from c panic = (none, c)

unfoldable pub take_current : SstCursor → Option Record × SstCursor
take_current c = take_from c c.block_cursor

abbrev pub in_bounds : Bound Key → Option BlockMetadata → Bool
in_bounds end none = false
in_bounds end (some meta) = before_end end meta.first_key

unfoldable pub next_block_may_be_in_bounds : SstCursor → Bool
next_block_may_be_in_bounds c = in_bounds c.end_bound (get_elem? c.sst.block_metadata c.block_idx)

module _ (crc : List ℕ → ℕ) (codec : SpecCodec Record) where
  -- The new cursor over the block that was read, or the error in its place.
  abbrev pub placed : SstCursor → Outcome SstError Block → Outcome SstError SstCursor
  placed c (ok block) = ok (record c { block_cursor = ok (seek_to_first codec (Cursor.new block)) })
  placed c (err e) = ok (record c { block_cursor = err e })
  placed c panic = panic

  unfoldable pub update_current : SstCursor → Outcome SstError SstCursor
  update_current c =
      let len = length c.sst.block_metadata in
      if leb len c.block_idx
      then ok (record c { block_cursor = err (block_idx_out_of_bounds c.block_idx len) })
      else placed c (read_block crc c.sst c.block_idx)

  -- The end of `next`, with the number of the block advanced.
  abbrev pub next_block : SstCursor → Outcome SstError SstCursor
  next_block c =
      if next_block_may_be_in_bounds c
      then update_current c
      else ok (record c { block_cursor = err block_cursor_exhausted })

  -- What `next` does with what the advanced block cursor stands on.
  abbrev pub advanced :
      SstCursor → BlockCursor → Outcome CodecError (Option Record) → Outcome SstError SstCursor
  advanced c bc (ok (some rec)) = ok (record c { block_cursor = ok bc })
  advanced c bc (ok none) =
      next_block (record c { block_cursor = ok bc; block_idx = c.block_idx + 1 })
  advanced c bc (err e) = panic
  advanced c bc panic = panic

  abbrev pub next_of_block : SstCursor → Outcome SstError BlockCursor → Outcome SstError SstCursor
  next_of_block c (ok bc) = advanced c (Cursor.next codec bc) (Cursor.next codec bc).current
  next_of_block c (err e) = ok c
  next_of_block c panic = panic

  unfoldable pub next : SstCursor → Outcome SstError SstCursor
  next c = next_of_block c c.block_cursor

  -- The cursor that the merge iterator reads.
  abbrev pub sst_cursor : MergeIter.Cursor SstError SstCursor
  sst_cursor = record { next = next; take_current = take_current }
