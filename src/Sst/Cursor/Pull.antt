-- ===== src/Sst/Cursor/Pull.antt =====
-- One step of the merge iterator on a cursor of a table: `next`, then `take_current`.
use logregator.Common.{
  ℕ, ◌+◌, ◌<◌, ◌≡◌, ap, ◌∙◌, true, Option, none, some, List, Outcome, ok, err, panic, ◌>>=◌, length,
  get_elem?,
}
use logregator.Codec.{CodecError}
use logregator.Record.{Record}
use logregator.Record.Codec.{record_codec}
use logregator.Block.{Block}
use logregator.Block.Cursor
use logregator.Block.Cursor.{BlockCursor, current_record, seek_to_first}
use logregator.Block.Cursor.Scan.{stop_at}
use logregator.Memtable.Set.{before_end}
use logregator.MergeIter.Fill.{pull}
use logregator.Sst.{BlockMetadata}
use logregator.Sst.Cursor.{
  SstCursor, take_current, taken_record, take_from, next, next_of_block, advanced, update_current,
  next_block_may_be_in_bounds, sst_cursor,
}
use logregator.Sst.Handle.{read_block}
use logregator.Sst.Writer.{SstError, block_cursor_exhausted}
use logregator.Sst.Writer.Table.{leb-false}

-- A block cursor that stands somewhere in a block.
abbrev pub standing : Block → ℕ → Outcome CodecError (Option Record) → BlockCursor
standing b i cur = record { block = b; offset_idx = i; current = cur }

pub current_of_record :
    (c : BlockCursor) (r : Record) → current_record c ≡ some r → c.current ≡ ok (some r)
unfolding current_record
current_of_record c r e = go c.current e
  where
    go :
        (o : Outcome CodecError (Option Record))
        → current_record (standing c.block c.offset_idx o) ≡ some r
        → o ≡ ok (some r)
    go (ok o) h = ap ok h
    go (err x) h = cc h
    go panic h = cc h

module _ (crc : List ℕ → ℕ) where
  abbrev pub step_of : SstCursor → Outcome SstError (Option Record × SstCursor)
  step_of = pull (sst_cursor crc record_codec)

  take_after : Outcome SstError SstCursor → Outcome SstError (Option Record × SstCursor)
  take_after m = m >>= λ c'. ok (take_current c')

  -- The next record of the block.
  pub pull-record :
      (c : SstCursor) (b : Block) (i : ℕ) (cur : Outcome CodecError (Option Record)) (r : Record)
      → c.block_cursor ≡ ok (standing b i cur)
      → (stop_at b (i + 1)).current ≡ ok (some r)
      → step_of c ≡ ok (some r, record c { block_cursor = ok (standing b (i + 1) (ok none)) })
  unfolding next take_current Cursor.next Cursor.update_current take_after
  pull-record c b i cur r e h =
      ap (λ o. take_after (next_of_block crc record_codec c o)) e
      ∙ ap (λ u. take_after (advanced crc record_codec c (stop_at b (i + 1)) u)) h
      ∙ ap (λ u. ok (taken_record u, record c { block_cursor = ok (standing b (i + 1) (ok none)) }))
          h

  -- The first record of the next block.
  pub pull-block :
      (c : SstCursor) (b b' : Block) (i : ℕ) (cur : Outcome CodecError (Option Record))
      (m : BlockMetadata) (r : Record)
      → c.block_cursor ≡ ok (standing b i cur)
      → (stop_at b (i + 1)).current ≡ ok none
      → get_elem? c.sst.block_metadata (c.block_idx + 1) ≡ some m
      → before_end c.end_bound m.first_key ≡ true
      → c.block_idx + 1 < length c.sst.block_metadata
      → read_block crc c.sst (c.block_idx + 1) ≡ ok b'
      → (stop_at b' 0).current ≡ ok (some r)
      → step_of c
        ≡ ok (
          some r,
          record c { block_cursor = ok (standing b' 0 (ok none)); block_idx = c.block_idx + 1 },
        )
  unfolding next take_current Cursor.next Cursor.update_current take_after update_current
      next_block_may_be_in_bounds seek_to_first Cursor.new
  pull-block c b b' i cur m r e h found begins lt reads first =
      ap (λ o. take_after (next_of_block crc record_codec c o)) e
      ∙ ap (λ u. take_after (advanced crc record_codec c (stop_at b (i + 1)) u)) h
      ∙ rw (found, begins, leb-false (length c.sst.block_metadata) (c.block_idx + 1) lt, reads)
          (ap
            (λ u. ok (
              taken_record u,
              record c { block_cursor = ok (standing b' 0 (ok none)); block_idx = c.block_idx + 1 },
            ))
            first)

  -- The end of the table.
  pub pull-end :
      (c : SstCursor) (b : Block) (i : ℕ) (cur : Outcome CodecError (Option Record))
      → c.block_cursor ≡ ok (standing b i cur)
      → (stop_at b (i + 1)).current ≡ ok none
      → get_elem? c.sst.block_metadata (c.block_idx + 1) ≡ none
      → step_of c
        ≡ ok (
          none,
          record c { block_cursor = err block_cursor_exhausted; block_idx = c.block_idx + 1 },
        )
  unfolding next take_current Cursor.next Cursor.update_current take_after
      next_block_may_be_in_bounds
  pull-end c b i cur e h over =
      ap (λ o. take_after (next_of_block crc record_codec c o)) e
      ∙ ap (λ u. take_after (advanced crc record_codec c (stop_at b (i + 1)) u)) h
      ∙ rw over

  pub pull-exhausted :
      (c : SstCursor) (x : SstError) → c.block_cursor ≡ err x → step_of c ≡ ok (none, c)
  unfolding next take_current take_after
  pull-exhausted c x e =
      ap (λ o. take_after (next_of_block crc record_codec c o)) e ∙ ap (λ o. ok (take_from c o)) e
