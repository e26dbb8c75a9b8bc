-- ===== src/Block/Cursor.antt =====
-- `BlockCursor`: the records of a block, one at a time. `Rc<Block>` is the block, and a panic of the
-- slice of the data is kept in the place of the record.
pub mod Scan
use logregator.Common.{
  ℕ, suc, ◌+◌, List, [], ◌∷◌, Option, none, some, Outcome, ok, err, panic, ◌>>=◌, get_elem?, range,
}
use logregator.Codec.{CodecError, SpecCodec}
use logregator.Record.{Record}
use logregator.Block.{Block, offset_segment_start}

pub record BlockCursor : Type 0 where
  pub block : Block
  pub offset_idx : ℕ
  pub current : Outcome CodecError (Option Record)

unfoldable pub new : Block → BlockCursor
new b = record { block = b; offset_idx = 0; current = ok none }

unfoldable pub current_record : BlockCursor → Option Record
current_record c = elim c.current [ ok o ↦ o | err e ↦ none | panic ↦ none ]

-- `self.block.offsets[i + 1]`, or the end of the data after the last record.
abbrev pub or_end : ℕ → Option ℕ → ℕ
or_end end none = end
or_end end (some o) = o

unfoldable pub end_offset : Block → ℕ → ℕ
unfolding offset_segment_start
end_offset b i = or_end (offset_segment_start b) (get_elem? b.offsets (i + 1))

abbrev pub fst_of : Outcome CodecError (Option (Record × ℕ)) → Outcome CodecError (Option Record)
fst_of (ok (some (rec, n))) = ok (some rec)
fst_of (ok none) = ok none
fst_of (err e) = err e
fst_of panic = panic

module _ (codec : SpecCodec Record) where
  unfoldable pub update_current : BlockCursor → BlockCursor
  update_current c = record {
    block = c.block;
    offset_idx = c.offset_idx;
    current = elim (get_elem? c.block.offsets c.offset_idx) [
      | none ↦ ok none
      | some start_offset ↦ fst_of (do
        record_bs ← range c.block.data_bytes start_offset (end_offset c.block c.offset_idx)
        codec.decode record_bs)
    ];
  }

  unfoldable pub next : BlockCursor → BlockCursor
  next c =
      update_current
        (record { block = c.block; offset_idx = c.offset_idx + 1; current = c.current })

  unfoldable pub seek_to_first : BlockCursor → BlockCursor
  seek_to_first c = update_current (record { block = c.block; offset_idx = 0; current = c.current })
