-- ===== src/Sst/Writer.antt =====
-- logregator-tsdb/src/sst.rs: `HashedWriterState::new`, `write` and `flush_blocks`.
pub mod Placed
pub mod Table
pub mod Write
pub mod Tests
use logregator.Common.{
  ℕ, zero, suc, ◌+◌, ◌*◌, ◌/◌, ◌-◌, ◌%◌, ◌^◌, Bool, true, false, Option, none, some, List, [], ◌∷◌,
  ◌++◌, Outcome, ok, err, panic, ltb, leb, if◌then◌else◌, length,
}
use logregator.Codec.{CodecError, SpecCodec}
use logregator.Record.{Key, Record}
use logregator.Block.{Block, BlockError, num_of_records}
use logregator.Block.Format.{encode_block}
use logregator.Block.Writer
use logregator.Block.Writer.{
  BlockWriter, WriteOutput, written, full, InvalidBlockLimit, into_block, or_else,
}
use logregator.Bloom.{BloomFilter, Panics, insert}
use logregator.Sst.{BlockMetadata}

pub data SstError : Type 0 where
  io : SstError
  block_codec_error : BlockError → SstError
  codec_error : CodecError → SstError
  invalid_limit : InvalidBlockLimit → SstError
  sst_filled_up : SstError
  invalid_sst_size : (got min max : ℕ) → SstError
  finalize_missing_keys : SstError
  block_idx_out_of_bounds : (idx len : ℕ) → SstError
  block_cursor_exhausted : SstError

abbrev pub max_sst_size : ℕ
max_sst_size = (2 ^ 32 - 1) / 2

abbrev pub min_sst_size : ℕ
min_sst_size = 4 * 3

pub record WriterState (W : Type 0) : Type 0 where
  pub writer : W
  pub block_bytes_written : ℕ
  pub block_writer : BlockWriter
  pub block_limit : ℕ
  pub block_meta : List BlockMetadata
  pub record_count : ℕ
  pub first_key : Option Key
  pub last_key : Option Key
  pub bloom : BloomFilter

-- The hasher is the bytes that it was updated with.
pub record HashedWriterState (W : Type 0) : Type 0 where
  pub state : WriterState W
  pub integrity_hasher : List ℕ

-- The result of a method, and the state that it leaves.
abbrev pub Left : Type 0 → Type 0
Left W = Outcome SstError (Unit {0}) × HashedWriterState W

abbrev pub with_block_writer :
    {W : Type 0} → HashedWriterState W → BlockWriter → HashedWriterState W
with_block_writer s w = record s { state = record s.state { block_writer = w } }

abbrev pub with_bloom : {W : Type 0} → HashedWriterState W → BloomFilter → HashedWriterState W
with_bloom s b = record s { state = record s.state { bloom = b } }

abbrev pub started :
    {W : Type 0}
    → W
    → BloomFilter
    → Outcome InvalidBlockLimit BlockWriter
    → Outcome InvalidBlockLimit (HashedWriterState W)
started writer bloom (err e) = err e
started writer bloom panic = panic
started writer bloom (ok block_writer) = ok (record {
  state = record {
    writer = writer;
    block_bytes_written = 0;
    block_writer = block_writer;
    block_limit = block_writer.limit;
    block_meta = [];
    record_count = 0;
    first_key = none;
    last_key = none;
    bloom = bloom;
  };
  integrity_hasher = [];
})

-- `bloom` is the filter that `BloomFilter::new` computes in floating point.
unfoldable pub new :
    {W : Type 0} → W → BloomFilter → Option ℕ → Outcome InvalidBlockLimit (HashedWriterState W)
new writer bloom block_limit = started writer bloom (Writer.new block_limit)

-- The end of `flush_blocks`: the keys are unwrapped.
abbrev pub recorded :
    {W : Type 0} → HashedWriterState W → Block → List ℕ → Option Key → Option Key → Left W
recorded s block bytes (some first_key) (some last_key) = (
  ok tt,
  record s {
    state = record s.state {
      block_meta =
          s.state.block_meta
          ++ (record {
            offset = s.state.block_bytes_written % 2 ^ 32;
            first_key = first_key;
            last_key = last_key;
          }
              ∷ []);
      block_bytes_written = s.state.block_bytes_written + length bytes;
      record_count = s.state.record_count + num_of_records block;
      first_key = some (or_else s.state.first_key first_key);
      last_key = some last_key;
    };
  },
)
recorded s block bytes none last_key = (panic, s)
recorded s block bytes (some first_key) none = (panic, s)

-- `write_all` of the writer tells whether all was written.
module _ {W : Type 0} (write_all : W → List ℕ → Bool × W) (crc : List ℕ → ℕ) where
  abbrev pub hashed :
      HashedWriterState W → Block → Option Key → Option Key → List ℕ → Bool × W → Left W
  hashed s block first_key last_key bytes (false, w) =
      (err io, record s { state = record s.state { writer = w } })
  hashed s block first_key last_key bytes (true, w) =
      recorded
        (record {
          state = record s.state { writer = w };
          integrity_hasher = s.integrity_hasher ++ bytes;
        })
        block bytes first_key last_key

  abbrev pub put_block :
      HashedWriterState W → Block → Option Key → Option Key → Outcome BlockError (List ℕ) → Left W
  put_block s block first_key last_key (ok bytes) =
      hashed s block first_key last_key bytes (write_all s.state.writer bytes)
  put_block s block first_key last_key (err e) = (err (block_codec_error e), s)
  put_block s block first_key last_key panic = (panic, s)

  -- `std::mem::replace` of the block writer by a new one.
  abbrev pub replaced : HashedWriterState W → Outcome InvalidBlockLimit BlockWriter → Left W
  replaced s (ok fresh) =
      let (block, first_key, last_key) = into_block s.state.block_writer in
      put_block (with_block_writer s fresh) block first_key last_key (encode_block crc block)
  replaced s (err e) = (err (invalid_limit e), s)
  replaced s panic = (panic, s)

  unfoldable pub flush_blocks : HashedWriterState W → Left W
  flush_blocks s =
      let estimated_bytes = s.state.block_bytes_written + s.state.block_writer.size in
      if leb max_sst_size s.state.block_bytes_written
      then (err sst_filled_up, s)
      else if ltb max_sst_size estimated_bytes
      then (err (invalid_sst_size estimated_bytes min_sst_size max_sst_size), s)
      else replaced s (Writer.new (some s.state.block_limit))

  abbrev pub and_then : (HashedWriterState W → Left W) → Left W → Left W
  and_then f (ok done, s) = f s
  and_then f (err e, s) = (err e, s)
  and_then f (panic, s) = (panic, s)

  -- The two hashes are those of the filter.
  module _ (hash_1 hash_2 : List ℕ → ℕ) (codec : SpecCodec Record) where
    abbrev pub inserted : HashedWriterState W → Panics BloomFilter → Left W
    inserted s (ok bloom) = (ok tt, with_bloom s bloom)
    inserted s (err e) = (panic, s)
    inserted s panic = (panic, s)

    -- What `write` does with the result of the block writer; `again` is the recursive call.
    abbrev pub wrote :
        (HashedWriterState W → Left W)
        → HashedWriterState W
        → Record
        → Outcome CodecError WriteOutput × BlockWriter
        → Left W
    wrote again s rec (ok written, w) =
        inserted (with_block_writer s w) (insert hash_1 hash_2 s.state.bloom rec.key.stream_id)
    wrote again s rec (ok full, w) = and_then again (flush_blocks (with_block_writer s w))
    wrote again s rec (err e, w) = (err (codec_error e), with_block_writer s w)
    wrote again s rec (panic, w) = (panic, with_block_writer s w)

    -- A call that recurs as often as the fuel says overflows the stack.
    unfoldable pub write : ℕ → Record → HashedWriterState W → Left W
    write zero rec s = (panic, s)
    write (suc fuel) rec s =
        if leb max_sst_size s.state.block_bytes_written
        then (err sst_filled_up, s)
        else wrote (write fuel rec) s rec (Writer.write codec s.state.block_writer rec)
