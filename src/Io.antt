-- ===== src/Io.antt =====
-- logregator-tsdb/src/io.rs: `flush_memtable`, up to the handle of the table. The appends to the
-- manifest come behind it.
pub mod Panics
pub mod Ascending
mod Tests
use logregator.Common.{
  ℕ, Bool, Option, none, some, List, [], ◌∷◌, Outcome, ok, err, panic, map_err, ◌>>=◌,
}
use logregator.Codec.{SpecCodec}
use logregator.Record.{Key, Record}
use logregator.Memtable.{Memtable, MemtableError, key_bounds_full, count}
use logregator.Memtable.Set.{range}
use logregator.Bloom.{BloomFilter}
use logregator.Sst.Writer
use logregator.Sst.Writer.{SstError, io, invalid_limit, HashedWriterState, Left, and_then, write}
use logregator.Sst.Finalize.{SstHandle, finalize_file}

pub data FlushError : Type 0 where
  memtable_error : MemtableError → FlushError
  sst_error : SstError → FlushError

-- `create` makes the file of a table; `filter` is `BloomFilter::new`, which computes in floating point.
module _ {W : Type 0} (create : ℕ → Option W) (filter : ℕ → BloomFilter) where
  abbrev pub opened_file :
      Option ℕ → BloomFilter → Option W → Outcome SstError (HashedWriterState W)
  opened_file block_limit bloom none = err io
  opened_file block_limit bloom (some fh) = map_err invalid_limit (Writer.new fh bloom block_limit)

  -- `SstFileWriter::new`
  unfoldable pub file_writer : ℕ → Option ℕ → ℕ → Outcome SstError (HashedWriterState W)
  file_writer id block_limit record_count =
      opened_file block_limit (filter record_count) (create id)

  module _ (write_all : W → List ℕ → Bool × W) (crc hash_1 hash_2 : List ℕ → ℕ)
      (record_codec : SpecCodec Record) (key_codec : SpecCodec Key) where
    -- The loop over the range; two calls are fuel enough for a record that the codec accepts.
    unfoldable pub write_records : List Record → HashedWriterState W → Left W
    write_records [] s = (ok tt, s)
    write_records (rec ∷ recs) s =
        and_then write_all crc (write_records recs)
          (write write_all crc hash_1 hash_2 record_codec 2 rec s)

    abbrev pub finished_file : Left W → Outcome SstError (SstHandle W)
    finished_file (ok done, s) = finalize_file write_all crc key_codec s
    finished_file (err e, s) = err e
    finished_file (panic, s) = panic

    unfoldable pub flush_memtable : Memtable → Option ℕ → Outcome FlushError (SstHandle W)
    flush_memtable m block_size_limit = do
      (start, end) ← map_err memtable_error (key_bounds_full m)
      sw ← map_err sst_error (file_writer m.id block_size_limit (count m))
      recs ← range start end m.set
      map_err sst_error (finished_file (write_records recs sw))
