-- ===== src/Lib.antt =====
-- Verification of logregator-tsdb, the storage engine of logregator.
--
-- The engine is a log-structured merge tree. Records (logregator-tsdb/src/record.rs) carry a key of
-- four integers and a payload; the memtable (memtable.rs) keeps the latest of them in the order of
-- their keys; a full memtable is frozen and flushed (io.rs) by way of blocks (block.rs) to sorted
-- tables on disk. Every stream has a set of labels, which the registry (label.rs) indexes and the
-- manifest persists. All of it is written through the codecs of codec.rs.
--
-- Files, and the code that they model:
--   Common    what the components share: lists and numbers, machine integers as bytes
--             (Common/Bytes), the outcome of a fallible call with its panics (Common/Fallible), hash
--             maps and sets (Common/Maps), range bounds (Common/Bound)
--   Codec     logregator-tsdb/src/codec.rs: CodecError, the trait SpecCodec, and in Codec/Buffer the
--             statements that encoders write to a mutable slice with: an encoder takes the bytes of
--             the slice and returns its result and the bytes afterwards
--   Framed    FramedReader and FramedWriter of logregator-tsdb/src/codec.rs, the reader over an
--             explicit sequence of reads, the writer over a vector
--   Record    logregator-tsdb/src/record.rs: Key and Record, the derived order (Record/Order), the
--             two codecs of RecordCodec (Record/Encode, Record/Decode)
--   Memtable  logregator-tsdb/src/memtable.rs: MemtableInner with its operations; the BTreeSet is the
--             list of its elements in order (Memtable/Set)
--   Block     logregator-tsdb/src/block.rs: Block with encode_block and decode_block (Block/Format),
--             BlockWriter (Block/Writer) and BlockCursor (Block/Cursor)
--   Label     logregator-tsdb/src/label.rs: LabelMap, StreamRegistry (Label/Registry), LabelMapCodec
--             (Label/Codec)
--   Sst       logregator-tsdb/src/sst.rs: BlockMetadata and its codec, HashedWriterState with new,
--             write and flush_blocks (Sst/Writer), and finalize (Sst/Finalize). The file is any
--             writer that tells whether it wrote everything; the hasher is the bytes it was given.
--             Sst/Handle has read_block, on a file that is a list of bytes, and Sst/Cursor the SstCursor
--             over it after it was opened
--   Counter   logregator-tsdb/src/counter.rs
--   MergeIter logregator-tsdb/src/merge_iter.rs: the iterator, over the cursors of sorted tables as an
--             interface (Cursor, which Sst/Cursor fills, and in MergeIter/Fill the law Yields, under
--             which the iterator is reasoned about); the BinaryHeap is a list (MergeIter/Heap)
--   Lsm       logregator-tsdb/src/lsm.rs: LsmTree with append_batch and drain_sst_queue, and the
--             messages of io.rs. Lsm/Labeled has LabeledIter of label.rs and range; the other files
--             reason about the registry (Lsm/Registered), the tables (Lsm/Put, Lsm/Stored), batches
--             (Lsm/Append, Lsm/Batch, Lsm/Errors) and ranges (Lsm/Range)
--   Manifest  logregator-tsdb/src/manifest.rs: the entries and their codec (Manifest/Codec), the
--             snapshot that replaying them gives, and the merge of two snapshots
--   Io        flush_memtable of logregator-tsdb/src/io.rs, up to the handle of the table
--   Bloom     logregator-tsdb/src/bloom.rs: BloomFilter without its float arithmetic, and the encoder
--             of its codec (Bloom/Codec)
--
-- How the code is translated: a method on `&mut self` returns the new state beside its result; an
-- early return or `?` is an `err`; an index or a slice out of range, a `copy_from_slice` of another
-- length and a `todo!` are a `panic`, so that a theorem that gives an `ok` or an `err` says that the
-- code does not panic. Integers are natural numbers, with `as u16` and its like as a remainder; sums
-- of lengths stay far below the range of usize and do not wrap. Byte strings are lists of natural
-- numbers, and a theorem that needs them to be bytes says so. Loops are by structural recursion, but
-- for the one of FramedReader::next, which is on fuel: each turn takes a byte at least from the
-- stream, so that one turn more than there are bytes is enough. The recursion of
-- HashedWriterState::write is on fuel too; two calls are enough.
--
-- Parameters: the checksum of the crate crc32fast (assumed to fit 32 bits where that matters), the
-- parsers be_u8 and take of the crate nom with their documented laws, the hash of the crate fnv, and
-- the fingerprint that the standard library's DefaultHasher computes. In Io, creating a file is a
-- function that may fail, and the filter for a number of records, sized in floating point, a function.
--
-- In append_batch, the clock gives a number with each payload, the channel is the list of what was
-- sent, and locks are left out. Reading an iterator to its end is on fuel; one call more than there
-- are records is enough.
--
-- Not modelled: texts of error messages, logging and Debug output, capacities of vectors, poisoned
-- locks, and the components of the crate that have no file above (the rest of sst.rs, the files of
-- manifest.rs, wal.rs, the decoder of the filter). LsmTree::recover ends in unimplemented!. The opening of an SstCursor, BlockCursor::seek and
-- FramedWriter::write_with are not modelled. The other crates of the repository are servers, clients,
-- tools, and the older engine that this one replaces.
pub mod Common
pub mod Codec
pub mod Record
pub mod Memtable
pub mod Block
pub mod Label
pub mod Framed
pub mod Counter
pub mod Sst
pub mod Bloom
pub mod MergeIter
pub mod Lsm
pub mod Io
pub mod Manifest
