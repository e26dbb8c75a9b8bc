-- ===== src/Sst/Finalize.antt =====
-- `HashedWriterState::finalize` and `SstFileWriter::finalize_file` (logregator-tsdb/src/sst.rs).
pub mod Fails
use logregator.Common.{
  ℕ, ◌+◌, ◌%◌, ◌^◌, Bool, true, false, Option, none, some, List, ◌++◌, Outcome, ok, err, panic, ltb,
  if◌then◌else◌, length, replicate, to_be_bytes,
}
use logregator.Codec.{CodecError, SpecCodec}
use logregator.Record.{Key}
use logregator.Bloom.{BloomFilter}
use logregator.Bloom.Codec
use logregator.Bloom.Codec.{wire_len}
use logregator.Sst.{BlockMetadata, encode_metas}
use logregator.Sst.Writer.{
  SstError, io, codec_error, finalize_missing_keys, HashedWriterState, WriterState, Left,
  flush_blocks,
}

pub record FinalizedWriterState (W : Type 0) : Type 0 where
  pub inner : WriterState W
  pub block_metadata_start_offset : ℕ
  pub bloom_filter_start_offset : ℕ

pub record SstHandle (W : Type 0) : Type 0 where
  pub fh : W
  pub block_metadata : List BlockMetadata
  pub block_metadata_start_offset : ℕ
  pub bloom : BloomFilter

abbrev pub has_keys : Option Key → Option Key → Bool
has_keys (some first) (some last) = true
has_keys (some first) none = false
has_keys none last = false

-- `finalize` owns the state, so that nothing of it is left after an error.
abbrev pub Finalized : Type 0 → Type 0
Finalized W = Outcome SstError (FinalizedWriterState W)

-- `writer.write_all(bytes)?`, and the hasher updated with the same bytes.
abbrev pub put :
    {W : Type 0}
    → HashedWriterState W
    → List ℕ
    → (HashedWriterState W → Finalized W)
    → Bool × W
    → Finalized W
put s bytes k (false, w) = err io
put s bytes k (true, w) = k (record {
  state = record s.state { writer = w };
  integrity_hasher = s.integrity_hasher ++ bytes;
})

abbrev pub handle_of : {W : Type 0} → Finalized W → Outcome SstError (SstHandle W)
handle_of (ok f) = ok (record {
  fh = f.inner.writer;
  block_metadata = f.inner.block_meta;
  block_metadata_start_offset = f.block_metadata_start_offset;
  bloom = f.inner.bloom;
})
handle_of (err e) = err e
handle_of panic = panic

module _ {W : Type 0} (write_all : W → List ℕ → Bool × W) (crc : List ℕ → ℕ) where
  abbrev pub write_then :
      List ℕ → (HashedWriterState W → Finalized W) → HashedWriterState W → Finalized W
  write_then bytes k s = put s bytes k (write_all s.state.writer bytes)

  -- 3. to 5. of the layout; the last bytes are the checksum of all those before.
  abbrev pub put_footer : ℕ → ℕ → HashedWriterState W → Finalized W
  put_footer block_meta_start bloom_filter_start = write_then (to_be_bytes 4 block_meta_start) (
      write_then (to_be_bytes 4 bloom_filter_start) (λ s.
        write_then (to_be_bytes 4 (crc s.integrity_hasher))
          (λ last. ok (record {
            inner = last.state;
            block_metadata_start_offset = block_meta_start;
            bloom_filter_start_offset = bloom_filter_start;
          }))
          s))

  -- 2. of the layout: the buffer that the codec of the filter leaves.
  abbrev pub put_bloom :
      (HashedWriterState W → Finalized W)
      → HashedWriterState W
      → Outcome CodecError ℕ × List ℕ
      → Finalized W
  put_bloom k s (ok n, bloom_buf) = write_then bloom_buf k s
  put_bloom k s (err e, bloom_buf) = err (codec_error e)
  put_bloom k s (panic, bloom_buf) = panic

  -- 1. of the layout, and all that follows.
  abbrev pub put_metas : HashedWriterState W → Outcome CodecError (List ℕ) → Finalized W
  put_metas s (ok block_meta_bytes) =
      let block_meta_start = s.state.block_bytes_written % 2 ^ 32 in
      let bloom_filter_start = (block_meta_start + length block_meta_bytes % 2 ^ 32) % 2 ^ 32 in
      write_then block_meta_bytes
        (λ t.
          put_bloom (put_footer block_meta_start bloom_filter_start) t
            (Codec.encode t.state.bloom (replicate (wire_len t.state.bloom) 0)))
        s
  put_metas s (err e) = err (codec_error e)
  put_metas s panic = panic

  module _ (codec : SpecCodec Key) where
    abbrev pub put_tail : Left W → Finalized W
    put_tail (ok done, s) =
        if has_keys s.state.first_key s.state.last_key
        then put_metas s (encode_metas codec crc s.state.block_meta)
        else err finalize_missing_keys
    put_tail (err e, s) = err e
    put_tail (panic, s) = panic

    unfoldable pub finalize : HashedWriterState W → Finalized W
    finalize s =
        put_tail
          (if ltb 0 s.state.block_writer.size then flush_blocks write_all crc s else (ok tt, s))

    unfoldable pub finalize_file : HashedWriterState W → Outcome SstError (SstHandle W)
    finalize_file s = handle_of (finalize s)
