-- ===== src/Sst/Finalize/Fails.antt =====
-- No table is ever finalized, since the codec of the filter panics.
use logregator.Common.{
  ℕ, ◌+◌, ◌%◌, ◌^◌, ◌≡◌, ◌≢◌, le→ltb, refl, ap, sym, ◌∙◌, inl, inr, Bool, true, false, Bool-cases,
  List, Outcome, ok, err, panic, length, replicate, length-replicate, arith, ltb, if◌then◌else◌,
}
use logregator.Codec.{CodecError, SpecCodec}
use logregator.Record.{Key}
use logregator.Bloom.{BloomFilter}
use logregator.Bloom.Codec
use logregator.Bloom.Codec.{wire_len, encode_lem}
use logregator.Sst.{encode_metas}
use logregator.Sst.Writer.{SstError, HashedWriterState, Left, flush_blocks}
use logregator.Sst.Finalize.{
  Finalized, SstHandle, has_keys, put, put_bloom, put_footer, put_metas, put_tail, finalize,
  handle_of, finalize_file,
}

abbrev Fails : {A : Type 0} → Outcome SstError A → Type 0
Fails {A = A} out = (a : A) → ¬ (out ≡ ok a)

encode-panic :
    (f : BloomFilter)
    → Codec.encode f (replicate (wire_len f) 0) ≡ (panic, replicate (wire_len f) 0)
encode-panic f =
    encode_lem f (replicate (wire_len f) 0)
    ∙ rw (length-replicate {A = ℕ} (wire_len f) 0, le→ltb (wire_len f) (wire_len f) (omega arith))

put-Fails :
    {W : Type 0} (s : HashedWriterState W) (bytes : List ℕ) (k : HashedWriterState W → Finalized W)
    → ((t : HashedWriterState W) → Fails (k t))
    → (out : Bool × W) → Fails (put s bytes k out)
put-Fails s bytes k h (false, w) f e = cc e
put-Fails s bytes k h (true, w) f e = h _ f e

handle_of-Fails : {W : Type 0} (out : Finalized W) → Fails out → Fails (handle_of out)
handle_of-Fails (ok f) h a e = h f refl
handle_of-Fails (err x) h a e = cc e
handle_of-Fails panic h a e = cc e

module _ {W : Type 0} (write_all : W → List ℕ → Bool × W) (crc : List ℕ → ℕ) where
  put_bloom-Fails :
      (k : HashedWriterState W → Finalized W) (s t : HashedWriterState W)
      → Fails (
          put_bloom write_all crc k t
            (Codec.encode s.state.bloom (replicate (wire_len s.state.bloom) 0)))
  put_bloom-Fails k s t f e =
      cc (sym e ∙ ap (put_bloom write_all crc k t) (encode-panic s.state.bloom))

  put_metas-Fails :
      (s : HashedWriterState W) (out : Outcome CodecError (List ℕ))
      → Fails (put_metas write_all crc s out)
  put_metas-Fails s (ok bytes) f e =
      let start = s.state.block_bytes_written % 2 ^ 32 in
      put-Fails s bytes _
        (λ t.
          put_bloom-Fails
            (put_footer write_all crc start ((start + length bytes % 2 ^ 32) % 2 ^ 32)) t t)
        (write_all s.state.writer bytes) f e
  put_metas-Fails s (err x) f e = cc e
  put_metas-Fails s panic f e = cc e

  module _ (codec : SpecCodec Key) where
    put_tail-Fails : (out : Left W) → Fails (put_tail write_all crc codec out)
    put_tail-Fails (ok done, s) f e =
        elim (Bool-cases (has_keys s.state.first_key s.state.last_key)) [
          | inl both ↦
              put_metas-Fails s (encode_metas codec crc s.state.block_meta) f (rw both at e)
          | inr missing ↦ cc (rw missing at e)
        ]
    put_tail-Fails (err x, s) f e = cc e
    put_tail-Fails (panic, s) f e = cc e

    -- Finalizing a file never returns a handle, whatever the state of the writer, the file and the
    -- codec of the keys.
    pub finalize_file-fails :
        (s : HashedWriterState W) (h : SstHandle W) → finalize_file write_all crc codec s ≢ ok h
    unfolding finalize_file finalize
    finalize_file-fails s h =
        handle_of-Fails (finalize write_all crc codec s)
          (put_tail-Fails
            (if ltb 0 s.state.block_writer.size then flush_blocks write_all crc s else (ok tt, s)))
          h
