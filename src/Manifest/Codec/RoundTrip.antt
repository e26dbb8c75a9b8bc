-- ===== src/Manifest/Codec/RoundTrip.antt =====
-- `ManifestCodec`, with the codec of label maps: `decode` of what `encode` writes.
use logregator.Common.{
  ℕ, zero, suc, ◌+◌, ◌*◌, ◌%◌, ◌^◌, ◌≤◌, ◌≡◌, refl, sym, ap, ◌∙◌, List, [], ◌∷◌, ◌++◌, some, arith,
  ok, All, length, drop, slice, replicate, length-replicate, range-ok, to_be_bytes, from_be_bytes,
  length-to_be_bytes, from_be_bytes-to_be_bytes, length-append, append_assoc, slice-append,
  slice_last, le→ltb, IsU64,
}
use logregator.Codec.{CodecError}
use logregator.Label.{Label, LabelMap}
use logregator.Label.Codec.{Nom}
use logregator.Label.Codec.RoundTrip.{label_map_bytes, decode_label_map-bytes}
use logregator.Manifest.{ManifestEntry, memtable_flush, compaction, stream_update}
use logregator.Manifest.Codec.{
  wire_len, tag, encode_entry, u64_at, decode_ids, decode_flush, decode_compaction,
  decode_stream_update, decode_variant, decode_entry,
}
use logregator.Manifest.Codec.Encode.{
  IsEncodable, ids_bytes, fields_bytes, entry_bytes, length-ids_bytes, labels, encode_entry_lem,
}

-- Reading an id.
pub u64_at-append :
    (front rest : List ℕ) (i v : ℕ)
    → length front ≡ i
    → IsU64 v
    → u64_at (front ++ (to_be_bytes 8 v ++ rest)) i ≡ ok v
u64_at-append front rest i v h b =
    let eight = length-to_be_bytes 8 v in
    rw
      (
        range-ok {E = CodecError} (front ++ (to_be_bytes 8 v ++ rest)) i (i + 8) (omega arith) (
            omega (
              arith,
              length-append front (to_be_bytes 8 v ++ rest),
              length-append (to_be_bytes 8 v) rest,
              eight,
            )),
        slice-append front (to_be_bytes 8 v) rest i (i + 8) h (ap (λ t. i + t) eight),
        from_be_bytes-to_be_bytes 8 v b,
      )
      refl

-- The ids of a compaction as they are read: all of them are the first one.
abbrev pub repeated : List ℕ → List ℕ
repeated [] = []
repeated (id ∷ ids) = replicate (suc (length ids)) id

abbrev pub as_read : ManifestEntry → ManifestEntry
as_read (memtable_flush id) = memtable_flush id
as_read (compaction ids) = compaction (repeated ids)
as_read (stream_update stream_id labelmap) = stream_update stream_id labelmap

decode_ids_same :
    (src : List ℕ) (n v k : ℕ) → u64_at src n ≡ ok v → decode_ids n src k ≡ ok (replicate k v)
unfolding decode_ids
decode_ids_same src n v zero h = refl
decode_ids_same src n v (suc k) h = rw (h, decode_ids_same src n v k h)

module _ (nom : Nom) (hash : List Label → ℕ) where
  decode_flush-bytes :
      (t rest : List ℕ) (id : ℕ)
      → length t ≡ 1
      → IsU64 id
      → decode_flush (t ++ (to_be_bytes 8 id ++ rest)) ≡ ok (some (memtable_flush id))
  unfolding decode_flush
  decode_flush-bytes t rest id one v =
      rw
        (
          le→ltb (length (t ++ (to_be_bytes 8 id ++ rest))) 9 (
              omega (
                arith,
                length-append t (to_be_bytes 8 id ++ rest),
                length-append (to_be_bytes 8 id) rest,
                length-to_be_bytes 8 id,
              )),
          u64_at-append t rest 1 id one v,
        )
        refl

  decode_ids-bytes :
      (front rest : List ℕ) (ids : List ℕ) (n : ℕ)
      → length front ≡ n
      → All IsU64 ids
      → decode_ids n (front ++ (ids_bytes ids ++ rest)) (length ids) ≡ ok (repeated ids)
  unfolding decode_ids
  decode_ids-bytes front rest [] n h v = refl
  decode_ids-bytes front rest (id ∷ ids) n h v = decode_ids_same _ n id (suc (length ids)) (
      ap (λ t. u64_at (front ++ t) n) (append_assoc (to_be_bytes 8 id) (ids_bytes ids) rest)
      ∙ u64_at-append front (ids_bytes ids ++ rest) n id h v.0)

  decode_compaction-bytes :
      (t rest : List ℕ) (ids : List ℕ)
      → length t ≡ 1
      → IsEncodable hash (compaction ids)
      → decode_compaction (t ++ (to_be_bytes 4 (length ids % 2 ^ 32) ++ (ids_bytes ids ++ rest)))
        ≡ ok (some (compaction (repeated ids)))
  unfolding decode_compaction
  decode_compaction-bytes t rest ids one v =
      let n = to_be_bytes 4 (length ids % 2 ^ 32) in
      let four = length-to_be_bytes 4 (length ids % 2 ^ 32) in
      let src = t ++ (n ++ (ids_bytes ids ++ rest)) in
      let long : length src ≡ 5 + length ids * 8 + length rest = omega (
        arith,
        length-append t (n ++ (ids_bytes ids ++ rest)),
        length-append n (ids_bytes ids ++ rest),
        length-append (ids_bytes ids) rest,
        length-ids_bytes ids,
        four,
      ) in
      let count : from_be_bytes n ≡ length ids =
        from_be_bytes-to_be_bytes 4 (length ids % 2 ^ 32) (omega arith) ∙ omega (arith, v.1) in
      rw
        (
          le→ltb (length src) 5 (omega (arith, long)),
          range-ok {E = CodecError} src 1 5 (omega arith) (omega (arith, long)),
          slice-append t n (ids_bytes ids ++ rest) 1 5 one (ap (λ k. 1 + k) four),
          count,
          le→ltb (length src) (5 + length ids * 8) (omega (arith, long)),
          sym (append_assoc t n (ids_bytes ids ++ rest)),
          decode_ids-bytes (t ++ n) rest ids 5 (omega (arith, length-append t n, four)) v.0,
        )
        refl

  decode_stream_update-bytes :
      (t rest : List ℕ) (stream_id : ℕ) (m : LabelMap)
      → length t ≡ 1
      → IsEncodable hash (stream_update stream_id m)
      → decode_stream_update
          (labels nom hash)
          (t ++ (to_be_bytes 8 stream_id ++ (label_map_bytes m ++ rest)))
        ≡ ok (some (stream_update stream_id m))
  unfolding decode_stream_update
  decode_stream_update-bytes t rest stream_id m one v =
      let n = to_be_bytes 8 stream_id in
      let eight = length-to_be_bytes 8 stream_id in
      let back = label_map_bytes m ++ rest in
      let src = t ++ (n ++ back) in
      let long : length src ≡ 9 + length back =
        omega (arith, length-append t (n ++ back), length-append n back, eight) in
      let tail : slice src 9 (length src) ≡ back =
        ap (λ w. slice w 9 (length src)) (sym (append_assoc t n back))
        ∙ slice_last (t ++ n) back 9 (length src) (omega (arith, length-append t n, eight))
            (omega (arith, long)) in
      rw
        (
          le→ltb (length src) 9 (omega (arith, long)),
          u64_at-append t back 1 stream_id one v.0,
          range-ok {E = CodecError} src 9 (length src) (omega (arith, long)) (omega arith),
          tail,
          decode_label_map-bytes nom hash m rest v.1,
        )
        refl

  decode_variant-bytes :
      (e : ManifestEntry) (t rest : List ℕ)
      → length t ≡ 1
      → IsEncodable hash e
      → decode_variant (labels nom hash) (tag e) (t ++ (fields_bytes e ++ rest))
        ≡ ok (some (as_read e))
  unfolding decode_variant tag fields_bytes
  decode_variant-bytes (memtable_flush id) t rest one v = decode_flush-bytes t rest id one v
  decode_variant-bytes (compaction ids) t rest one v =
      ap (λ w. decode_compaction (t ++ w))
        (append_assoc (to_be_bytes 4 (length ids % 2 ^ 32)) (ids_bytes ids) rest)
      ∙ decode_compaction-bytes t rest ids one v
  decode_variant-bytes (stream_update stream_id m) t rest one v =
      ap (λ w. decode_stream_update (labels nom hash) (t ++ w))
        (append_assoc (to_be_bytes 8 stream_id) (label_map_bytes m) rest)
      ∙ decode_stream_update-bytes t rest stream_id m one v

  length-repeated : (ids : List ℕ) → length (repeated ids) ≡ length ids
  length-repeated [] = refl
  length-repeated (id ∷ ids) = length-replicate {A = ℕ} (suc (length ids)) id

  wire_len-as_read :
      (e : ManifestEntry) → wire_len (labels nom hash) (as_read e) ≡ wire_len (labels nom hash) e
  unfolding wire_len
  wire_len-as_read (memtable_flush id) = refl
  wire_len-as_read (compaction ids) = ap (λ n. 5 + n * 8) (length-repeated ids)
  wire_len-as_read (stream_update stream_id m) = refl

  pub tag_byte : (e : ManifestEntry) → from_be_bytes (to_be_bytes 1 (tag e)) ≡ tag e
  unfolding tag to_be_bytes from_be_bytes
  tag_byte (memtable_flush id) = refl
  tag_byte (compaction ids) = refl
  tag_byte (stream_update stream_id m) = refl

  -- The frame of an entry, with anything behind it, is read as the entry, except that the ids of a
  -- compaction are all read as its first id; the length is that of the frame.
  pub decode_entry-entry_bytes :
      (e : ManifestEntry) (rest : List ℕ)
      → IsEncodable hash e
      → decode_entry (labels nom hash) (entry_bytes e ++ rest)
        ≡ ok (some (as_read e, wire_len (labels nom hash) e))
  unfolding decode_entry entry_bytes
  decode_entry-entry_bytes e rest v =
      let t = to_be_bytes 1 (tag e) in
      let one = length-to_be_bytes 1 (tag e) in
      let src = t ++ (fields_bytes e ++ rest) in
      let long : 1 ≤ length src = omega (arith, length-append t (fields_bytes e ++ rest), one) in
      rw
        (
          append_assoc t (fields_bytes e) rest,
          le→ltb (length src) 1 long,
          range-ok {E = CodecError} src 0 1 (omega arith) long,
          slice-append [] t (fields_bytes e ++ rest) 0 1 refl (omega (arith, one)),
          tag_byte e,
          decode_variant-bytes e t rest one v,
        )
        (ap (λ n. ok (some (as_read e, n))) (wire_len-as_read e))

  -- Encoding an entry that fits succeeds in every destination that is long enough, and decoding what
  -- it leaves there, with anything behind it, returns the entry and its length, but for a compaction
  -- every id of which is returned as the first one.
  pub decode_entry-encode_entry :
      (e : ManifestEntry) (dst rest : List ℕ)
      → IsEncodable hash e
      → wire_len (labels nom hash) e ≤ length dst
      → ((encode_entry (labels nom hash) e dst).0 ≡ ok (wire_len (labels nom hash) e))
        × (decode_entry (labels nom hash) ((encode_entry (labels nom hash) e dst).1 ++ rest)
            ≡ ok (some (as_read e, wire_len (labels nom hash) e)))
  decode_entry-encode_entry e dst rest v h = rw (encode_entry_lem nom hash e dst v h) (
    refl,
    rw (append_assoc (entry_bytes e) (drop (wire_len (labels nom hash) e) dst) rest)
        (decode_entry-entry_bytes e (drop (wire_len (labels nom hash) e) dst ++ rest) v),
  )
