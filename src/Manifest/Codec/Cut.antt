-- ===== src/Manifest/Codec/Cut.antt =====
-- `ManifestCodec`: what `decode` makes of a frame that is cut short.
use logregator.Common.{
  ℕ, ◌+◌, ◌*◌, ◌%◌, ◌^◌, ◌≤◌, ◌<◌, ◌≡◌, ap, ◌∙◌, inl, inr, List, ◌++◌, arith, err, length, take,
  slice, range-ok, ltb, to_be_bytes, from_be_bytes, length-to_be_bytes, from_be_bytes-to_be_bytes,
  length-append, length-take, take-append, slice-take, slice-append, le→ltb, lt→ltb, Bool-cases,
  if◌then◌else◌,
}
use logregator.Codec.{CodecError, not_enough_bytes}
use logregator.Label.{Label}
use logregator.Label.Codec.{Nom}
use logregator.Manifest.{ManifestEntry, memtable_flush, compaction, stream_update}
use logregator.Manifest.Codec.{
  wire_len, tag, decode_flush, decode_compaction, decode_variant, decode_entry,
}
use logregator.Manifest.Codec.Encode.{
  IsEncodable, ids_bytes, fields_bytes, entry_bytes, length-ids_bytes, labels, length-entry_bytes,
}
use logregator.Manifest.Codec.RoundTrip.{tag_byte}

-- The fields of a flush or of a compaction, which do not depend on the codec of label maps.
abbrev pub IsIds : ManifestEntry → Type 0
IsIds (memtable_flush id) = Unit
IsIds (compaction ids) = Unit
IsIds (stream_update stream_id labelmap) = ⊥

-- The length that `decode` asks for when it has `n` bytes.
abbrev pub wanted : ManifestEntry → ℕ → ℕ
wanted (memtable_flush id) n = 9
wanted (compaction ids) n = if ltb n 5 then 5 else 5 + length ids * 8
wanted (stream_update stream_id labelmap) n = 9

cut_length : (n k : ℕ) (xs : List ℕ) → length xs ≡ n → k ≤ n → length (take k xs) ≡ k
cut_length n k xs h le = omega (arith, length-take k xs)

decode_compaction-cut :
    (t back : List ℕ) (n k : ℕ)
    → length t ≡ 1
    → n < 2 ^ 32
    → length back ≡ n * 8
    → k < 5 + n * 8
    → decode_compaction (take k (t ++ (to_be_bytes 4 (n % 2 ^ 32) ++ back)))
      ≡ err (not_enough_bytes k (if ltb k 5 then 5 else 5 + n * 8))
unfolding decode_compaction
decode_compaction-cut t back n k one small len lt =
    let c = to_be_bytes 4 (n % 2 ^ 32) in
    let four = length-to_be_bytes 4 (n % 2 ^ 32) in
    let src = t ++ (c ++ back) in
    let cut : length (take k src) ≡ k =
      omega (arith, length-take k src, length-append t (c ++ back), length-append c back, four) in
    elim (Bool-cases (ltb k 5)) [
      | inl few ↦ rw (cut, few)
      | inr enough ↦
          let count : from_be_bytes (slice (take k src) 1 5) ≡ n =
            ap from_be_bytes (
              slice-take src 1 5 k (omega arith) (ground arith)
              ∙ slice-append t c back 1 5 one (ap (λ i. 1 + i) four))
            ∙ from_be_bytes-to_be_bytes 4 (n % 2 ^ 32) (omega arith)
            ∙ omega arith in
          rw (
            range-ok {E = CodecError} (take k src) 1 5 (omega arith) (ground (arith, cut)),
            count,
            cut,
            enough,
            lt→ltb k (5 + n * 8) lt,
          )
    ]

first_byte : (e : ManifestEntry) → take 1 (entry_bytes e) ≡ to_be_bytes 1 (tag e)
unfolding entry_bytes
first_byte e = take-append (to_be_bytes 1 (tag e)) (fields_bytes e) 1 (length-to_be_bytes 1 (tag e))

decode_flush-cut :
    (src : List ℕ) (k : ℕ) → length src ≡ k → k < 9 → decode_flush src ≡ err (not_enough_bytes k 9)
unfolding decode_flush
decode_flush-cut src k h lt = rw (h, lt→ltb k 9 lt)

module _ (nom : Nom) (hash : List Label → ℕ) where
  decode_variant-cut :
      (e : ManifestEntry) (k : ℕ)
      → IsIds e
      → IsEncodable hash e
      → 1 ≤ k
      → k < wire_len (labels nom hash) e
      → decode_variant (labels nom hash) (tag e) (take k (entry_bytes e))
        ≡ err (not_enough_bytes k (wanted e k))
  unfolding decode_variant tag wire_len entry_bytes fields_bytes
  decode_variant-cut (memtable_flush id) k i v pos lt =
      decode_flush-cut _ k
        (cut_length 9 k (to_be_bytes 1 1 ++ to_be_bytes 8 id)
          (omega (
            arith,
            length-append (to_be_bytes 1 1) (to_be_bytes 8 id),
            length-to_be_bytes 8 id,
            length-to_be_bytes 1 1,
          ))
          (omega arith))
        lt
  decode_variant-cut (compaction ids) k i v pos lt =
      decode_compaction-cut (to_be_bytes 1 2) (ids_bytes ids) (length ids) k
        (length-to_be_bytes 1 2) v.1 (length-ids_bytes ids) lt
  decode_variant-cut (stream_update stream_id m) k i v pos lt = absurd i

  -- A frame of a flush or of a compaction that is cut short behind its tag is an error, with the
  -- number of bytes that there are; it is not reported as incomplete.
  pub decode_entry-cut :
      (e : ManifestEntry) (k : ℕ)
      → IsIds e
      → IsEncodable hash e
      → 1 ≤ k
      → k < wire_len (labels nom hash) e
      → decode_entry (labels nom hash) (take k (entry_bytes e))
        ≡ err (not_enough_bytes k (wanted e k))
  unfolding decode_entry
  decode_entry-cut e k i v pos lt =
      let src = entry_bytes e in
      let cut : length (take k src) ≡ k =
        omega (arith, length-take k src, length-entry_bytes nom hash e) in
      let front : slice (take k src) 0 1 ≡ to_be_bytes 1 (tag e) =
        slice-take src 0 1 k (omega arith) pos ∙ first_byte e in
      rw (
        cut,
        le→ltb k 1 pos,
        range-ok {E = CodecError} (take k src) 0 1 (omega arith) (omega (arith, cut)),
        front,
        tag_byte nom hash e,
        decode_variant-cut e k i v pos lt,
      )
