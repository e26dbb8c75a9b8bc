-- ===== src/Manifest/Codec/Encode.antt =====
-- `ManifestCodec`, with the codec of label maps: the frames that `encode` writes.
use logregator.Common.{
  ℕ, suc, ◌+◌, ◌*◌, ◌%◌, ◌^◌, ◌≤◌, ◌<◌, ◌≡◌, refl, ap, ◌∙◌, List, [], ◌∷◌, ◌++◌, arith, ok, All,
  length, drop, to_be_bytes, length-to_be_bytes, length-append, length-drop, length-take, drop_all,
  ◌-◌, append_assoc, append-nil, le→ltb, IsU64, not, ◌==◌, ==_refl,
}
use logregator.Codec.{SpecCodec, other}
use logregator.Codec.Buffer.{
  return, fail_if, copy, within, after, after_len, pass, copy-append, within-append,
}
use logregator.Label.{Label, LabelMap}
use logregator.Label.Codec.{Nom, encode_label_map, decode_label_map, label_map_codec}
use logregator.Label.Codec
use logregator.Label.Codec.RoundTrip.{
  label_map_bytes, encode_label_map_lem, decode_label_map-bytes, length-label_map_bytes,
}
use logregator.Label.Codec.RoundTrip
use logregator.Manifest.{ManifestEntry, memtable_flush, compaction, stream_update}
use logregator.Manifest.Codec.{wire_len, tag, encode_ids, encode_fields, encode_entry}

-- The test that an encoder of a field wrote what was expected.
wrote_all : (n : ℕ) (dst : List ℕ) → fail_if (not (n == n)) other dst ≡ (ok tt, dst)
unfolding fail_if
wrote_all n dst = rw (==_refl n)

abbrev pub ids_bytes : List ℕ → List ℕ
ids_bytes [] = []
ids_bytes (id ∷ ids) = to_be_bytes 8 id ++ ids_bytes ids

-- The frame of an entry behind its tag, and the frame.
unfoldable pub fields_bytes : ManifestEntry → List ℕ
fields_bytes (memtable_flush id) = to_be_bytes 8 id
fields_bytes (compaction ids) = to_be_bytes 4 (length ids % 2 ^ 32) ++ ids_bytes ids
fields_bytes (stream_update stream_id labelmap) =
    to_be_bytes 8 stream_id ++ label_map_bytes labelmap

unfoldable pub entry_bytes : ManifestEntry → List ℕ
entry_bytes e = to_be_bytes 1 (tag e) ++ fields_bytes e

pub length-ids_bytes : (ids : List ℕ) → length (ids_bytes ids) ≡ length ids * 8
length-ids_bytes [] = refl
length-ids_bytes (id ∷ ids) = omega (
  arith,
  length-append (to_be_bytes 8 id) (ids_bytes ids),
  length-to_be_bytes 8 id,
  length-ids_bytes ids,
)

encode_ids_lem :
    (ids : List ℕ) (written dst : List ℕ) (n : ℕ)
    → length written ≡ n
    → n + length ids * 8 ≤ length dst
    → encode_ids n ids (written ++ drop n dst)
      ≡ (ok (n + length ids * 8), written ++ ids_bytes ids ++ drop (n + length ids * 8) dst)
unfolding encode_ids return
encode_ids_lem [] written dst n h l = let e : n + 0 ≡ n = omega arith in rw (e, append-nil written)
encode_ids_lem (id ∷ ids) written dst n h l =
    let bs = to_be_bytes 8 id in
    let len = length-to_be_bytes 8 id in
    let total : n + suc (length ids) * 8 ≡ n + 8 + length ids * 8 = omega arith in
    after (copy n (n + 8) bs) _
      (copy-append written dst n (n + 8) h (omega arith) (omega arith) bs (omega (arith, len)))
      (encode_ids_lem ids (written ++ bs) dst (n + 8) (omega (arith, length-append written bs, len))
          (omega arith)
        ∙ rw total (
            ap (λ t. (ok (n + 8 + length ids * 8), t ++ drop (n + 8 + length ids * 8) dst))
              (append_assoc written bs (ids_bytes ids))))

-- An entry that the codec writes; a compaction of more than `u32::MAX` tables is refused by its
-- constructor.
abbrev pub IsEncodable : (List Label → ℕ) → ManifestEntry → Type 0
IsEncodable hash (memtable_flush id) = IsU64 id
IsEncodable hash (compaction ids) = All IsU64 ids × (length ids < 2 ^ 32)
IsEncodable hash (stream_update stream_id labelmap) =
    IsU64 stream_id × RoundTrip.IsEncodable hash labelmap

module _ (nom : Nom) (hash : List Label → ℕ) where
  abbrev pub labels : SpecCodec LabelMap
  labels = label_map_codec nom hash

  length-fields_bytes : (e : ManifestEntry) → 1 + length (fields_bytes e) ≡ wire_len labels e
  unfolding fields_bytes wire_len
  length-fields_bytes (memtable_flush id) = omega (arith, length-to_be_bytes 8 id)
  length-fields_bytes (compaction ids) = omega (
    arith,
    length-append (to_be_bytes 4 (length ids % 2 ^ 32)) (ids_bytes ids),
    length-to_be_bytes 4 (length ids % 2 ^ 32),
    length-ids_bytes ids,
  )
  length-fields_bytes (stream_update stream_id labelmap) = omega (
    arith,
    length-append (to_be_bytes 8 stream_id) (label_map_bytes labelmap),
    length-to_be_bytes 8 stream_id,
    length-label_map_bytes labelmap,
  )

  pub length-entry_bytes : (e : ManifestEntry) → length (entry_bytes e) ≡ wire_len labels e
  unfolding entry_bytes
  length-entry_bytes e = omega (
    arith,
    length-append (to_be_bytes 1 (tag e)) (fields_bytes e),
    length-to_be_bytes 1 (tag e),
    length-fields_bytes e,
  )

  encode_label_map_exact :
      (m : LabelMap) (dst : List ℕ)
      → RoundTrip.IsEncodable hash m
      → length dst ≡ Codec.wire_len m
      → encode_label_map m dst ≡ (ok (Codec.wire_len m), label_map_bytes m)
  encode_label_map_exact m dst v h =
      encode_label_map_lem hash m dst v (omega arith)
      ∙ ap (λ t. (ok (Codec.wire_len m), t))
          (ap (λ t. label_map_bytes m ++ t) (drop_all (Codec.wire_len m) dst (omega arith))
            ∙ append-nil (label_map_bytes m))

  -- After the tag, the fields are written.
  encode_fields_lem :
      (e : ManifestEntry) (t dst : List ℕ)
      → length t ≡ 1
      → IsEncodable hash e
      → wire_len labels e ≤ length dst
      → encode_fields labels e (t ++ drop 1 dst)
        ≡ (ok tt, (t ++ fields_bytes e) ++ drop (wire_len labels e) dst)
  unfolding encode_fields fields_bytes wire_len
  encode_fields_lem (memtable_flush id) t dst one v l =
      copy-append t dst 1 9 one (omega arith) l (to_be_bytes 8 id)
        (omega (arith, length-to_be_bytes 8 id))
  encode_fields_lem (compaction ids) t dst one v l =
      let n = to_be_bytes 4 (length ids % 2 ^ 32) in
      let four = length-to_be_bytes 4 (length ids % 2 ^ 32) in
      after (copy 1 5 n) _
        (copy-append t dst 1 5 one (omega arith) (omega arith) n (omega (arith, four)))
        (after (encode_ids 5 ids) _
          (encode_ids_lem ids (t ++ n) dst 5 (omega (arith, length-append t n, four)) l)
          (wrote_all (5 + length ids * 8) _
            ∙ ap (λ w. (ok tt, w ++ drop (5 + length ids * 8) dst))
                (append_assoc t n (ids_bytes ids))))
  encode_fields_lem (stream_update stream_id labelmap) t dst one v l =
      let n = to_be_bytes 8 stream_id in
      let eight = length-to_be_bytes 8 stream_id in
      after (copy 1 9 n) _
        (copy-append t dst 1 9 one (omega arith) (omega arith) n (omega (arith, eight)))
        (after (within 9 (9 + Codec.wire_len labelmap) (encode_label_map labelmap)) _
          (within-append (t ++ n) dst 9 (9 + Codec.wire_len labelmap)
            (omega (arith, length-append t n, eight)) (omega arith) l (encode_label_map labelmap)
            (encode_label_map_exact labelmap _ v.1 (
              omega (
                arith,
                length-take (9 + Codec.wire_len labelmap - 9) (drop 9 dst),
                length-drop 9 dst,
              ))))
          (wrote_all (Codec.wire_len labelmap) _
            ∙ ap (λ w. (ok tt, w ++ drop (9 + Codec.wire_len labelmap) dst))
                (append_assoc t n (label_map_bytes labelmap))))

  -- An entry that fits is written to the front of a `dst` that is long enough; the rest stays.
  pub encode_entry_lem :
      (e : ManifestEntry) (dst : List ℕ)
      → IsEncodable hash e
      → wire_len labels e ≤ length dst
      → encode_entry labels e dst
        ≡ (ok (wire_len labels e), entry_bytes e ++ drop (wire_len labels e) dst)
  unfolding encode_entry entry_bytes return
  encode_entry_lem e dst v l =
      let t = to_be_bytes 1 (tag e) in
      let one = length-to_be_bytes 1 (tag e) in
      let some_byte : 1 ≤ wire_len labels e = omega (arith, length-fields_bytes e) in
      after_len _ (
        pass _ _ _ (le→ltb (length dst) (wire_len labels e) l) (
          after (copy 0 1 t) _
            (copy-append [] dst 0 1 refl (omega arith) (omega arith) t (omega (arith, one)))
            (after (encode_fields labels e) _ (encode_fields_lem e t dst one v l) refl)))
