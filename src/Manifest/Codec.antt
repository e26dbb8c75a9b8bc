-- ===== src/Manifest/Codec.antt =====
-- `ManifestCodec` and the constructors of `ManifestEntry`.
pub mod Encode
pub mod RoundTrip
pub mod Cut
use logregator.Common.{
  ℕ, zero, suc, ◌+◌, ◌*◌, ◌%◌, ◌^◌, ◌==◌, Bool, true, false, not, ◌&&◌, Option, none, some, List,
  [], ◌∷◌, Outcome, ok, err, panic, ltb, length, to_be_bytes, from_be_bytes, range, if◌then◌else◌,
}
use logregator.Common
use logregator.Codec.{CodecError, SpecCodec, Encoder, Decoder, other, not_enough_bytes}
use logregator.Codec.Buffer.{◌>>=◌, ◌>>◌, return, len, fail_if, copy, within}
use logregator.Label.{Label, LabelMap}
use logregator.Label.Codec.{max_label_count, valid_str_size}
use logregator.Manifest.{ManifestEntry, memtable_flush, compaction, stream_update}

unfoldable pub sst_flush : ℕ → ManifestEntry
sst_flush id = memtable_flush id

-- `ManifestEntry::compaction`
unfoldable pub new_compaction : List ℕ → Option ManifestEntry
new_compaction ids = if ltb 0xffff_ffff (length ids) then none else some (compaction ids)

-- The loop of `ManifestEntry::stream_update`.
abbrev pub valid_labels : List Label → Bool
valid_labels [] = true
valid_labels ((k, v) ∷ m) =
    valid_str_size (length k) && (valid_str_size (length v) && valid_labels m)

-- `ManifestEntry::stream_update`
unfoldable pub new_stream_update : ℕ → LabelMap → Option ManifestEntry
new_stream_update stream_id labelmap =
    if ltb max_label_count (length labelmap.inner)
    then none
    else if valid_labels labelmap.inner
    then some (stream_update stream_id labelmap)
    else none

unfoldable pub tag : ManifestEntry → ℕ
tag (memtable_flush id) = 1
tag (compaction ids) = 2
tag (stream_update stream_id labelmap) = 3

unfoldable pub encode_ids : ℕ → List ℕ → Encoder ℕ
encode_ids n [] = return n
encode_ids n (id ∷ ids) = do copy n (n + 8) (to_be_bytes 8 id); encode_ids (n + 8) ids

-- `u64::from_be_bytes` of eight bytes of `src`, each taken by its index.
abbrev pub u64_at : List ℕ → ℕ → Outcome CodecError ℕ
u64_at src i = Common.◌>>=◌ (range src i (i + 8)) λ bs. ok (from_be_bytes bs)

-- The loop over the ids: `n` does not change in it.
unfoldable pub decode_ids : ℕ → List ℕ → ℕ → Outcome CodecError (List ℕ)
decode_ids n src zero = ok []
decode_ids n src (suc len) =
    Common.◌>>=◌ (u64_at src n) λ sst_id. Common.◌>>=◌ (decode_ids n src len) λ v. ok (sst_id ∷ v)

-- Both branches of `decode` that start with an id test the length in the same way.
unfoldable pub decode_flush : List ℕ → Outcome CodecError (Option ManifestEntry)
decode_flush src =
    if ltb (length src) (1 + 8)
    then err (not_enough_bytes (length src) (1 + 8))
    else Common.◌>>=◌ (u64_at src 1) λ id. ok (some (memtable_flush id))

unfoldable pub decode_compaction : List ℕ → Outcome CodecError (Option ManifestEntry)
decode_compaction src =
    if ltb (length src) (1 + 4)
    then err (not_enough_bytes (length src) (1 + 4))
    else (Common.◌>>=◌ (range src 1 5) λ len_bytes.
        let len = from_be_bytes len_bytes in
        if ltb (length src) (1 + 4 + len * 8)
        then err (not_enough_bytes (length src) (1 + 4 + len * 8))
        else Common.◌>>=◌ (decode_ids (1 + 4) src len) λ v. ok (some (compaction v)))

module _ (label_codec : SpecCodec LabelMap) where
  -- `wire_len` of `WireLen for ManifestEntry`
  unfoldable pub wire_len : ManifestEntry → ℕ
  wire_len (memtable_flush id) = 1 + 8
  wire_len (compaction ids) = 1 + 4 + length ids * 8
  wire_len (stream_update stream_id labelmap) = 1 + 8 + label_codec.wire_len labelmap

  unfoldable pub encode_fields : ManifestEntry → Encoder (Unit {0})
  encode_fields (memtable_flush id) = copy 1 (1 + 8) (to_be_bytes 8 id)
  encode_fields (compaction ids) = do
    copy 1 (1 + 4) (to_be_bytes 4 (length ids % 2 ^ 32))
    n ← encode_ids (1 + 4) ids
    fail_if (not (n == wire_len (compaction ids))) other
  encode_fields (stream_update stream_id labelmap) = do
    copy 1 (1 + 8) (to_be_bytes 8 stream_id)
    n ← within (1 + 8) (1 + 8 + label_codec.wire_len labelmap) (label_codec.encode labelmap)
    fail_if (not (n == label_codec.wire_len labelmap)) other

  unfoldable pub encode_entry : ManifestEntry → Encoder ℕ
  encode_entry item = do
    n ← len
    fail_if (ltb n (wire_len item)) (not_enough_bytes n (wire_len item))
    copy 0 1 (to_be_bytes 1 (tag item))
    encode_fields item
    return (wire_len item)

  abbrev pub updated : ℕ → Option (LabelMap × ℕ) → Option ManifestEntry
  updated stream_id none = none
  updated stream_id (some (labelmap, n)) = some (stream_update stream_id labelmap)

  unfoldable pub decode_stream_update : List ℕ → Outcome CodecError (Option ManifestEntry)
  decode_stream_update src =
      if ltb (length src) (1 + 8)
      then err (not_enough_bytes (length src) (1 + 8))
      else (Common.◌>>=◌ (u64_at src 1) λ stream_id.
          Common.◌>>=◌ (range src (1 + 8) (length src)) λ labels.
            Common.◌>>=◌ (label_codec.decode labels) λ decoded. ok (updated stream_id decoded))

  unfoldable pub decode_variant : ℕ → List ℕ → Outcome CodecError (Option ManifestEntry)
  decode_variant tag src =
      if tag == 1
      then decode_flush src
      else if tag == 2
      then decode_compaction src
      else if tag == 3
      then decode_stream_update src
      else err other

  abbrev pub measured : Option ManifestEntry → Option (ManifestEntry × ℕ)
  measured none = none
  measured (some me) = some (me, wire_len me)

  unfoldable pub decode_entry : Decoder ManifestEntry
  decode_entry src =
      if ltb (length src) 1
      then ok none
      else (Common.◌>>=◌ (range src 0 1) λ tag_byte.
          Common.◌>>=◌ (decode_variant (from_be_bytes tag_byte) src) λ me. ok (measured me))

  abbrev pub manifest_codec : SpecCodec ManifestEntry
  manifest_codec = record { wire_len = wire_len; encode = encode_entry; decode = decode_entry }
