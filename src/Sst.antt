-- ===== src/Sst.antt =====
-- logregator-tsdb/src/sst.rs: the metadata of the blocks of a table.
pub mod RoundTrip
pub mod Writer
pub mod Finalize
pub mod Handle
pub mod Cursor
mod Tests
use logregator.Common.{
  ℕ, zero, suc, ◌+◌, ◌*◌, ◌%◌, ◌^◌, not, Option, none, some, List, [], ◌∷◌, ◌++◌, Outcome, ok, err,
  panic, ◌>>=◌, ◌>>◌, ltb, ◌==◌, if◌then◌else◌, length, range, replicate, to_be_bytes,
  from_be_bytes,
}
use logregator.Codec.{CodecError, other, not_enough_bytes, SpecCodec}
use logregator.Record.{Key, key_size}

pub record BlockMetadata : Type 0 where
  pub offset : ℕ
  pub first_key : Key
  pub last_key : Key

abbrev pub block_meta_size : ℕ
block_meta_size = 4 + 2 * key_size

-- The closure `encode_key` of `encode_metas`: the array that the codec leaves, unless it fails.
abbrev pub encoded : Outcome CodecError ℕ × List ℕ → Outcome CodecError (List ℕ)
encoded (ok n, key_bytes) = ok key_bytes
encoded (err e, key_bytes) = err e
encoded (panic, key_bytes) = panic

-- The closure `decode_key` of `decode_metas`.
abbrev pub decoded : Outcome CodecError (Option (Key × ℕ)) → Outcome CodecError Key
decoded (ok (some (key, n))) = ok key
decoded (ok none) = err other
decoded (err e) = err e
decoded panic = panic

module _ (codec : SpecCodec Key) where
  -- The loop of `encode_metas`; every key is encoded into the array that the one before left.
  unfoldable pub encode_entries : List ℕ → List BlockMetadata → Outcome CodecError (List ℕ)
  encode_entries key_bytes [] = ok []
  encode_entries key_bytes (m ∷ ms) = do
    first ← encoded (codec.encode m.first_key key_bytes)
    last ← encoded (codec.encode m.last_key first)
    more ← encode_entries last ms
    ok (to_be_bytes 4 m.offset ++ (first ++ (last ++ more)))

  -- The loop of `decode_metas`, with the value of `consumed` after it.
  unfoldable pub decode_entries : ℕ → ℕ → List ℕ → Outcome CodecError (List BlockMetadata × ℕ)
  decode_entries zero consumed src = ok ([], consumed)
  decode_entries (suc n) consumed src = do
    offset ← range src consumed (consumed + 4)
    first_bytes ← range src (consumed + 4) (consumed + 4 + key_size)
    first_key ← decoded (codec.decode first_bytes)
    last_bytes ← range src (consumed + 4 + key_size) (consumed + 4 + key_size + key_size)
    last_key ← decoded (codec.decode last_bytes)
    (ms, total) ← decode_entries n (consumed + 4 + key_size + key_size) src
    ok (
      record { offset = from_be_bytes offset; first_key = first_key; last_key = last_key } ∷ ms,
      total,
    )

  -- `crc` is `crc32fast::hash`.
  module _ (crc : List ℕ → ℕ) where
    unfoldable pub encode_metas : List BlockMetadata → Outcome CodecError (List ℕ)
    encode_metas metas = do
      entries ← encode_entries (replicate key_size 0) metas
      let bytes = to_be_bytes 4 (length metas % 2 ^ 32) ++ entries
      ok (bytes ++ to_be_bytes 4 (crc bytes))

    unfoldable pub decode_metas : List ℕ → Outcome CodecError (List BlockMetadata)
    decode_metas src = if ltb (length src) 4 then err (not_enough_bytes (length src) 4) else (do
      len_bytes ← range src 0 4
      let metas_len = from_be_bytes len_bytes
      let want_total_size = 4 + metas_len * block_meta_size + 4
      if ltb (length src) want_total_size
          then err (not_enough_bytes (length src) want_total_size)
          else (do
            (metas, consumed) ← decode_entries metas_len 4 src
            hashed ← range src 0 consumed
            stored ← range src consumed (consumed + 4)
            if not (from_be_bytes stored == crc hashed) then err other else ok metas))
