-- ===== src/Sst/Tests.antt =====
-- The metadata of two blocks.
use logregator.Common.{ℕ, ◌%◌, ◌^◌, ◌≡◌, List, [], ◌∷◌, ◌++◌, ok, length, arith, IsU32, All}
use logregator.Record.{Key}
use logregator.Sst.{BlockMetadata, encode_metas, decode_metas}
use logregator.Sst.RoundTrip.{key_codec, IsMeta, decode_metas-encode_metas}

abbrev toy_hash : List ℕ → ℕ
toy_hash bs = length bs % 2 ^ 32

toy_hash-IsU32 : (bs : List ℕ) → IsU32 (toy_hash bs)
toy_hash-IsU32 bs = omega arith

abbrev key_at : ℕ → Key
key_at t = record { stream_id = 1; timestamp = t; sequence_num = 7; source_id = 3 }

abbrev two_metas : List BlockMetadata
two_metas =
    record { offset = 0; first_key = key_at 10; last_key = key_at 20 }
    ∷ record { offset = 5000; first_key = key_at 21; last_key = key_at 30 }
    ∷ []

two_metas-IsMeta : All IsMeta two_metas
two_metas-IsMeta = omega arith

decode_metas-encode_metas_example :
    (bytes : List ℕ) × (encode_metas key_codec toy_hash two_metas ≡ ok bytes)
    × (length bytes ≡ 144)
    × (decode_metas key_codec toy_hash (bytes ++ (9 ∷ [])) ≡ ok two_metas)
decode_metas-encode_metas_example =
    decode_metas-encode_metas toy_hash toy_hash-IsU32 two_metas (9 ∷ []) two_metas-IsMeta
      (omega arith)
