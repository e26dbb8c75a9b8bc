-- ===== src/Sst/RoundTrip.antt =====
-- `encode_metas` and `decode_metas` together.
use logregator.Common.{
  ℕ, ◌+◌, ◌*◌, ◌%◌, ◌^◌, ◌<◌, ◌≡◌, refl, sym, ap, ◌∙◌, List, [], ◌∷◌, ◌++◌, append_assoc,
  append-nil, arith, some, ok, length, All, IsU32, slice-append, range, range-ok, replicate,
  length-replicate, length-append, le→ltb, ==_refl, to_be_bytes, from_be_bytes, length-to_be_bytes,
  from_be_bytes-to_be_bytes,
}
use logregator.Codec.{CodecError, SpecCodec}
use logregator.Record.{Key, key_size, IsKey}
use logregator.Record.Encode.{key_bytes, encode_key}
use logregator.Record.Decode.{decode_key}
use logregator.Record.RoundTrip.{encode_key_lem, decode_key-key_bytes, length-key_bytes}
use logregator.Sst.{
  BlockMetadata, block_meta_size, encode_entries, decode_entries, encode_metas, decode_metas,
}

-- `RecordCodec` as an implementation of `SpecCodec<Key>`.
abbrev pub key_codec : SpecCodec Key
key_codec = record { wire_len = λ k. key_size; encode = encode_key; decode = decode_key }

pub record IsMeta (m : BlockMetadata) : Type 0 where
  pub offset : IsU32 m.offset
  pub first_key : IsKey m.first_key
  pub last_key : IsKey m.last_key

unfoldable pub entry_bytes : List BlockMetadata → List ℕ
entry_bytes [] = []
entry_bytes (m ∷ ms) =
    to_be_bytes 4 m.offset ++ (key_bytes m.first_key ++ (key_bytes m.last_key ++ entry_bytes ms))

length-entry_bytes : (ms : List BlockMetadata) → length (entry_bytes ms) ≡ 68 * length ms
unfolding entry_bytes
length-entry_bytes [] = omega arith
length-entry_bytes (m ∷ ms) = omega (
  arith,
  length-append (to_be_bytes 4 m.offset)
      (key_bytes m.first_key ++ (key_bytes m.last_key ++ entry_bytes ms)),
  length-append (key_bytes m.first_key) (key_bytes m.last_key ++ entry_bytes ms),
  length-append (key_bytes m.last_key) (entry_bytes ms),
  length-to_be_bytes 4 m.offset,
  length-key_bytes m.first_key,
  length-key_bytes m.last_key,
  length-entry_bytes ms,
)

encode_entries_lem :
    (scratch : List ℕ) (ms : List BlockMetadata)
    → length scratch ≡ key_size
    → encode_entries key_codec scratch ms ≡ ok (entry_bytes ms)
unfolding encode_entries entry_bytes
encode_entries_lem scratch [] h = refl
encode_entries_lem scratch (m ∷ ms) h = rw (
  encode_key_lem m.first_key scratch h,
  encode_key_lem m.last_key (key_bytes m.first_key) (length-key_bytes m.first_key),
  encode_entries_lem (key_bytes m.last_key) ms (length-key_bytes m.last_key),
)

-- A slice of bytes that are made of three parts.
range_mid :
    {xs : List ℕ} (front mid back : List ℕ) (i j : ℕ)
    → xs ≡ front ++ (mid ++ back)
    → length front ≡ i
    → i + length mid ≡ j
    → range {E = CodecError} xs i j ≡ ok mid
range_mid front mid back i j e h k =
    ap (λ t. range t i j) e
    ∙ range-ok (front ++ (mid ++ back)) i j (omega arith)
        (omega (arith, length-append front (mid ++ back), length-append mid back))
    ∙ ap ok (slice-append front mid back i j h k)

decode_key_lem : (k : Key) → IsKey k → decode_key (key_bytes k) ≡ ok (some (k, key_size))
decode_key_lem k v = ap decode_key (sym (append-nil (key_bytes k))) ∙ decode_key-key_bytes k [] v

decode_entries_lem :
    (src front : List ℕ) (ms : List BlockMetadata) (rest : List ℕ) (i : ℕ)
    → All IsMeta ms
    → src ≡ front ++ (entry_bytes ms ++ rest)
    → length front ≡ i
    → decode_entries key_codec (length ms) i src ≡ ok (ms, i + 68 * length ms)
unfolding decode_entries entry_bytes
decode_entries_lem src front [] rest i v e h = ap (λ t. ok ([], t)) {x = i} (omega arith)
decode_entries_lem src front (m ∷ ms) rest i (hm, v) e h =
    let off = to_be_bytes 4 m.offset in
    let one = key_bytes m.first_key in
    let two = key_bytes m.last_key in
    let behind = entry_bytes ms ++ rest in
    let at_off : src ≡ front ++ (off ++ (one ++ (two ++ behind))) =
      e ∙ ap (λ t. front ++ t) (simp append_assoc) in
    let at_one : src ≡ (front ++ off) ++ (one ++ (two ++ behind)) =
      at_off ∙ sym (append_assoc front off (one ++ (two ++ behind))) in
    let at_two : src ≡ ((front ++ off) ++ one) ++ (two ++ behind) =
      at_one ∙ sym (append_assoc (front ++ off) one (two ++ behind)) in
    let at_end : src ≡ (((front ++ off) ++ one) ++ two) ++ behind =
      at_two ∙ sym (append_assoc ((front ++ off) ++ one) two behind) in
    let l0 : length off ≡ 4 = length-to_be_bytes 4 m.offset in
    let l1 : length (front ++ off) ≡ i + 4 = omega (arith, h, l0, length-append front off) in
    let l2 : length ((front ++ off) ++ one) ≡ i + 4 + 32 =
      omega (arith, l1, length-append (front ++ off) one, length-key_bytes m.first_key) in
    let l3 : length (((front ++ off) ++ one) ++ two) ≡ i + 4 + 32 + 32 =
      omega (arith, l2, length-append ((front ++ off) ++ one) two, length-key_bytes m.last_key) in
    rw
      (
        range_mid front off (one ++ (two ++ behind)) i (i + 4) at_off h (omega (arith, l0)),
        range_mid (front ++ off) one (two ++ behind) (i + 4) (i + 4 + 32) at_one l1
            (omega (arith, length-key_bytes m.first_key)),
        decode_key_lem m.first_key hm.first_key,
        range_mid ((front ++ off) ++ one) two behind (i + 4 + 32) (i + 4 + 32 + 32) at_two l2
            (omega (arith, length-key_bytes m.last_key)),
        decode_key_lem m.last_key hm.last_key,
        decode_entries_lem src (((front ++ off) ++ one) ++ two) ms rest (i + 4 + 32 + 32) v at_end
            l3,
        from_be_bytes-to_be_bytes 4 m.offset hm.offset,
      )
      (ap (λ t. ok (m ∷ ms, t)) {x = i + 4 + 32 + 32 + 68 * length ms} (omega arith))

module _ (crc : List ℕ → ℕ) (metas : List BlockMetadata) where
  count_bytes : List ℕ
  count_bytes = to_be_bytes 4 (length metas % 2 ^ 32)

  hashed_bytes : List ℕ
  hashed_bytes = count_bytes ++ entry_bytes metas

  sum_bytes : List ℕ
  sum_bytes = to_be_bytes 4 (crc hashed_bytes)

  encode_metas_lem : encode_metas key_codec crc metas ≡ ok (hashed_bytes ++ sum_bytes)
  unfolding encode_metas hashed_bytes count_bytes sum_bytes
  encode_metas_lem = rw (encode_entries_lem (replicate 32 0) metas (length-replicate {A = ℕ} 32 0))

  module _ (fits : IsU32 (crc hashed_bytes)) (v : All IsMeta metas) (few : length metas < 2 ^ 32)
      (rest : List ℕ) where
    len_count : length count_bytes ≡ 4
    unfolding count_bytes
    len_count = length-to_be_bytes 4 (length metas % 2 ^ 32)

    len_hashed : length hashed_bytes ≡ 4 + 68 * length metas
    unfolding hashed_bytes
    len_hashed =
        omega (
          arith,
          len_count,
          length-append count_bytes (entry_bytes metas),
          length-entry_bytes metas,
        )

    len_sum : length sum_bytes ≡ 4
    unfolding sum_bytes
    len_sum = length-to_be_bytes 4 (crc hashed_bytes)

    src : List ℕ
    src = (hashed_bytes ++ sum_bytes) ++ rest

    len_src : length src ≡ 4 + 68 * length metas + 4 + length rest
    unfolding src
    len_src = omega (
      arith,
      length-append (hashed_bytes ++ sum_bytes) rest,
      length-append hashed_bytes sum_bytes,
      len_hashed,
      len_sum,
    )

    at_hashed : src ≡ hashed_bytes ++ (sum_bytes ++ rest)
    unfolding src
    at_hashed = append_assoc hashed_bytes sum_bytes rest

    at_count : src ≡ count_bytes ++ (entry_bytes metas ++ (sum_bytes ++ rest))
    unfolding hashed_bytes
    at_count = at_hashed ∙ append_assoc count_bytes (entry_bytes metas) (sum_bytes ++ rest)

    read_count : from_be_bytes count_bytes ≡ length metas
    unfolding count_bytes
    read_count =
        from_be_bytes-to_be_bytes 4 (length metas % 2 ^ 32) (omega arith) ∙ omega (arith, few)

    read_sum : from_be_bytes sum_bytes ≡ crc hashed_bytes
    unfolding sum_bytes
    read_sum = from_be_bytes-to_be_bytes 4 (crc hashed_bytes) fits

    decode_metas-src : decode_metas key_codec crc src ≡ ok metas
    unfolding decode_metas
    decode_metas-src =
        let n = length metas in
        rw (
          le→ltb (length src) 4 (omega (arith, len_src)),
          range_mid [] count_bytes (entry_bytes metas ++ (sum_bytes ++ rest)) 0 4 at_count refl
              (omega (arith, len_count)),
          read_count,
          le→ltb (length src) (4 + n * 68 + 4) (omega (arith, len_src)),
          decode_entries_lem src count_bytes metas (sum_bytes ++ rest) 4 v at_count len_count,
          range_mid [] hashed_bytes (sum_bytes ++ rest) 0 (4 + 68 * n) at_hashed refl
              (omega (arith, len_hashed)),
          range_mid hashed_bytes sum_bytes rest (4 + 68 * n) (4 + 68 * n + 4) at_hashed len_hashed
              (omega (arith, len_sum)),
          read_sum,
          ==_refl (crc hashed_bytes),
        )

-- Encoding the metadata of blocks succeeds, fills exactly the capacity that was reserved, and
-- decoding the bytes, with anything behind them, returns the metadata.
pub decode_metas-encode_metas :
    (crc : List ℕ → ℕ)
    → ((bs : List ℕ) → IsU32 (crc bs))
    → (metas : List BlockMetadata) (rest : List ℕ) → All IsMeta metas
    → length metas < 2 ^ 32
    → (bytes : List ℕ) × (encode_metas key_codec crc metas ≡ ok bytes)
      × (length bytes ≡ 4 + length metas * block_meta_size + 4)
      × (decode_metas key_codec crc (bytes ++ rest) ≡ ok metas)
decode_metas-encode_metas crc fits metas rest v few = (
  hashed_bytes crc metas ++ sum_bytes crc metas,
  encode_metas_lem crc metas,
  omega (
    arith,
    length-append (hashed_bytes crc metas) (sum_bytes crc metas),
    len_hashed crc metas (fits _) v few rest,
    len_sum crc metas (fits _) v few rest,
  ),
  unfold src in decode_metas-src crc metas (fits (hashed_bytes crc metas)) v few rest,
)
