-- ===== src/Record/RoundTrip.antt =====
-- `RecordCodec`: `decode` of what `encode` writes.
use logregator.Common.{
  ℕ, ◌+◌, ◌%◌, ◌^◌, ◌≤◌, ◌≡◌, refl, sym, ap, ◌∙◌, List, [], ◌++◌, some, arith, ok, length, drop,
  slice, to_be_bytes, from_be_bytes, length-to_be_bytes, from_be_bytes-to_be_bytes, length-append,
  length-take, append_assoc, append-nil, slice-append, take-append, le→ltb, drop_all, range-ok,
  le→leb, eq→==, IsU64,
}
use logregator.Codec.Buffer.{
  return, copy, within, after, after_len, pass, copy-append, within-append,
}
use logregator.Record.{Key, Record, IsKey, IsEncodable, key_size, wire_len}
use logregator.Record.Encode.{key_bytes, encode_key, encode_record, record_bytes}
use logregator.Record.Decode.{
  key_from_be_bytes, decode_key, check_payload_size, decode_payload, decode_record,
}

-- The fields lie where `from_be_bytes` looks for them.
key_bytes_fields :
    (k : Key) (rest : List ℕ)
    → (slice (key_bytes k ++ rest) 0 8 ≡ to_be_bytes 8 k.source_id)
      × (slice (key_bytes k ++ rest) 8 16 ≡ to_be_bytes 8 k.timestamp)
      × (slice (key_bytes k ++ rest) 16 24 ≡ to_be_bytes 8 k.sequence_num)
      × (slice (key_bytes k ++ rest) 24 32 ≡ to_be_bytes 8 k.stream_id)
unfolding key_bytes to_be_bytes
key_bytes_fields k rest = (refl, refl, refl, refl)

pub length-key_bytes : (k : Key) → length (key_bytes k) ≡ key_size
unfolding key_bytes to_be_bytes
length-key_bytes k = refl

u64_lem : (v : ℕ) → IsU64 v → from_be_bytes (to_be_bytes 8 v) ≡ v
u64_lem v h = from_be_bytes-to_be_bytes 8 v h

key_from_be_bytes-key_bytes :
    (k : Key) (rest : List ℕ) → IsKey k → key_from_be_bytes (key_bytes k ++ rest) ≡ ok k
unfolding key_from_be_bytes
key_from_be_bytes-key_bytes k rest v =
    let (source, time, seq, stream) = key_bytes_fields k rest in
    let long : 32 ≤ length (key_bytes k ++ rest) =
      omega (arith, length-append (key_bytes k) rest, length-key_bytes k) in
    rw
      (
        le→ltb _ _ long,
        range-ok (key_bytes k ++ rest) 0 8 (omega arith) (omega arith),
        range-ok (key_bytes k ++ rest) 8 16 (omega arith) (omega arith),
        range-ok (key_bytes k ++ rest) 16 24 (omega arith) (omega arith),
        range-ok (key_bytes k ++ rest) 24 32 (omega arith) (omega arith),
        source,
        time,
        seq,
        stream,
        u64_lem _ v.stream_id,
        u64_lem _ v.timestamp,
        u64_lem _ v.sequence_num,
        u64_lem _ v.source_id,
      )
      refl

-- `RecordCodec` decodes the key that its bytes stand for, and does not look past it.
pub decode_key-key_bytes :
    (k : Key) (rest : List ℕ) → IsKey k → decode_key (key_bytes k ++ rest) ≡ ok (some (k, key_size))
unfolding decode_key
decode_key-key_bytes k rest v =
    let long : 32 ≤ length (key_bytes k ++ rest) =
      omega (arith, length-append (key_bytes k) rest, length-key_bytes k) in
    rw (
      le→ltb _ _ long,
      range-ok (key_bytes k ++ rest) 0 32 (omega arith) long,
      take-append (key_bytes k) rest key_size (length-key_bytes k),
      rw append-nil at (key_from_be_bytes-key_bytes k [] v),
    )

module _ (rec : Record) (rest : List ℕ) (v : IsEncodable rec) where
  len_bytes : List ℕ
  len_bytes = to_be_bytes 4 (length rec.payload % 2 ^ 32)

  src : List ℕ
  src = key_bytes rec.key ++ (len_bytes ++ (rec.payload ++ rest))

  src-eq : record_bytes rec ++ rest ≡ src
  unfolding record_bytes src len_bytes
  src-eq = simp append_assoc

  length-src : length src ≡ 36 + length rec.payload + length rest
  unfolding src len_bytes
  length-src = omega (
    arith,
    length-append (key_bytes rec.key) (len_bytes ++ (rec.payload ++ rest)),
    length-append len_bytes (rec.payload ++ rest),
    length-append rec.payload rest,
    length-key_bytes rec.key,
    length-to_be_bytes 4 (length rec.payload % 2 ^ 32),
  )

  payload_len : from_be_bytes (slice src 32 36) ≡ length rec.payload
  unfolding src len_bytes
  payload_len =
      ap from_be_bytes (
        slice-append (key_bytes rec.key) len_bytes (rec.payload ++ rest) 32 36
          (length-key_bytes rec.key) (ap (λ t. 32 + t) (length-to_be_bytes 4 _)))
      ∙ from_be_bytes-to_be_bytes 4 (length rec.payload % 2 ^ 32) (omega arith)
      ∙ omega (arith, v.longest)

  -- The length prefix of a frame.
  pub payload_len-record_bytes :
      from_be_bytes (slice (record_bytes rec ++ rest) 32 36) ≡ length rec.payload
  payload_len-record_bytes = ap (λ t. from_be_bytes (slice t 32 36)) src-eq ∙ payload_len

  payload_bytes : slice src 36 (36 + length rec.payload) ≡ rec.payload
  unfolding src len_bytes
  payload_bytes =
      ap (λ t. slice t 36 (36 + length rec.payload))
        (sym (append_assoc (key_bytes rec.key) len_bytes (rec.payload ++ rest)))
      ∙ slice-append (key_bytes rec.key ++ len_bytes) rec.payload rest 36 (36 + length rec.payload)
          (omega (
            arith,
            length-append (key_bytes rec.key) len_bytes,
            length-key_bytes rec.key,
            length-to_be_bytes 4 (length rec.payload % 2 ^ 32),
          ))
          refl

  decode_payload-src : decode_payload src rec.key ≡ ok (some (rec, 36 + length rec.payload))
  unfolding decode_payload check_payload_size
  decode_payload-src = rw (
    range-ok src 32 36 (omega arith) (omega (arith, length-src)),
    payload_len,
    le→leb 2 (length rec.payload) v.shortest,
    le→leb (length rec.payload) 4096 v.longest,
    length-src,
    le→ltb (36 + length rec.payload + length rest) (36 + length rec.payload) (omega arith),
    range-ok src 36 (36 + length rec.payload) (omega arith) (omega (arith, length-src)),
    payload_bytes,
  )

  decode_key-src : decode_key src ≡ ok (some (rec.key, 32))
  unfolding src
  decode_key-src = decode_key-key_bytes rec.key (len_bytes ++ (rec.payload ++ rest)) v.key

  decode_record-src : decode_record src ≡ ok (some (rec, wire_len rec))
  unfolding decode_record
  decode_record-src =
      rw
        (
          length-src,
          le→ltb (36 + length rec.payload + length rest) 36 (omega arith),
          decode_key-src,
        )
        decode_payload-src

  -- A record that fits is read back from the front of its frame, and the frame's length is
  -- reported, whatever bytes follow.
  pub decode_record-record_bytes :
      decode_record (record_bytes rec ++ rest) ≡ ok (some (rec, wire_len rec))
  decode_record-record_bytes = ap decode_record src-eq ∙ decode_record-src

pub length-record_bytes : (rec : Record) → length (record_bytes rec) ≡ wire_len rec
unfolding record_bytes
length-record_bytes rec =
    let len_bytes = to_be_bytes 4 (length rec.payload % 2 ^ 32) in
    omega (
      arith,
      length-append (key_bytes rec.key ++ len_bytes) rec.payload,
      length-append (key_bytes rec.key) len_bytes,
      length-key_bytes rec.key,
      length-to_be_bytes 4 (length rec.payload % 2 ^ 32),
    )

-- `encode` of a key fills the first 32 bytes of a `dst` of that length.
pub encode_key_lem :
    (k : Key) (dst : List ℕ) → length dst ≡ key_size → encode_key k dst ≡ (ok key_size, key_bytes k)
unfolding encode_key return
encode_key_lem k dst h = after_len _ (
    pass _ _ _ (le→ltb (length dst) 32 (omega arith)) (
      pass _ _ _ (rw (eq→== (length dst) 32 h)) (
        after (copy 0 32 (key_bytes k)) _
          (copy-append [] dst 0 32 refl (omega arith) (omega arith) (key_bytes k)
            (omega (arith, length-key_bytes k)))
          (rw (drop_all 32 dst (omega arith), append-nil)))))

-- A record that fits is written to the front of a `dst` that is long enough; the rest of `dst` stays.
pub encode_record_lem :
    (rec : Record) (dst : List ℕ)
    → IsEncodable rec
    → wire_len rec ≤ length dst
    → encode_record rec dst ≡ (ok (wire_len rec), record_bytes rec ++ drop (wire_len rec) dst)
unfolding encode_record record_bytes return
encode_record_lem rec dst v h =
    let n = length rec.payload in
    let key_step = encode_key_lem rec.key (slice dst 0 32) (omega (arith, length-take 32 dst)) in
    let len_bytes = to_be_bytes 4 (n % 2 ^ 32) in
    let kb = key_bytes rec.key in
    after_len _ (
      pass _ _ _ (le→ltb (length dst) (wire_len rec) h) (
        after (within 0 32 (encode_key rec.key)) _
          (within-append [] dst 0 32 refl (omega arith) (omega arith) (encode_key rec.key) key_step)
          (pass _ _ _ (rw (le→leb 2 n v.shortest, le→leb n 4096 v.longest)) (
            after (copy 32 36 len_bytes) _
              (copy-append kb dst 32 36 (length-key_bytes rec.key) (omega arith) (omega arith)
                len_bytes (ap (λ t. 32 + t) (length-to_be_bytes 4 (n % 2 ^ 32))))
              (after (copy 36 (36 + n) rec.payload) _
                (copy-append (kb ++ len_bytes) dst 36 (36 + n)
                  (omega (
                    arith,
                    length-append kb len_bytes,
                    length-key_bytes rec.key,
                    length-to_be_bytes 4 (n % 2 ^ 32),
                  ))
                  (omega arith) (omega arith) rec.payload refl)
                refl)))))

-- Encoding and decoding a record that fits: `encode` succeeds in every `dst` that is long enough,
-- and `decode` of what it leaves there, with anything behind it, returns the record.
pub decode_record-encode_record :
    (rec : Record) (dst rest : List ℕ)
    → IsEncodable rec
    → wire_len rec ≤ length dst
    → ((encode_record rec dst).0 ≡ ok (wire_len rec))
      × (decode_record ((encode_record rec dst).1 ++ rest) ≡ ok (some (rec, wire_len rec)))
decode_record-encode_record rec dst rest v h =
    rw (encode_record_lem rec dst v h)
      (refl, rw append_assoc (decode_record-record_bytes rec (drop (wire_len rec) dst ++ rest) v))
