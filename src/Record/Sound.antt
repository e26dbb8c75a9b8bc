-- ===== src/Record/Sound.antt =====
-- `RecordCodec::decode`: what it accepts, and frames that are cut off.
use logregator.Common.{
  ℕ, ◌+◌, ◌-◌, ◌%◌, ◌^◌, ◌≤◌, ◌<◌, ◌≡◌, refl, sym, ap, ◌∙◌, List, [], ◌∷◌, ◌++◌, some, none, arith,
  ok, length, append-nil, take-append, slice_zero, slice-take, drop, slice, slice-append-slice,
  take-append-drop, length-take, length-drop, length-append, All, All-slice, IsByte, to_be_bytes,
  from_be_bytes, to_be_bytes-from_be_bytes, from_be_bytes-lt,
}
use logregator.Record.{Record, IsKey, IsEncodable, wire_len}
use logregator.Record.Encode.{key_bytes, record_bytes}
use logregator.Record.Decode.{decode_record}
use logregator.Record.RoundTrip.{length-record_bytes, payload_len-record_bytes}
use logregator.Record.Errors.{key_of, payload_len_of, record_of, decode_record_lem}

-- What a success says of the tests that `decode` made.
record IsFrame (src : List ℕ) (rec : Record) (n : ℕ) : Type 0 where
  whole : n ≤ length src
  size : n ≡ 36 + payload_len_of src
  shortest : 2 ≤ payload_len_of src
  longest : payload_len_of src ≤ 4096
  value : rec ≡ record_of src

decode_record-IsFrame :
    (src : List ℕ) (rec : Record) (n : ℕ)
    → decode_record src ≡ ok (some (rec, n))
    → IsFrame src rec n
decode_record-IsFrame src rec n e = ground (arith, decode_record_lem src)

-- A slice of eight or four bytes is what its integer is written as.
field_bytes :
    (w i : ℕ) (src : List ℕ)
    → i + w ≤ length src
    → All IsByte src
    → to_be_bytes w (from_be_bytes (slice src i (i + w))) ≡ slice src i (i + w)
field_bytes w i src h b =
    to_be_bytes-from_be_bytes w (slice src i (i + w))
      (omega (arith, length-take (i + w - i) (drop i src), length-drop i src))
      (All-slice IsByte src i (i + w) b)

key_bytes-key_of :
    (src : List ℕ) → 32 ≤ length src → All IsByte src → key_bytes (key_of src) ≡ slice src 0 32
unfolding key_bytes
key_bytes-key_of src h b = rw (
  field_bytes 8 0 src (omega arith) b,
  field_bytes 8 8 src (omega arith) b,
  field_bytes 8 16 src (omega arith) b,
  field_bytes 8 24 src (omega arith) b,
  slice-append-slice src 0 8 16 (omega arith) (omega arith),
  slice-append-slice src 0 16 24 (omega arith) (omega arith),
  slice-append-slice src 0 24 32 (omega arith) (omega arith),
)

record_bytes-record_of :
    (src : List ℕ)
    → 36 + payload_len_of src ≤ length src
    → payload_len_of src ≤ 4096
    → All IsByte src
    → record_bytes (record_of src) ≡ slice src 0 (36 + payload_len_of src)
unfolding record_bytes
record_bytes-record_of src h short b =
    let p = payload_len_of src in
    let len : length (slice src 36 (36 + p)) ≡ p =
      omega (arith, length-take (36 + p - 36) (drop 36 src), length-drop 36 src) in
    let word : p % 2 ^ 32 ≡ p = omega arith in
    rw (
      len,
      word,
      key_bytes-key_of src (omega arith) b,
      field_bytes 4 32 src (omega arith) b,
      slice-append-slice src 0 32 36 (omega arith) (omega arith),
      slice-append-slice src 0 36 (36 + p) (omega arith) (omega arith),
    )

key_of-IsKey : (src : List ℕ) → 32 ≤ length src → All IsByte src → IsKey (key_of src)
key_of-IsKey src h b = record {
  stream_id = field 24 (omega arith);
  timestamp = field 8 (omega arith);
  sequence_num = field 16 (omega arith);
  source_id = field 0 (omega arith);
}
  where
    field : (i : ℕ) → i + 8 ≤ length src → from_be_bytes (slice src i (i + 8)) < 256 ^ 8
    field i k =
        from_be_bytes-lt 8 (slice src i (i + 8))
          (omega (arith, length-take (i + 8 - i) (drop i src), length-drop i src))
          (All-slice IsByte src i (i + 8) b)

-- When `decode` returns a record from a slice of bytes, the record is one that `encode` accepts, the
-- count is its wire length and lies within the slice, and the slice begins with the record's frame.
pub decode_record_sound :
    (src : List ℕ) (rec : Record) (n : ℕ)
    → All IsByte src
    → decode_record src ≡ ok (some (rec, n))
    → IsEncodable rec
      × (n ≡ wire_len rec)
      × (n ≤ length src)
      × (record_bytes rec ++ drop n src ≡ src)
decode_record_sound src rec n b e =
    let f = decode_record-IsFrame src rec n e in
    let p = payload_len_of src in
    let room : 36 + p ≤ length src = omega (arith, f.whole, f.size) in
    let len : length (slice src 36 (36 + p)) ≡ p =
      omega (arith, length-take (36 + p - 36) (drop 36 src), length-drop 36 src) in
    let key = key_of-IsKey src (omega (arith, room)) b in
    rw (f.value, f.size)
      (
        record { key = key; longest = rw len f.longest; shortest = rw len f.shortest },
        rw len,
        room,
        ap (λ t. t ++ drop (36 + p) src)
              (record_bytes-record_of src room f.longest b ∙ slice_zero src (36 + p))
            ∙ take-append-drop (36 + p) src,
      )

-- A record that is cut off, anywhere before its last byte, is not decoded and is no error: `decode`
-- asks for more bytes.
pub decode_record_torn :
    (rec : Record) (front back : List ℕ) (x : ℕ)
    → IsEncodable rec
    → front ++ (x ∷ back) ≡ record_bytes rec
    → decode_record front ≡ ok none
decode_record_torn rec front back x v e = decode_record_lem front ∙ ground (arith, short, prefix)
  where
    whole : length front + length (x ∷ back) ≡ 36 + length rec.payload
    whole = sym (length-append front (x ∷ back)) ∙ ap length e ∙ length-record_bytes rec

    short : length front < 36 + length rec.payload
    short = omega (arith, whole)

    prefix : 36 ≤ length front → payload_len_of front ≡ length rec.payload
    prefix h =
        ap from_be_bytes (
          ap (λ t. slice t 32 36) (sym (take-append front (x ∷ back) (length front) refl))
          ∙ slice-take (front ++ (x ∷ back)) 32 36 (length front) (omega arith) h)
        ∙ ap (λ t. from_be_bytes (slice t 32 36)) (e ∙ sym (append-nil (record_bytes rec)))
        ∙ payload_len-record_bytes rec [] v
