-- ===== src/Block/RoundTrip.antt =====
-- Well-formed blocks, and `encode_block` and `decode_block` of them.
use logregator.Common.{
  ℕ, ◌+◌, ◌*◌, ◌-◌, ◌%◌, ◌^◌, ◌≤◌, ◌<◌, ◌≡◌, ◌≢◌, refl, ap, ◌∙◌, List, [], ◌∷◌, ◌++◌, arith, ok,
  length, All, IsU16, IsU32, slice, slice-append, slice_last, take-append, range-ok, to_be_bytes,
  from_be_bytes, length-to_be_bytes, from_be_bytes-to_be_bytes, length-append, append_assoc, le→ltb,
  ne→==, ==_refl, lt→leb,
}
use logregator.Block.{Block}
use logregator.Block.Format.{
  next_offset, encode_offsets, check_offsets, read_u16s, encode_block, decode_body, decode_block,
}

-- Every record of the index is as long as a record can be.
abbrev pub Spaced : ℕ → List ℕ → Type 0
Spaced stop [] = Unit
Spaced stop (o ∷ rest) =
    (o + 38 ≤ next_offset stop rest) × (next_offset stop rest ≤ o + 4132) × Spaced stop rest

-- A block as `BlockWriter` makes it: at least one record, and room for the index.
pub record IsWellFormed (b : Block) : Type 0 where
  pub some_record : b.offsets ≢ []
  pub spaced : Spaced (length b.data_bytes) b.offsets
  pub room : length b.data_bytes + 2 * length b.offsets + 2 ≤ 2 ^ 16 - 1
  pub data_room : length b.data_bytes ≤ 2 ^ 16 - 1 - 38

abbrev pub offset_bytes : List ℕ → List ℕ
offset_bytes [] = []
offset_bytes (o ∷ rest) = to_be_bytes 2 (o % 2 ^ 16) ++ offset_bytes rest

pub length-offset_bytes : (os : List ℕ) → length (offset_bytes os) ≡ 2 * length os
length-offset_bytes [] = omega arith
length-offset_bytes (o ∷ os) = omega (
  arith,
  length-offset_bytes os,
  length-append (to_be_bytes 2 (o % 2 ^ 16)) (offset_bytes os),
  length-to_be_bytes 2 (o % 2 ^ 16),
)

-- Offsets lie before the end of the data.
next_offset-le : (stop : ℕ) (os : List ℕ) → Spaced stop os → next_offset stop os ≤ stop
next_offset-le stop [] h = omega arith
next_offset-le stop (o ∷ os) h = omega (arith, h.0, next_offset-le stop os h.2)

pub Spaced-IsU16 : (stop : ℕ) (os : List ℕ) → stop < 2 ^ 16 → Spaced stop os → All IsU16 os
Spaced-IsU16 stop [] s h = tt
Spaced-IsU16 stop (o ∷ os) s h =
    (omega (arith, h.0, next_offset-le stop os h.2), Spaced-IsU16 stop os s h.2)

encode_offsets_lem :
    (stop : ℕ) (os : List ℕ) → Spaced stop os → encode_offsets stop os ≡ ok (offset_bytes os)
unfolding encode_offsets
encode_offsets_lem stop [] h = refl
encode_offsets_lem stop (o ∷ os) h =
    rw (lt→leb (next_offset stop os) o (omega (arith, h.0)), encode_offsets_lem stop os h.2)

pub check_offsets_lem : (stop : ℕ) (os : List ℕ) → Spaced stop os → check_offsets stop os ≡ ok tt
unfolding check_offsets
check_offsets_lem stop [] h = refl
check_offsets_lem stop (o ∷ os) h = ground (arith, check_offsets_lem stop os)

read_u16s-offset_bytes : (os : List ℕ) → All IsU16 os → read_u16s (offset_bytes os) ≡ os
unfolding read_u16s to_be_bytes
read_u16s-offset_bytes [] h = refl
read_u16s-offset_bytes (o ∷ os) h =
    let read : from_be_bytes (to_be_bytes 2 (o % 2 ^ 16)) ≡ o % 2 ^ 16 =
      from_be_bytes-to_be_bytes 2 (o % 2 ^ 16) (omega arith) in
    ap (λ t. t ∷ read_u16s (offset_bytes os)) (read ∙ omega (arith, h.0))
    ∙ ap (λ t. o ∷ t) (read_u16s-offset_bytes os h.1)

none_of_zero : (os : List ℕ) → length os ≡ 0 → os ≡ []
none_of_zero [] h = refl
none_of_zero (o ∷ os) h = absurd (omega arith)

-- The bytes before the checksum.
unfoldable pub count_bytes : Block → List ℕ
count_bytes b = to_be_bytes 2 (length b.offsets % 2 ^ 16)

unfoldable pub body_bytes : Block → List ℕ
body_bytes b = b.data_bytes ++ offset_bytes b.offsets ++ count_bytes b

module _ (b : Block) (v : IsWellFormed b) where
  length-body : length (body_bytes b) ≡ length b.data_bytes + 2 * length b.offsets + 2
  unfolding body_bytes count_bytes
  length-body = omega (
    arith,
    length-append (b.data_bytes ++ offset_bytes b.offsets) (count_bytes b),
    length-append b.data_bytes (offset_bytes b.offsets),
    length-offset_bytes b.offsets,
    length-to_be_bytes 2 (length b.offsets % 2 ^ 16),
  )

  read_count :
      from_be_bytes (slice (body_bytes b) (length (body_bytes b) - 2) (length (body_bytes b)))
      ≡ length b.offsets
  unfolding body_bytes count_bytes
  read_count =
      ap from_be_bytes (
        slice_last (b.data_bytes ++ offset_bytes b.offsets) (count_bytes b)
          (length (body_bytes b) - 2) (length (body_bytes b))
          (omega (
            arith,
            length-body,
            length-append b.data_bytes (offset_bytes b.offsets),
            length-offset_bytes b.offsets,
          ))
          (omega (arith, length-body, length-to_be_bytes 2 (length b.offsets % 2 ^ 16))))
      ∙ from_be_bytes-to_be_bytes 2 (length b.offsets % 2 ^ 16) (omega arith)
      ∙ omega (arith, v.room)

  read_data : slice (body_bytes b) 0 (length b.data_bytes) ≡ b.data_bytes
  unfolding body_bytes
  read_data =
      ap (λ t. slice t 0 (length b.data_bytes))
        (append_assoc b.data_bytes (offset_bytes b.offsets) (count_bytes b))
      ∙ slice-append [] b.data_bytes (offset_bytes b.offsets ++ (count_bytes b)) 0
          (length b.data_bytes) refl (omega arith)

  segment_end : ℕ
  segment_end = length b.data_bytes + 2 * length b.offsets

  read_segment : slice (body_bytes b) (length b.data_bytes) segment_end ≡ offset_bytes b.offsets
  unfolding body_bytes segment_end
  read_segment =
      ap (λ t. slice t (length b.data_bytes) segment_end)
        (append_assoc b.data_bytes (offset_bytes b.offsets) (count_bytes b))
      ∙ slice-append b.data_bytes (offset_bytes b.offsets) (count_bytes b) (length b.data_bytes)
          segment_end refl (omega (arith, length-offset_bytes b.offsets))

  offsets-IsU16 : All IsU16 b.offsets
  offsets-IsU16 = Spaced-IsU16 (length b.data_bytes) b.offsets (omega (arith, v.data_room)) v.spaced

  decode_body-body : decode_body (body_bytes b) ≡ ok b
  unfolding decode_body
  decode_body-body =
      let d = length b.data_bytes in
      let n = length b.offsets in
      let end : length (body_bytes b) - 2 ≡ segment_end =
        unfold segment_end in omega (arith, length-body) in
      let start : segment_end - n * 2 ≡ d = unfold segment_end in omega arith in
      rw (
        le→ltb (length (body_bytes b)) 2 (omega (arith, length-body)),
        range-ok (body_bytes b) (length (body_bytes b) - 2) (length (body_bytes b)) (omega arith)
            (omega arith),
        read_count,
        end,
        le→ltb segment_end (n * 2) (unfold segment_end in omega arith),
        start,
        range-ok (body_bytes b) 0 d (omega arith) (omega (arith, length-body)),
        read_data,
        range-ok (body_bytes b) d segment_end (unfold segment_end in omega arith)
            (unfold segment_end in omega (arith, length-body)),
        read_segment,
        read_u16s-offset_bytes b.offsets offsets-IsU16,
        check_offsets_lem d b.offsets v.spaced,
      )

module _ (crc : List ℕ → ℕ) (b : Block) (v : IsWellFormed b) where
  some_offset : length b.offsets ≢ 0
  some_offset h = v.some_record (none_of_zero b.offsets h)

  -- A well-formed block is encoded: its body, and the checksum of the body.
  pub encode_block_lem :
      encode_block crc b ≡ ok (body_bytes b ++ to_be_bytes 4 (crc (body_bytes b)))
  unfolding encode_block body_bytes count_bytes
  encode_block_lem = rw (
    le→ltb (2 ^ 16 - 1) (length b.offsets) (omega (arith, v.room)),
    ne→== (length b.offsets * 2) 0 (λ h. some_offset (omega arith)),
    le→ltb (2 ^ 16 - 1) (length b.data_bytes + length b.offsets * 2 + 2) (omega (arith, v.room)),
    le→ltb (2 ^ 16 - 1 - 38) (length b.data_bytes) v.data_room,
    encode_offsets_lem (length b.data_bytes) b.offsets v.spaced,
  )

  sum : List ℕ
  sum = to_be_bytes 4 (crc (body_bytes b))

  decode_block-sum : IsU32 (crc (body_bytes b)) → decode_block crc (body_bytes b ++ sum) ≡ ok b
  unfolding decode_block sum
  decode_block-sum fits =
      let l = length (body_bytes b) in
      let total : length (body_bytes b ++ sum) ≡ l + 4 =
        unfold sum in
        omega
          (arith, length-append (body_bytes b) sum, length-to_be_bytes 4 (crc (body_bytes b))) in
      let front : slice (body_bytes b ++ sum) 0 (l + 4 - 4) ≡ body_bytes b =
        take-append (body_bytes b) sum (l + 4 - 4 - 0) (omega arith) in
      let back : slice (body_bytes b ++ sum) (l + 4 - 4) (l + 4) ≡ sum =
        slice_last (body_bytes b) sum (l + 4 - 4) (l + 4) (omega arith)
          (omega (arith, length-to_be_bytes 4 (crc (body_bytes b)))) in
      rw
        (
          total,
          le→ltb (l + 4) 4 (omega arith),
          range-ok (body_bytes b ++ sum) 0 (l + 4 - 4) (omega arith) (omega (arith, total)),
          range-ok (body_bytes b ++ sum) (l + 4 - 4) (l + 4) (omega arith) (omega (arith, total)),
          front,
          back,
          from_be_bytes-to_be_bytes 4 (crc (body_bytes b)) fits,
          ==_refl (crc (body_bytes b)),
        )
        (decode_body-body b v)

layout_lem :
    (crc : List ℕ → ℕ) (b : Block)
    → IsWellFormed b
    → body_bytes b ++ to_be_bytes 4 (crc (body_bytes b)) ≡ (
        b.data_bytes
        ++ offset_bytes b.offsets
        ++ to_be_bytes 2 (length b.offsets)
        ++ to_be_bytes 4
            (crc (b.data_bytes ++ offset_bytes b.offsets ++ to_be_bytes 2 (length b.offsets))))
unfolding body_bytes count_bytes
layout_lem crc b v =
    let body : body_bytes b
        ≡ b.data_bytes ++ offset_bytes b.offsets ++ to_be_bytes 2 (length b.offsets) =
      ap (λ n. b.data_bytes ++ offset_bytes b.offsets ++ to_be_bytes 2 n)
        {x = length b.offsets % 2 ^ 16} {y = length b.offsets} (omega (arith, v.room)) in
    ap (λ t. t ++ to_be_bytes 4 (crc t)) body

-- A well-formed block is encoded into its data, its offsets in two bytes each, their number in two
-- bytes, and the checksum of all this in four bytes, all numbers with the highest byte first; decoding
-- that returns the block.
pub decode_block-encode_block :
    (crc : List ℕ → ℕ)
    → ((bs : List ℕ) → IsU32 (crc bs))
    → (b : Block) → IsWellFormed b
    → (bytes : List ℕ) × (encode_block crc b ≡ ok bytes)
      × (bytes ≡ (
          b.data_bytes
          ++ offset_bytes b.offsets
          ++ to_be_bytes 2 (length b.offsets)
          ++ to_be_bytes 4
              (crc (b.data_bytes ++ offset_bytes b.offsets ++ to_be_bytes 2 (length b.offsets)))))
      × (length bytes ≡ length b.data_bytes + 2 * length b.offsets + 6)
      × (decode_block crc bytes ≡ ok b)
decode_block-encode_block crc fits b v = (
  body_bytes b ++ sum crc b v,
  unfold sum in encode_block_lem crc b v,
  unfold sum in layout_lem crc b v,
  unfold sum in
      omega (
        arith,
        length-append (body_bytes b) (sum crc b v),
        length-body b v,
        length-to_be_bytes 4 (crc (body_bytes b)),
      ),
  decode_block-sum crc b v (fits (body_bytes b)),
)
