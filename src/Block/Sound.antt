-- ===== src/Block/Sound.antt =====
-- What `decode_block` accepts.
use logregator.Common.{
  ℕ, zero, suc, ◌+◌, ◌*◌, ◌-◌, ◌%◌, ◌^◌, ◌≤◌, ◌≡◌, ◌≢◌, refl, sym, ap, ◌∙◌, List, [], ◌∷◌, ◌++◌,
  arith, Bool-cases, inl, inr, Outcome, ok, err, panic, ◌>>◌, ltb, ltb→le, ==_iff, ◌==◌, length,
  drop, slice, slice_zero, take_all, slice-append-slice, length-take, length-drop, All, All-slice,
  IsByte, range-ok, to_be_bytes, from_be_bytes, to_be_bytes-from_be_bytes, from_be_bytes-lt,
}
use logregator.Block.{Block, BlockError}
use logregator.Block.Format.{check_offsets, read_u16s, decode_body, decode_block, encode_block}
use logregator.Block.RoundTrip.{Spaced, offset_bytes, body_bytes, count_bytes, encode_block_lem}

check_offsets-Spaced : (stop : ℕ) (os : List ℕ) → check_offsets stop os ≡ ok tt → Spaced stop os
unfolding check_offsets
check_offsets-Spaced stop [] h = tt
check_offsets-Spaced stop (o ∷ os) h = ground (arith, check_offsets-Spaced stop os)

offset_bytes-read_u16s :
    (n : ℕ) (bs : List ℕ)
    → length bs ≡ n * 2
    → All IsByte bs
    → (offset_bytes (read_u16s bs) ≡ bs) × (length (read_u16s bs) ≡ n)
unfolding read_u16s
offset_bytes-read_u16s zero [] h b = (refl, refl)
offset_bytes-read_u16s (suc n) [] h b = absurd (omega arith)
offset_bytes-read_u16s n (x ∷ []) h b = absurd (omega arith)
offset_bytes-read_u16s zero (x ∷ y ∷ bs) h b = absurd (omega arith)
offset_bytes-read_u16s (suc n) (x ∷ y ∷ bs) h (hx, (hy, hb)) =
    let (ih, len) = offset_bytes-read_u16s n bs (omega arith) hb in
    let word : from_be_bytes (x ∷ y ∷ []) % 2 ^ 16 ≡ from_be_bytes (x ∷ y ∷ []) =
      omega (arith, from_be_bytes-lt 2 (x ∷ y ∷ []) refl (hx, (hy, tt))) in
    (
      ap (λ t. to_be_bytes 2 t ++ offset_bytes (read_u16s bs)) word
          ∙ ap (λ t. t ++ offset_bytes (read_u16s bs))
              (to_be_bytes-from_be_bytes 2 (x ∷ y ∷ []) refl (hx, (hy, tt)))
          ∙ ap (λ t. x ∷ y ∷ t) ih,
      ap suc len,
    )

module _ (src : List ℕ) (b : Block) where
  m : ℕ
  m = length src

  -- The record count that stands at the end.
  n : ℕ
  n = from_be_bytes (slice src (length src - 2) (length src))

  -- What a success says of the tests that `decode_body` made.
  record IsBody : Type 0 where
    long : 2 ≤ length src
    fits : n * 2 ≤ length src - 2
    data_bytes : b.data_bytes ≡ slice src 0 (length src - 2 - n * 2)
    offsets : b.offsets ≡ read_u16s (slice src (length src - 2 - n * 2) (length src - 2))
    checked : check_offsets (length src - 2 - n * 2) b.offsets ≡ ok tt

  finish :
      (c : Outcome BlockError (Unit {0})) (bytes offs : List ℕ)
      → (c >> ok (record { data_bytes = bytes; offsets = offs })) ≡ ok b
      → (c ≡ ok tt) × (b.data_bytes ≡ bytes) × (b.offsets ≡ offs)
  finish (ok tt) bytes offs e = ground arith
  finish (err x) bytes offs e = cc
  finish panic bytes offs e = cc

  decode_body-IsBody : decode_body src ≡ ok b → IsBody
  unfolding decode_body n
  decode_body-IsBody e = elim (Bool-cases (ltb (length src) 2)) [
    | inl short ↦ cc (rw short at e)
    | inr long ↦
        let l = ltb→le (length src) 2 long in
        let e' =
          rw (long, range-ok src (length src - 2) (length src) (omega arith) (omega arith)) at e in
        elim (Bool-cases (ltb (length src - 2) (n * 2))) [
          | inl bad ↦ cc (rw bad at e')
          | inr fits ↦
              let f = ltb→le (length src - 2) (n * 2) fits in
              let e'' =
                rw
                  (
                    fits,
                    range-ok src 0 (length src - 2 - n * 2) (omega arith) (omega arith),
                    range-ok src (length src - 2 - n * 2) (length src - 2) (omega arith)
                        (omega arith),
                  )
                  at e' in
              let (c, d, o) =
                finish
                  (check_offsets (length src - 2 - n * 2)
                    (read_u16s (slice src (length src - 2 - n * 2) (length src - 2))))
                  _ _ e'' in
              record { long = l; fits = f; data_bytes = d; offsets = o; checked = rw o c }
        ]
  ]

  module _ (h : IsBody) (bytes : All IsByte src) where
    start : ℕ
    start = length src - 2 - n * 2

    segment : List ℕ
    segment = slice src (length src - 2 - n * 2) (length src - 2)

    length-segment : length segment ≡ n * 2
    unfolding segment
    length-segment = omega (
      arith,
      h.fits,
      h.long,
      length-take (length src - 2 - (length src - 2 - n * 2)) (drop (length src - 2 - n * 2) src),
      length-drop (length src - 2 - n * 2) src,
    )

    read : (offset_bytes (read_u16s segment) ≡ segment) × (length (read_u16s segment) ≡ n)
    unfolding segment
    read =
        offset_bytes-read_u16s n segment length-segment
          (All-slice IsByte src (length src - 2 - n * 2) (length src - 2) bytes)

    length-count : length (slice src (length src - 2) (length src)) ≡ 2
    length-count = omega (
      arith,
      h.long,
      length-take (length src - (length src - 2)) (drop (length src - 2) src),
      length-drop (length src - 2) src,
    )

    count : count_bytes b ≡ slice src (length src - 2) (length src)
    unfolding count_bytes n segment
    count =
        let bs = All-slice IsByte src (length src - 2) (length src) bytes in
        let len : length b.offsets ≡ n = ap length h.offsets ∙ read.1 in
        let word : n % 2 ^ 16 ≡ n =
          omega
            (arith, from_be_bytes-lt 2 (slice src (length src - 2) (length src)) length-count bs) in
        ap (λ t. to_be_bytes 2 (t % 2 ^ 16)) len
        ∙ ap (to_be_bytes 2) word
        ∙ to_be_bytes-from_be_bytes 2 (slice src (length src - 2) (length src)) length-count bs

    -- The body is the data, the index and the count.
    body_bytes-src : body_bytes b ≡ src
    unfolding body_bytes segment
    body_bytes-src =
        ap (λ t. t ++ offset_bytes b.offsets ++ count_bytes b) h.data_bytes
        ∙ ap (λ t. slice src 0 (length src - 2 - n * 2) ++ t ++ count_bytes b)
            (ap offset_bytes h.offsets ∙ read.0)
        ∙ ap (λ t. slice src 0 (length src - 2 - n * 2) ++ segment ++ t) count
        ∙ ap (λ t. t ++ slice src (length src - 2) (length src))
            (slice-append-slice src 0 (length src - 2 - n * 2) (length src - 2) (omega arith)
              (omega arith))
        ∙ slice-append-slice src 0 (length src - 2) (length src) (omega arith) (omega arith)
        ∙ slice_zero src (length src)
        ∙ take_all (length src) src (omega arith)

    spaced : Spaced (length b.data_bytes) b.offsets
    spaced =
        let len : length b.data_bytes ≡ length src - 2 - n * 2 =
          ap length h.data_bytes ∙ omega (arith, length-take (length src - 2 - n * 2 - 0) src) in
        rw len (check_offsets-Spaced (length src - 2 - n * 2) b.offsets h.checked)

module _ (crc : List ℕ → ℕ) (src : List ℕ) (b : Block) where
  -- What a success says of the checksum.
  record IsChecked : Type 0 where
    long : 4 ≤ length src
    sum :
        crc (slice src 0 (length src - 4)) ≡ from_be_bytes (slice src (length src - 4) (length src))
    body : decode_body (slice src 0 (length src - 4)) ≡ ok b

  decode_block-IsChecked : decode_block crc src ≡ ok b → IsChecked
  unfolding decode_block
  decode_block-IsChecked e = elim (Bool-cases (ltb (length src) 4)) [
    | inl short ↦ cc (rw short at e)
    | inr long ↦
        let l = ltb→le (length src) 4 long in
        let front = slice src 0 (length src - 4) in
        let sum = from_be_bytes (slice src (length src - 4) (length src)) in
        let e' =
          rw
            (
              long,
              range-ok src 0 (length src - 4) (omega arith) (omega arith),
              range-ok src (length src - 4) (length src) (omega arith) (omega arith),
            )
            at e in
        elim (Bool-cases (crc front == sum)) [
          | inl same ↦ record {
            long = l;
            sum = (==_iff (crc front) sum).0 same;
            body = rw same at e';
          }
          | inr differs ↦ cc (rw differs at e')
        ]
  ]

  body_of_src :
      All IsByte src
      → decode_block crc src ≡ ok b
      → Spaced (length b.data_bytes) b.offsets
        × (src ≡ body_bytes b ++ to_be_bytes 4 (crc (body_bytes b)))
  body_of_src bytes e =
      let h = decode_block-IsChecked e in
      let front = slice src 0 (length src - 4) in
      let back = slice src (length src - 4) (length src) in
      let front_bytes = All-slice IsByte src 0 (length src - 4) bytes in
      let back_bytes = All-slice IsByte src (length src - 4) (length src) bytes in
      let isbody = decode_body-IsBody front b h.body in
      let whole = body_bytes-src front b isbody front_bytes in
      let len : length back ≡ 4 = omega (
        arith,
        h.long,
        length-take (length src - (length src - 4)) (drop (length src - 4) src),
        length-drop (length src - 4) src,
      ) in
      let check : to_be_bytes 4 (crc (body_bytes b)) ≡ back =
        ap (λ t. to_be_bytes 4 (crc t)) whole
        ∙ ap (to_be_bytes 4) h.sum
        ∙ to_be_bytes-from_be_bytes 4 back len back_bytes in
      (
        spaced front b isbody front_bytes,
        sym (
            ap (λ t. t ++ to_be_bytes 4 (crc (body_bytes b))) whole
            ∙ ap (λ t. front ++ t) check
            ∙ slice-append-slice src 0 (length src - 4) (length src) (omega arith) (omega arith)
            ∙ slice_zero src (length src)
            ∙ take_all (length src) src (omega arith)),
      )

  -- The bytes that `decode_block` accepts are those that `encode_block` makes of the block that it
  -- returns, if the block has a record and a size that `encode_block` accepts.
  pub decode_block_sound :
      All IsByte src
      → decode_block crc src ≡ ok b
      → b.offsets ≢ []
      → length b.data_bytes + 2 * length b.offsets + 2 ≤ 2 ^ 16 - 1
      → length b.data_bytes ≤ 2 ^ 16 - 1 - 38
      → encode_block crc b ≡ ok src
  decode_block_sound bytes e some_record room data_room =
      let (spaced, same) = body_of_src bytes e in
      encode_block_lem crc b
        (record { some_record = some_record; spaced = spaced; room = room; data_room = data_room })
      ∙ ap ok (sym same)
