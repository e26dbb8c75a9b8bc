-- ===== src/Block/Format.antt =====
-- `Block::encode_block` and `Block::decode_block`. `crc` is `crc32fast::hash`.
use logregator.Common.{
  ℕ, ◌+◌, ◌*◌, ◌-◌, ◌%◌, ◌^◌, List, [], ◌∷◌, ◌++◌, none, some, not, ◌&&◌, Outcome, ok, err, panic,
  ◌>>=◌, ◌>>◌, ltb, leb, ◌==◌, if◌then◌else◌, length, range, to_be_bytes, from_be_bytes,
}
use logregator.Record.{min_record_wire_length, max_record_wire_length}
use logregator.Block.{
  Block, BlockError, max_block_size, too_many_records, max_size_exceeded, invalid_offsets,
  invalid_offset_segment, invalid_payload_size, corrupted_metadata, unexpected_size,
  checksum_mismatch, offset_segment_start, offset_segment_len,
}

-- Where a record ends: at the next offset, and at the end of the data for the last.
abbrev pub next_offset : ℕ → List ℕ → ℕ
next_offset stop [] = stop
next_offset stop (o ∷ rest) = o

-- The loop of `encode_block`: the bytes of the offsets, which must ascend.
unfoldable pub encode_offsets : ℕ → List ℕ → Outcome BlockError (List ℕ)
encode_offsets stop [] = ok []
encode_offsets stop (start ∷ rest) =
    let more = encode_offsets stop rest in
    let end = next_offset stop rest in
    if leb end start
    then err (invalid_offsets start end)
    else (do bytes ← more; ok (to_be_bytes 2 (start % 2 ^ 16) ++ bytes))

-- The loop of `decode_block`: the offsets must ascend, by the length of some record each.
unfoldable pub check_offsets : ℕ → List ℕ → Outcome BlockError (Unit {0})
check_offsets stop [] = ok tt
check_offsets stop (start ∷ rest) =
    let more = check_offsets stop rest in
    let end = next_offset stop rest in
    let record_wire_len = end - start in
    if leb end start
    then err (invalid_offsets start end)
    else if not
        (leb min_record_wire_length record_wire_len && leb record_wire_len max_record_wire_length)
    then err (invalid_payload_size record_wire_len max_record_wire_length min_record_wire_length)
    else more

-- `as_chunks::<2>()` and `u16::from_be_bytes`.
unfoldable pub read_u16s : List ℕ → List ℕ
read_u16s [] = []
read_u16s (a ∷ []) = []
read_u16s (a ∷ b ∷ rest) = from_be_bytes (a ∷ b ∷ []) ∷ read_u16s rest

-- What `decode_block` does with the bytes before the checksum.
unfoldable pub decode_body : List ℕ → Outcome BlockError Block
decode_body src = if ltb (length src) 2 then err (unexpected_size (length src) 2) else (do
  count_bytes ← range src (length src - 2) (length src)
  let num_of_records = from_be_bytes count_bytes
  let segment_len = num_of_records * 2
  let segment_end = length src - 2
  if ltb segment_end segment_len
      then err (invalid_offset_segment none (some segment_end) (some segment_len))
      else (do
        let segment_start = segment_end - segment_len
        data_bytes ← range src 0 segment_start
        segment ← range src segment_start segment_end
        let offsets = read_u16s segment
        check_offsets segment_start offsets
        ok (record { data_bytes = data_bytes; offsets = offsets })))

module _ (crc : List ℕ → ℕ) where
  -- The `todo!` for data that is nearly as long as a block can be is a panic.
  unfoldable pub encode_block : Block → Outcome BlockError (List ℕ)
  unfolding offset_segment_start offset_segment_len
  encode_block b =
      let total_size = length b.data_bytes + offset_segment_len b + 2 in
      if ltb (2 ^ 16 - 1) (length b.offsets)
      then err (too_many_records (length b.offsets))
      else if offset_segment_len b == 0
      then err corrupted_metadata
      else if ltb max_block_size total_size
      then err (max_size_exceeded total_size)
      else if ltb (2 ^ 16 - 1 - min_record_wire_length) (length b.data_bytes)
      then panic
      else (do
        offset_bytes ← encode_offsets (offset_segment_start b) b.offsets
        let body = b.data_bytes ++ offset_bytes ++ to_be_bytes 2 (length b.offsets % 2 ^ 16)
        ok (body ++ to_be_bytes 4 (crc body)))

  unfoldable pub decode_block : List ℕ → Outcome BlockError Block
  decode_block src = if ltb (length src) 4 then err (unexpected_size (length src) 4) else (do
    body ← range src 0 (length src - 4)
    checksum_bytes ← range src (length src - 4) (length src)
    let stored = crc body
    let computed = from_be_bytes checksum_bytes
    if not (stored == computed) then err (checksum_mismatch stored computed) else decode_body body)
