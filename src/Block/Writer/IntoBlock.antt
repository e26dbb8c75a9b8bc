-- ===== src/Block/Writer/IntoBlock.antt =====
-- The block that a writer turns into.
use logregator.Common.{
  ℕ, ◌+◌, ◌-◌, ◌^◌, ◌≤◌, ◌≡◌, ◌≢◌, refl, sym, ap, ◌∙◌, List, [], ◌∷◌, ◌++◌, some, none, map, suc,
  ok, arith, length, All, IsU32,
}
use logregator.Record.{Record, IsEncodable, wire_len}
use logregator.Block.{Block}
use logregator.Block.Format.{next_offset, encode_block, decode_block}
use logregator.Block.RoundTrip.{Spaced, IsWellFormed, decode_block-encode_block}
use logregator.Block.Writer.{BlockWriter, into_block}
use logregator.Record.Codec.{record_codec}
use logregator.Block.Cursor.{new, seek_to_first}
use logregator.Block.Cursor.Scan.{scan, HasRecords, scan-seek_to_first}
use logregator.Block.Writer.Holds.{
  Holds, frames, starts, first_key_of, last_key_of, length-starts, length-frames-cons,
}

-- Where the first of the records starts, or where they end.
next_offset-starts :
    (at stop : ℕ) (rs : List Record)
    → stop ≡ at + length (frames rs)
    → next_offset stop (starts at rs) ≡ at
next_offset-starts at stop [] e = omega (arith, e)
next_offset-starts at stop (r ∷ rs) e = refl

pub Spaced-starts :
    (at stop : ℕ) (rs : List Record)
    → stop ≡ at + length (frames rs)
    → All IsEncodable rs
    → Spaced stop (starts at rs)
Spaced-starts at stop [] e v = tt
Spaced-starts at stop (r ∷ rs) e (hr, v) =
    let end : stop ≡ at + wire_len r + length (frames rs) =
      omega (arith, e, length-frames-cons r rs) in
    let next = next_offset-starts (at + wire_len r) stop rs end in
    (
      omega (arith, next, hr.shortest),
      omega (arith, next, hr.longest),
      Spaced-starts (at + wire_len r) stop rs end v,
    )

starts-nil : (at : ℕ) (rs : List Record) → starts at rs ≡ [] → rs ≡ []
starts-nil at [] e = refl
starts-nil at (r ∷ rs) e = cc

-- The last `MIN_RECORD_WIRE_LENGTH` sizes of a block are those that `encode_block` panics on.
abbrev pub IsFinished : BlockWriter → List Record → Type 0
IsFinished w rs = Holds w rs × (rs ≢ []) × (w.size ≤ 2 ^ 16 - 1 - 38)

pub into_block-IsWellFormed :
    (w : BlockWriter) (rs : List Record) → IsFinished w rs → IsWellFormed (into_block w).0
unfolding into_block
into_block-IsWellFormed w rs (h, some_record, fits) =
    let size : length w.buffer ≡ w.size = ap length h.buffer ∙ sym h.size in
    let count : length w.offsets ≡ length rs = ap length h.offsets ∙ length-starts 0 rs in
    record {
      some_record = λ e. some_record (starts-nil 0 rs (sym h.offsets ∙ e));
      spaced =
          rw h.offsets
            (Spaced-starts 0 (length w.buffer) rs (omega (arith, ap length h.buffer)) h.encodable);
      room = omega (arith, size, count, h.room);
      data_room = omega (arith, size, fits);
    }

into_block-HasRecords :
    (w : BlockWriter) (rs : List Record) → Holds w rs → HasRecords (into_block w).0 rs
unfolding into_block
into_block-HasRecords w rs h = record {
  data_bytes = h.buffer;
  offsets = h.offsets;
  encodable = h.encodable;
}

-- The block of a finished writer, with the first and the last key of its records, is encoded without
-- error; decoding the bytes returns a block in which a cursor shows the records in order, and then
-- none.
pub scan-into_block :
    (crc : List ℕ → ℕ)
    → ((bs : List ℕ) → IsU32 (crc bs))
    → (w : BlockWriter) (rs : List Record) → IsFinished w rs
    → ((into_block w).1 ≡ first_key_of rs)
      × ((into_block w).2 ≡ last_key_of rs)
      × (bytes : List ℕ) × (encode_block crc (into_block w).0 ≡ ok bytes)
      × (b : Block) × (decode_block crc bytes ≡ ok b)
      × (scan record_codec (suc (length rs)) (seek_to_first record_codec (new b))
          ≡ map some rs ++ (none ∷ []))
unfolding into_block
scan-into_block crc fits w rs f =
    let (bytes, encoded, layout, size, decoded) =
      decode_block-encode_block crc fits (into_block w).0 (into_block-IsWellFormed w rs f) in
    (
      f.0.first_key,
      f.0.last_key,
      bytes,
      encoded,
      (into_block w).0,
      decoded,
      scan-seek_to_first (into_block w).0 rs (into_block-HasRecords w rs f.0),
    )
