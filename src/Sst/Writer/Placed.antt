-- ===== src/Sst/Writer/Placed.antt =====
-- The blocks that a writer has written, each with its records and its bytes, and their metadata.
use logregator.Common.{
  ℕ, ◌+◌, ◌-◌, ◌^◌, ◌≤◌, ◌≡◌, ◌≢◌, refl, ap, sym, ◌∙◌, some, List, [], ◌∷◌, ◌++◌, append_assoc,
  append-nil, length-append, ok, arith, length, IsU32,
}
use logregator.Record.{Key, Record}
use logregator.Block.{Block}
use logregator.Block.Format.{encode_block, decode_block}
use logregator.Block.RoundTrip.{decode_block-encode_block}
use logregator.Block.Writer.{BlockWriter, into_block}
use logregator.Block.Writer.Holds.{frames, starts, first_key_of, last_key_of, length-starts}
use logregator.Block.Writer.IntoBlock.{IsFinished, into_block-IsWellFormed}
use logregator.Sst.{BlockMetadata}

abbrev pub block_of : List Record → Block
block_of rs = record { data_bytes = frames rs; offsets = starts 0 rs }

pub record Placed : Type 0 where
  pub records : List Record
  pub bytes : List ℕ

abbrev pub all_of : List Placed → List Record
all_of [] = []
all_of (p ∷ ps) = p.records ++ all_of ps

abbrev pub bytes_of : List Placed → List ℕ
bytes_of [] = []
bytes_of (p ∷ ps) = p.bytes ++ bytes_of ps

-- The metadata of the blocks, the first of which starts at `at`.
abbrev pub Listed : ℕ → List Placed → List BlockMetadata → Type 0
Listed at [] [] = Unit
Listed at [] (m ∷ ms) = ⊥
Listed at (p ∷ ps) [] = ⊥
Listed at (p ∷ ps) (m ∷ ms) =
    (m.offset ≡ at)
    × (first_key_of p.records ≡ some m.first_key)
    × (last_key_of p.records ≡ some m.last_key)
    × Listed (at + length p.bytes) ps ms

-- The largest block, with its checksum.
abbrev pub largest : ℕ
largest = 2 ^ 16 - 1 + 4

pub record IsPlaced (crc : List ℕ → ℕ) (p : Placed) : Type 0 where
  pub some_record : p.records ≢ []
  pub size : length p.bytes ≤ largest
  pub encoded : encode_block crc (block_of p.records) ≡ ok p.bytes
  pub decoded : decode_block crc p.bytes ≡ ok (block_of p.records)

pub all_of-snoc : (ps : List Placed) (p : Placed) → all_of (ps ++ (p ∷ [])) ≡ all_of ps ++ p.records
all_of-snoc [] p = append-nil p.records
all_of-snoc (q ∷ ps) p =
    ap (λ t. q.records ++ t) (all_of-snoc ps p) ∙ sym (append_assoc q.records (all_of ps) p.records)

pub bytes_of-snoc :
    (ps : List Placed) (p : Placed) → bytes_of (ps ++ (p ∷ [])) ≡ bytes_of ps ++ p.bytes
bytes_of-snoc [] p = append-nil p.bytes
bytes_of-snoc (q ∷ ps) p =
    ap (λ t. q.bytes ++ t) (bytes_of-snoc ps p) ∙ sym (append_assoc q.bytes (bytes_of ps) p.bytes)

pub Listed-snoc :
    (at : ℕ) (ps : List Placed) (ms : List BlockMetadata) (p : Placed) (m : BlockMetadata)
    → Listed at ps ms
    → m.offset ≡ at + length (bytes_of ps)
    → first_key_of p.records ≡ some m.first_key
    → last_key_of p.records ≡ some m.last_key
    → Listed at (ps ++ (p ∷ [])) (ms ++ (m ∷ []))
Listed-snoc at [] [] p m l o f k = (omega (arith, o), f, k, tt)
Listed-snoc at [] (n ∷ ms) p m l o f k = absurd l
Listed-snoc at (q ∷ ps) [] p m l o f k = absurd l
Listed-snoc at (q ∷ ps) (n ∷ ms) p m (a, b, c, l) o f k = (
  a,
  b,
  c,
  Listed-snoc (at + length q.bytes) ps ms p m l
      (omega (arith, o, length-append q.bytes (bytes_of ps))) f k,
)

pub first_key_of-some : (rs : List Record) → rs ≢ [] → (k : Key) × (first_key_of rs ≡ some k)
first_key_of-some [] h = absurd (h refl)
first_key_of-some (r ∷ rs) h = (r.key, refl)

pub last_key_of-some : (rs : List Record) → rs ≢ [] → (k : Key) × (last_key_of rs ≡ some k)
last_key_of-some [] h = absurd (h refl)
last_key_of-some (r ∷ []) h = (r.key, refl)
last_key_of-some (r ∷ s ∷ rs) h = last_key_of-some (s ∷ rs) (λ e. cc e)

pub last_key_of-append : (xs ys : List Record) → ys ≢ [] → last_key_of (xs ++ ys) ≡ last_key_of ys
last_key_of-append [] ys h = refl
last_key_of-append (x ∷ []) [] h = absurd (h refl)
last_key_of-append (x ∷ []) (y ∷ ys) h = refl
last_key_of-append (x ∷ z ∷ xs) ys h = last_key_of-append (z ∷ xs) ys h

-- The block of a finished writer, placed.
pub into_block-IsPlaced :
    (crc : List ℕ → ℕ)
    → ((bs : List ℕ) → IsU32 (crc bs))
    → (w : BlockWriter) (rs : List Record) → IsFinished w rs
    → (bytes : List ℕ) × (encode_block crc (into_block w).0 ≡ ok bytes)
      × IsPlaced crc (record { records = rs; bytes = bytes })
unfolding into_block
into_block-IsPlaced crc fits w rs f =
    let h = f.0 in
    let same : (into_block w).0 ≡ block_of rs =
      ap (λ t. record { data_bytes = t; offsets = w.offsets }) h.buffer
      ∙ ap (λ t. record { data_bytes = frames rs; offsets = t }) h.offsets in
    let (bytes, encoded, layout, size, decoded) =
      decode_block-encode_block crc fits (into_block w).0 (into_block-IsWellFormed w rs f) in
    let count : length w.offsets ≡ length rs = ap length h.offsets ∙ length-starts 0 rs in
    let data_size : length w.buffer ≡ w.size = ap length h.buffer ∙ sym h.size in
    (
      bytes,
      encoded,
      record {
        some_record = f.1;
        size = omega (arith, size, count, data_size, h.room);
        encoded = ap (encode_block crc) (sym same) ∙ encoded;
        decoded = decoded ∙ ap ok same;
      },
    )
