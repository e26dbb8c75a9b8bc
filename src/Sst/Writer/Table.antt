-- ===== src/Sst/Writer/Table.antt =====
-- What a writer holds: the blocks that it has written, and the records that its block writer holds.
use mathlib.Core.Path.{subst}
use logregator.Common.{
  ℕ, ◌+◌, ◌-◌, ◌^◌, ◌≤◌, ◌<◌, ◌≡◌, ◌≢◌, refl, ap, sym, ◌∙◌, Bool, true, false, Option, some, List,
  [], ◌∷◌, ◌++◌, append-nil, length-append, All-append, ok, arith, le→ltb, leb, length, All, IsU32,
}
use logregator.Record.{Key, Record}
use logregator.Block.{Block, max_block_size, num_of_records}
use logregator.Block.Writer
use logregator.Block.Writer.{BlockWriter, InvalidBlockLimit, into_block, or_else, empty}
use logregator.Block.Writer.Holds.{Holds, first_key_of, last_key_of, length-starts}
use logregator.Bloom.{BloomFilter, may_contain}
use logregator.Bloom.Contains
use logregator.Sst.{BlockMetadata}
use logregator.Sst
use logregator.Sst.Writer.{
  started, HashedWriterState, Left, max_sst_size, flush_blocks, replaced, put_block, hashed,
  recorded, with_block_writer,
}
use logregator.Sst.Writer.Placed.{
  Placed, IsPlaced, Listed, all_of, bytes_of, largest, all_of-snoc, bytes_of-snoc, Listed-snoc,
  first_key_of-some, last_key_of-some, last_key_of-append, into_block-IsPlaced,
}

-- Data that is longer makes `encode_block` panic.
abbrev pub largest_data : ℕ
largest_data = 2 ^ 16 - 1 - 38

pub leb-false : (a b : ℕ) → b < a → leb a b ≡ false
leb-false a b h = ground arith

first_key_of-append :
    (xs ys : List Record) (k : Key)
    → first_key_of ys ≡ some k
    → first_key_of (xs ++ ys) ≡ some (or_else (first_key_of xs) k)
first_key_of-append [] ys k e = e
first_key_of-append (x ∷ xs) ys k e = refl

recorded_lem :
    {W : Type 0} (s : HashedWriterState W) (block : Block) (bytes : List ℕ) (x y : Option Key)
    (first last : Key)
    → x ≡ some first
    → y ≡ some last
    → recorded s block bytes x y ≡ recorded s block bytes (some first) (some last)
recorded_lem s block bytes x y first last e d =
    ap (λ k. recorded s block bytes k y) e ∙ ap (recorded s block bytes (some first)) d

-- A new block writer is empty and has the limit.
new_lem : (l : ℕ) → l ≤ max_block_size → (Writer.new (some l) ≡ ok (empty l)) × Holds (empty l) []
unfolding Writer.new
new_lem l h = (
  rw (le→ltb max_block_size l h),
  record {
    buffer = refl;
    offsets = refl;
    size = refl;
    record_count = refl;
    first_key = refl;
    last_key = refl;
    encodable = tt;
    room = omega arith;
  },
)

module _ {W : Type 0} (contents : W → List ℕ) (write_all : W → List ℕ → Bool × W)
    (crc hash_1 hash_2 : List ℕ → ℕ) where
  -- `write_all` always writes everything.
  abbrev pub IsTotal : Type 0
  IsTotal =
      (w : W) (bs : List ℕ)
      → (w' : W) × (write_all w bs ≡ (true, w')) × (contents w' ≡ contents w ++ bs)

  pub record IsTable (s : HashedWriterState W) (placed : List Placed) (current : List Record)
      : Type 0 where
    pub blocks : All (IsPlaced crc) placed
    pub holds : Holds s.state.block_writer current
    pub on_disk : contents s.state.writer ≡ bytes_of placed
    pub integrity_hasher : s.integrity_hasher ≡ bytes_of placed
    pub block_bytes_written : s.state.block_bytes_written ≡ length (bytes_of placed)
    pub block_meta : Listed 0 placed s.state.block_meta
    pub record_count : s.state.record_count ≡ length (all_of placed)
    pub first_key : s.state.first_key ≡ first_key_of (all_of placed)
    pub last_key : s.state.last_key ≡ last_key_of (all_of placed)
    pub limit : s.state.block_writer.limit ≡ s.state.block_limit
    pub small_limit : s.state.block_limit ≤ largest_data
    pub small_block : s.state.block_writer.size ≤ largest_data
    pub bloom : Contains.IsValid s.state.bloom
    pub in_bloom :
        All
          (λ r. may_contain hash_1 hash_2 s.state.bloom r.key.stream_id ≡ ok true)
          (all_of placed ++ current)

  -- A new writer on an empty file holds nothing, if its limit keeps the blocks small.
  pub new-IsTable :
      (w : W) (f : BloomFilter) (l : ℕ)
      → contents w ≡ []
      → Contains.IsValid f
      → l ≤ largest_data
      → (s : HashedWriterState W) × (Sst.Writer.new w f (some l) ≡ ok s) × IsTable s [] []
  unfolding Sst.Writer.new
  new-IsTable w f l e v small =
      let (made, holds) = new_lem l (omega (arith, small)) in
      (
        _,
        ap (started w f) made,
        record {
          blocks = tt;
          holds = holds;
          on_disk = e;
          integrity_hasher = refl;
          block_bytes_written = refl;
          block_meta = tt;
          record_count = refl;
          first_key = refl;
          last_key = refl;
          limit = refl;
          small_limit = small;
          small_block = omega arith;
          bloom = v;
          in_bloom = tt;
        },
      )

  -- There is room for one block more.
  abbrev pub HasRoom : HashedWriterState W → Type 0
  HasRoom s = s.state.block_bytes_written + largest < max_sst_size

  module _ (total : IsTotal) (fits : (bs : List ℕ) → IsU32 (crc bs)) (s : HashedWriterState W)
      (placed : List Placed) (current : List Record) (t : IsTable s placed current)
      (room : HasRoom s) (some_record : current ≢ []) where
    -- The state after the flush.
    next : W → List ℕ → Key → Key → HashedWriterState W
    next w bytes first last =
        (recorded
          (record {
            state = record s.state { block_writer = empty s.state.block_limit; writer = w };
            integrity_hasher = s.integrity_hasher ++ bytes;
          })
          (into_block s.state.block_writer).0 bytes (some first) (some last)).1

    next-IsTable :
        (w : W) (bytes : List ℕ) (first last : Key)
        → contents w ≡ contents s.state.writer ++ bytes
        → first_key_of current ≡ some first
        → last_key_of current ≡ some last
        → IsPlaced crc (record { records = current; bytes = bytes })
        → IsTable
            (next w bytes first last)
            (placed ++ (record { records = current; bytes = bytes } ∷ []))
            []
    unfolding next into_block num_of_records
    next-IsTable w bytes first last written f l p =
        let block : Placed = record { records = current; bytes = bytes } in
        let more = bytes_of-snoc placed block in
        let all = all_of-snoc placed block in
        let fresh = new_lem s.state.block_limit (omega (arith, t.small_limit)) in
        let count : length s.state.block_writer.offsets ≡ length current =
          ap length t.holds.offsets ∙ length-starts 0 current in
        record {
          blocks = All-append (IsPlaced crc) placed (block ∷ []) t.blocks (p, tt);
          holds = fresh.1;
          on_disk = written ∙ ap (λ x. x ++ bytes) t.on_disk ∙ sym more;
          integrity_hasher = ap (λ x. x ++ bytes) t.integrity_hasher ∙ sym more;
          block_bytes_written =
              omega (
                arith,
                t.block_bytes_written,
                ap length more,
                length-append (bytes_of placed) bytes,
              );
          block_meta =
              Listed-snoc 0 placed s.state.block_meta block _ t.block_meta
                (omega (arith, t.block_bytes_written, room)) f l;
          record_count =
              omega (
                arith,
                t.record_count,
                count,
                ap length all,
                length-append (all_of placed) current,
              );
          first_key =
              ap (λ k. some (or_else k first)) t.first_key
              ∙ sym (first_key_of-append (all_of placed) current first f)
              ∙ ap first_key_of (sym all);
          last_key =
              sym l
              ∙ sym (last_key_of-append (all_of placed) current some_record)
              ∙ ap last_key_of (sym all);
          limit = refl;
          small_limit = t.small_limit;
          small_block = omega arith;
          bloom = t.bloom;
          in_bloom =
              subst (All _) (sym all ∙ sym (append-nil (all_of (placed ++ (block ∷ [])))))
                t.in_bloom;
        }

    -- Writing the records of the block writer out.
    pub flush_blocks_lem :
        (s' : HashedWriterState W) × (flush_blocks write_all crc s ≡ (ok tt, s'))
        × (bytes : List ℕ) × IsTable s'
            (placed ++ (record { records = current; bytes = bytes } ∷ []))
            []
        × (s'.state.block_bytes_written ≤ s.state.block_bytes_written + largest)
        × (s'.state.bloom ≡ s.state.bloom)
    unfolding flush_blocks next into_block
    flush_blocks_lem =
        let old = s.state.block_writer in
        let fresh = new_lem s.state.block_limit (omega (arith, t.small_limit)) in
        let (first, f) = first_key_of-some current some_record in
        let (last, l) = last_key_of-some current some_record in
        let (bytes, encoded, p) =
          into_block-IsPlaced crc fits old current (t.holds, some_record, t.small_block) in
        let (w, wrote, written) = total s.state.writer bytes in
        (
          next w bytes first last,
          rw
              (
                leb-false max_sst_size s.state.block_bytes_written (omega (arith, room)),
                le→ltb max_sst_size (s.state.block_bytes_written + old.size)
                    (omega (arith, room, t.small_block)),
                fresh.0,
              )
              (ap
                  (put_block write_all crc (with_block_writer s (empty s.state.block_limit))
                    (into_block old).0 (into_block old).1 (into_block old).2)
                  encoded
                ∙ ap
                    (hashed write_all crc (with_block_writer s (empty s.state.block_limit))
                      (into_block old).0 (into_block old).1 (into_block old).2 bytes)
                    wrote
                ∙ recorded_lem _ _ bytes old.first_key old.last_key first last
                    (t.holds.first_key ∙ f) (t.holds.last_key ∙ l)),
          bytes,
          next-IsTable w bytes first last written f l p,
          omega (arith, p.size),
          refl,
        )
