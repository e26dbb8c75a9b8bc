-- ===== src/Io/Panics.antt =====
-- A flush that panics.
use logregator.Common.{
  ℕ, ◌+◌, ◌≤◌, ◌≡◌, ap, ◌∙◌, length, Bool, true, Option, some, List, [], ◌∷◌, arith, ok, panic,
}
use logregator.Codec.{SpecCodec}
use logregator.Record.{Key, Record, size_of}
use logregator.Record.Order.{◌≺◌}
use logregator.Memtable.{Memtable, append, was_appended, with_size_limit, key_bounds_full, count}
use logregator.Memtable.Set.{range, insert}
use logregator.Memtable.Holding.{holding, append-first, append-smaller}
use logregator.Bloom.{BloomFilter}
use logregator.Sst.Writer.{HashedWriterState}
use logregator.Io.{file_writer, flush_memtable}

two_view :
    (id limit : ℕ) (a b : Record)
    → b.key ≺ a.key
    → size_of a + size_of b ≤ limit
    → ((append (holding id limit (a ∷ [])) b).0.set ≡ b ∷ a ∷ [])
      × ((append (holding id limit (a ∷ [])) b).0.id ≡ id)
unfolding append insert
two_view id limit a b h fits = ground arith

module _ {W : Type 0} (create : ℕ → Option W) (filter : ℕ → BloomFilter)
    (write_all : W → List ℕ → Bool × W) (crc hash_1 hash_2 : List ℕ → ℕ)
    (record_codec : SpecCodec Record) (key_codec : SpecCodec Key) where
  -- When the last appended key lies before the first appended one, and the writer of the table is
  -- there, the flush panics.
  flush_memtable-panics :
      (m : Memtable) (limit : Option ℕ) (first last : Key) (sw : HashedWriterState W)
      → m.first_key ≡ some first
      → m.last_key ≡ some last
      → last ≺ first
      → (r : Record) (rs : List Record) → m.set ≡ r ∷ rs
      → file_writer create filter m.id limit (count m) ≡ ok sw
      → flush_memtable create filter write_all crc hash_1 hash_2 record_codec key_codec m limit
        ≡ panic
  unfolding flush_memtable key_bounds_full range
  flush_memtable-panics m limit first last sw e f h r rs g made = rw (made, e, f, h, g)

  -- Two records, the second with the smaller key, appended to an empty memtable that has room for them,
  -- are both appended, and the flush of the memtable panics, once the writer of its table is made.
  pub flush_memtable-panics_two :
      (id limit : ℕ) (a b : Record) (block_limit : Option ℕ) (sw : HashedWriterState W)
      → b.key ≺ a.key
      → size_of a + size_of b ≤ limit
      → file_writer create filter id block_limit 2 ≡ ok sw
      → (was_appended (append (append (with_size_limit id limit) a).0 b).1 ≡ true)
        × (flush_memtable create filter write_all crc hash_1 hash_2 record_codec key_codec
              (append (append (with_size_limit id limit) a).0 b).0
              block_limit
            ≡ panic)
  unfolding count
  flush_memtable-panics_two id limit a b block_limit sw h fits made =
      let (first, last, appended) = append-smaller id limit a b fits in
      let (set, same) = two_view id limit a b h fits in
      let m = (append (holding id limit (a ∷ [])) b).0 in
      rw (append-first id limit a (omega (arith, fits))) (
        appended,
        flush_memtable-panics m block_limit a.key b.key sw first last h b (a ∷ []) set (
            ap (λ i. file_writer create filter i block_limit (length m.set)) same
            ∙ ap (λ n. file_writer create filter id block_limit n) (ap length set)
            ∙ made),
      )
