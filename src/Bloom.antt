-- ===== src/Bloom.antt =====
-- logregator-tsdb/src/bloom.rs: the filter that tells which streams a table may have.
pub mod Contains
pub mod Codec
mod Tests
use logregator.Common.{
  ℕ, zero, suc, ◌+◌, ◌*◌, ◌/◌, ◌%◌, ◌^◌, Bool, true, false, not, ◌&&◌, Option, none, some, List, [],
  ◌∷◌, Outcome, ok, panic, ◌>>=◌, ltb, ◌==◌, if◌then◌else◌, length, get_elem?, to_be_bytes,
}

pub record BloomFilter : Type 0 where
  pub bitmap : List ℕ
  pub n_bits : ℕ
  pub n_hashes : ℕ

-- `(b >> k) & 1`
abbrev pub bit : ℕ → ℕ → ℕ
bit zero b = b % 2
bit (suc k) b = bit k (b / 2)

-- `b | 1 << k`
abbrev pub or_bit : ℕ → ℕ → ℕ
or_bit zero b = b / 2 * 2 + 1
or_bit (suc k) b = b % 2 + 2 * or_bit k (b / 2)

abbrev pub or_at : ℕ → ℕ → List ℕ → List ℕ
or_at i k [] = []
or_at zero k (b ∷ bs) = or_bit k b ∷ bs
or_at (suc i) k (b ∷ bs) = b ∷ or_at i k bs

-- Nothing here returns an error.
abbrev pub Panics : Type 0 → Type 0
Panics A = Outcome (Unit {0}) A

unfoldable pub set_bit : ℕ → List ℕ → Panics (List ℕ)
set_bit pos bitmap =
    if ltb (pos / 8) (length bitmap) then ok (or_at (pos / 8) (pos % 8) bitmap) else panic

abbrev pub is_set : ℕ → Option ℕ → Panics Bool
is_set k none = panic
is_set k (some b) = ok (bit k b == 1)

unfoldable pub get_bit : ℕ → List ℕ → Panics Bool
get_bit pos bitmap = is_set (pos % 8) (get_elem? bitmap (pos / 8))

-- The loop of `insert`.
unfoldable pub set_all : List ℕ → List ℕ → Panics (List ℕ)
set_all [] bitmap = ok bitmap
set_all (pos ∷ ps) bitmap = do changed ← set_bit pos bitmap; set_all ps changed

-- `all`, which stops at the first bit that is not set.
unfoldable pub all_set : List ℕ → List ℕ → Panics Bool
all_set [] bitmap = ok true
all_set (pos ∷ ps) bitmap =
    let rest = all_set ps bitmap in do b ← get_bit pos bitmap; if b then rest else ok false

-- The two salted hashes of the crate `fnv`, of the bytes of a stream id.
module _ (hash_1 hash_2 : List ℕ → ℕ) where
  abbrev positions_from : ℕ → ℕ → BloomFilter → List ℕ → List ℕ
  positions_from zero i f bytes = []
  positions_from (suc n) i f bytes =
      (hash_1 bytes + i * hash_2 bytes % 2 ^ 64) % 2 ^ 64 % f.n_bits
      ∷ positions_from n (i + 1) f bytes

  -- The remainder panics for a filter of no bits.
  unfoldable pub positions : BloomFilter → ℕ → Panics (List ℕ)
  positions f stream_id =
      if f.n_bits == 0 && not (f.n_hashes == 0)
      then panic
      else ok (positions_from f.n_hashes 0 f (to_be_bytes 8 stream_id))

  unfoldable pub insert : BloomFilter → ℕ → Panics BloomFilter
  insert f stream_id = do
    ps ← positions f stream_id
    bitmap ← set_all ps f.bitmap
    ok (record { bitmap = bitmap; n_bits = f.n_bits; n_hashes = f.n_hashes })

  unfoldable pub may_contain : BloomFilter → ℕ → Panics Bool
  may_contain f stream_id = do ps ← positions f stream_id; all_set ps f.bitmap
