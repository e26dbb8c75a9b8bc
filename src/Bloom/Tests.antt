-- ===== src/Bloom/Tests.antt =====
-- A filter of 16 bits and 3 hashes.
use logregator.Common.{ℕ, ◌+◌, ◌*◌, ◌≡◌, List, [], ◌∷◌, ok, err, true, arith}
use logregator.Bloom.{BloomFilter, insert, may_contain}
use logregator.Codec.{not_enough_bytes}
use logregator.Bloom.Codec.{encode, encode_lem}
use logregator.Bloom.Contains.{IsValid, may_contain-insert}

abbrev add_up : List ℕ → ℕ
add_up [] = 7
add_up (x ∷ xs) = x + 3 * add_up xs

abbrev weigh : List ℕ → ℕ
weigh [] = 5
weigh (x ∷ xs) = 2 * x + weigh xs

abbrev small : BloomFilter
small = record { bitmap = 0 ∷ 0 ∷ []; n_bits = 16; n_hashes = 3 }

small-IsValid : IsValid small
small-IsValid = record { some_bit = λ e. omega (arith, e); whole = omega arith }

may_contain-insert_example :
    (g : BloomFilter) × (insert add_up weigh small 42 ≡ ok g)
    × IsValid g
    × (may_contain add_up weigh g 42 ≡ ok true)
    × ((x : ℕ)
        → may_contain add_up weigh small x ≡ ok true
        → may_contain add_up weigh g x ≡ ok true)
may_contain-insert_example = may_contain-insert add_up weigh small 42 small-IsValid

encode_lem_example : encode small (0 ∷ 0 ∷ 0 ∷ []) ≡ (err (not_enough_bytes 3 22), 0 ∷ 0 ∷ 0 ∷ [])
encode_lem_example = encode_lem small (0 ∷ 0 ∷ 0 ∷ [])
