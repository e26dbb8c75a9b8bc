-- ===== src/Bloom/Contains.antt =====
-- `BloomFilter::insert` and `may_contain` together.
use logregator.Common.{
  ℕ, zero, suc, ◌+◌, ◌*◌, ◌/◌, ◌%◌, ◌^◌, ◌≤◌, ◌<◌, ◌≡◌, ◌≢◌, refl, ap, ◌∙◌, Bool, true, false, List,
  [], ◌∷◌, some, ok, err, ◌>>=◌, panic, lt→ltb, ne→==, eq→==, if◌then◌else◌, arith, length,
  get_elem?, All, to_be_bytes,
}
use native.Mathlib.Nat.{mod-lt}
use logregator.Bloom.{
  BloomFilter, Panics, bit, or_bit, or_at, set_bit, is_set, get_bit, set_all, all_set,
  positions_from, positions, insert, may_contain,
}

bit-or_bit_same : (k b : ℕ) → bit k (or_bit k b) ≡ 1
bit-or_bit_same zero b = omega arith
bit-or_bit_same (suc k) b =
    ap (bit k) {x = (b % 2 + 2 * or_bit k (b / 2)) / 2} {y = or_bit k (b / 2)} (omega arith)
    ∙ bit-or_bit_same k (b / 2)

bit-or_bit : (j k b : ℕ) → bit j b ≡ 1 → bit j (or_bit k b) ≡ 1
bit-or_bit zero zero b h = omega arith
bit-or_bit zero (suc k) b h = omega arith
bit-or_bit (suc j) zero b h = ap (bit j) {x = (b / 2 * 2 + 1) / 2} {y = b / 2} (omega arith) ∙ h
bit-or_bit (suc j) (suc k) b h =
    ap (bit j) {x = (b % 2 + 2 * or_bit k (b / 2)) / 2} {y = or_bit k (b / 2)} (omega arith)
    ∙ bit-or_bit j k (b / 2) h

-- What a byte of the bitmap says of a bit.
abbrev Has : ℕ → ℕ → List ℕ → Type 0
Has i j bitmap = is_set j (get_elem? bitmap i) ≡ ok true

is_set-some : (j b : ℕ) → bit j b ≡ 1 → is_set j (some b) ≡ ok true
is_set-some j b h = rw (eq→== (bit j b) 1 h)

bit_of_is_set : (j b : ℕ) → is_set j (some b) ≡ ok true → bit j b ≡ 1
bit_of_is_set j b h = ground arith

or_at-Has : (i k : ℕ) (bitmap : List ℕ) → i < length bitmap → Has i k (or_at i k bitmap)
or_at-Has i k [] h = absurd (omega arith)
or_at-Has zero k (b ∷ bs) h = is_set-some k (or_bit k b) (bit-or_bit_same k b)
or_at-Has (suc i) k (b ∷ bs) h = or_at-Has i k bs (omega arith)

or_at-keeps : (i k n j : ℕ) (bitmap : List ℕ) → Has n j bitmap → Has n j (or_at i k bitmap)
or_at-keeps i k n j [] h = h
or_at-keeps zero k zero j (b ∷ bs) h =
    is_set-some j (or_bit k b) (bit-or_bit j k b (bit_of_is_set j b h))
or_at-keeps zero k (suc n) j (b ∷ bs) h = h
or_at-keeps (suc i) k zero j (b ∷ bs) h = h
or_at-keeps (suc i) k (suc n) j (b ∷ bs) h = or_at-keeps i k n j bs h

length-or_at : (i k : ℕ) (bitmap : List ℕ) → length (or_at i k bitmap) ≡ length bitmap
length-or_at i k [] = refl
length-or_at zero k (b ∷ bs) = refl
length-or_at (suc i) k (b ∷ bs) = ap suc (length-or_at i k bs)

-- Every bit that is set stays set.
record Extends (old new : List ℕ) : Type 0 where
  same_length : length new ≡ length old
  keeps : (pos : ℕ) → get_bit pos old ≡ ok true → get_bit pos new ≡ ok true

set_all-Extends :
    (ps bitmap : List ℕ)
    → All (λ pos. pos < 8 * length bitmap) ps
    → (new : List ℕ) × (set_all ps bitmap ≡ ok new)
      × Extends bitmap new
      × All (λ pos. get_bit pos new ≡ ok true) ps
unfolding set_all set_bit get_bit
set_all-Extends [] bitmap h = (bitmap, refl, record { same_length = refl; keeps = λ pos e. e }, tt)
set_all-Extends (pos ∷ ps) bitmap (hp, h) =
    let mid = or_at (pos / 8) (pos % 8) bitmap in
    let len = length-or_at (pos / 8) (pos % 8) bitmap in
    let (new, e, x, all) = set_all-Extends ps mid (rw len h) in
    (
      new,
      rw (lt→ltb (pos / 8) (length bitmap) (omega arith)) e,
      record {
        same_length = x.same_length ∙ len;
        keeps = λ q e. x.keeps q (or_at-keeps (pos / 8) (pos % 8) (q / 8) (q % 8) bitmap e);
      },
      (x.keeps pos (or_at-Has (pos / 8) (pos % 8) bitmap (omega arith)), all),
    )

all_set-All :
    (ps bitmap : List ℕ)
    → All (λ pos. get_bit pos bitmap ≡ ok true) ps
    → all_set ps bitmap ≡ ok true
unfolding all_set
all_set-All [] bitmap h = refl
all_set-All (pos ∷ ps) bitmap (hp, h) = rw (hp, all_set-All ps bitmap h)

All-weaken :
    (old new : List ℕ)
    → ((pos : ℕ) → get_bit pos old ≡ ok true → get_bit pos new ≡ ok true)
    → (ps : List ℕ) → All (λ pos. get_bit pos old ≡ ok true) ps
    → All (λ pos. get_bit pos new ≡ ok true) ps
All-weaken old new k [] h = tt
All-weaken old new k (pos ∷ ps) (hp, h) = (k pos hp, All-weaken old new k ps h)

all_of_all_set :
    (ps bitmap : List ℕ)
    → all_set ps bitmap ≡ ok true
    → All (λ pos. get_bit pos bitmap ≡ ok true) ps
unfolding all_set
all_of_all_set [] bitmap e = tt
all_of_all_set (pos ∷ ps) bitmap e =
    let (h, t) = first_then (get_bit pos bitmap) (all_set ps bitmap) e in
    (h, all_of_all_set ps bitmap t)
  where
    first_then :
        (m rest : Panics Bool)
        → (m >>= λ b. if b then rest else ok false) ≡ ok true
        → (m ≡ ok true) × (rest ≡ ok true)
    first_then (ok true) rest e = (refl, e)
    first_then (ok false) rest e = cc e
    first_then (err x) rest e = cc e
    first_then panic rest e = cc e

-- There is a bit, and the bitmap has all of them.
pub record IsValid (f : BloomFilter) : Type 0 where
  pub some_bit : f.n_bits ≢ 0
  pub whole : f.n_bits ≤ 8 * length f.bitmap

module _ (hash_1 hash_2 : List ℕ → ℕ) where
  positions_from-All :
      (n i : ℕ) (f : BloomFilter) (bytes : List ℕ)
      → IsValid f
      → All (λ pos. pos < 8 * length f.bitmap) (positions_from hash_1 hash_2 n i f bytes)
  positions_from-All zero i f bytes v = tt
  positions_from-All (suc n) i f bytes v = (
    below ((hash_1 bytes + i * hash_2 bytes % 2 ^ 64) % 2 ^ 64) f.n_bits v.some_bit v.whole,
    positions_from-All n (i + 1) f bytes v,
  )
    where
      below : (x m : ℕ) {top : ℕ} → m ≢ 0 → m ≤ top → x % m < top
      below x m h l = let pos : zero < m = ground arith in omega (arith, mod-lt x pos, l)

  positions_from-same :
      (n i : ℕ) (f g : BloomFilter) (bytes : List ℕ)
      → f.n_bits ≡ g.n_bits
      → positions_from hash_1 hash_2 n i f bytes ≡ positions_from hash_1 hash_2 n i g bytes
  positions_from-same zero i f g bytes e = refl
  positions_from-same (suc n) i f g bytes e =
      ap
        (λ t.
          (hash_1 bytes + i * hash_2 bytes % 2 ^ 64) % 2 ^ 64 % t
          ∷ positions_from hash_1 hash_2 n (i + 1) f bytes)
        e
      ∙ ap (λ t. (hash_1 bytes + i * hash_2 bytes % 2 ^ 64) % 2 ^ 64 % g.n_bits ∷ t)
          (positions_from-same n (i + 1) f g bytes e)

  -- `insert` into a filter that has a bit and the whole bitmap does not panic and keeps it so;
  -- afterwards the filter may contain the stream, and every stream that it might contain before.
  pub may_contain-insert :
      (f : BloomFilter) (stream_id : ℕ)
      → IsValid f
      → (g : BloomFilter) × (insert hash_1 hash_2 f stream_id ≡ ok g)
        × IsValid g
        × (may_contain hash_1 hash_2 g stream_id ≡ ok true)
        × ((x : ℕ)
            → may_contain hash_1 hash_2 f x ≡ ok true
            → may_contain hash_1 hash_2 g x ≡ ok true)
  unfolding insert may_contain positions
  may_contain-insert f stream_id v =
      let ps = positions_from hash_1 hash_2 f.n_hashes 0 f (to_be_bytes 8 stream_id) in
      let bits = ne→== f.n_bits 0 v.some_bit in
      let (new, e, x, all) =
        set_all-Extends ps f.bitmap
          (positions_from-All f.n_hashes 0 f (to_be_bytes 8 stream_id) v) in
      let g : BloomFilter = record { bitmap = new; n_bits = f.n_bits; n_hashes = f.n_hashes } in
      (
        g,
        rw (bits, e),
        record { some_bit = v.some_bit; whole = omega (arith, x.same_length, v.whole) },
        rw (bits, positions_from-same f.n_hashes 0 g f (to_be_bytes 8 stream_id) refl)
            (all_set-All ps new all),
        (λ y h.
            rw (bits, positions_from-same f.n_hashes 0 g f (to_be_bytes 8 y) refl)
              (all_set-All _ new
                (All-weaken f.bitmap new x.keeps _ (all_of_all_set _ f.bitmap (rw bits at h))))),
      )
