-- ===== src/Bloom/Codec.antt =====
-- `BloomFilterCodec::encode` (logregator-tsdb/src/bloom.rs).
use logregator.Common.{
  ℕ, ◌+◌, ◌-◌, ◌%◌, ◌^◌, ◌<◌, ◌≡◌, ◌∙◌, arith, ltb, leb, ne→==, Bool-cases, inl, inr, ltb→le, List,
  err, panic, length, to_be_bytes, length-to_be_bytes, ◌&&◌, false, if◌then◌else◌, Bool,
}
use logregator.Codec.{not_enough_bytes, invalid_payload_size, Encoder}
use logregator.Codec.Buffer.{◌>>=◌, ◌>>◌, return, len, fail_if, copy, refuse, pass, after_len}
use logregator.Bloom.{BloomFilter}

abbrev pub wire_len : BloomFilter → ℕ
wire_len f = 8 + 8 + 4 + length f.bitmap

abbrev max_bitmap_size : ℕ
max_bitmap_size = 2 ^ 32 - 1

-- Every `copy_from_slice` is onto the whole of `dst`.
unfoldable pub encode : BloomFilter → Encoder ℕ
encode f = do
  n ← len
  fail_if (ltb n (wire_len f)) (not_enough_bytes n (wire_len f))
  copy 0 n (to_be_bytes 8 f.n_bits)
  copy 0 n (to_be_bytes 8 f.n_hashes)
  fail_if (ltb max_bitmap_size (length f.bitmap))
      (invalid_payload_size (length f.bitmap) max_bitmap_size 0)
  copy 0 n (to_be_bytes 4 (length f.bitmap % 2 ^ 32))
  copy 0 n f.bitmap
  return (wire_len f)

and_false : (a b : Bool) → (a && b && false) ≡ false
and_false a b = ground arith

-- A copy of a slice of another length panics.
copy-panic :
    {B : Type 0} (src dst : List ℕ) (k : Unit {0} → Encoder B)
    → length src < length dst
    → (copy 0 (length dst) src >>= k) dst ≡ (panic, dst)
unfolding copy ◌>>=◌
copy-panic src dst k h = rw (
  ne→== (length src) (length dst - 0) (λ e. omega (arith, e, h)),
  and_false (leb 0 (length dst)) (leb (length dst) (length dst)),
)

-- The encoder of a filter never succeeds: a destination that is shorter than the filter's wire length
-- is refused and left as it is, and every other makes it panic.
pub encode_lem :
    (f : BloomFilter) (dst : List ℕ)
    → encode f dst ≡ (
        if ltb (length dst) (wire_len f)
        then (err (not_enough_bytes (length dst) (wire_len f)), dst)
        else (panic, dst))
unfolding encode
encode_lem f dst = elim (Bool-cases (ltb (length dst) (wire_len f))) [
  | inl short ↦ after_len _ (refuse _ _ _ short) ∙ rw short
  | inr fits ↦
      after_len _ (
        pass _ _ _ fits (
          copy-panic (to_be_bytes 8 f.n_bits) dst _
            (omega (arith, length-to_be_bytes 8 f.n_bits, ltb→le (length dst) (wire_len f) fits))))
      ∙ rw fits
]
