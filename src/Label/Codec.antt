-- ===== src/Label/Codec.antt =====
-- `LabelMapCodec`: the wire format of label maps, parsed with the combinators of the crate `nom`.
pub mod Utf8
pub mod RoundTrip
pub mod Errors
use logregator.Common.{
  ℕ, zero, suc, ◌+◌, ◌*◌, ◌-◌, ◌%◌, ◌^◌, ◌≤◌, ◌<◌, ◌≡◌, Bool, true, false, not, ◌&&◌, Option, some,
  List, [], ◌∷◌, ◌++◌, Outcome, ok, err, map_err, leb, ltb, length, take, drop, compare, Ordering,
  to_be_bytes, if◌then◌else◌,
}
use logregator.Common
use logregator.Codec.{CodecError, other, not_enough_bytes, Encoder, Decoder, SpecCodec}
use logregator.Codec.Buffer.{◌>>=◌, ◌>>◌, return, len, fail_if, copy}
use logregator.Label.{Str, Label, LabelMap}
use logregator.Label.Codec.Utf8.{is_utf8}

abbrev pub min_str_size : ℕ
min_str_size = 1

abbrev pub max_str_size : ℕ
max_str_size = 255

abbrev pub max_label_count : ℕ
max_label_count = 255

-- What a parser of `nom` returns, its errors forgotten: the input that is left, and the value.
abbrev pub IResult : Type 0 → Type 0
IResult A = Outcome (Unit {0}) (List ℕ × A)

-- `nom::number::complete::be_u8` and `nom::bytes::complete::take`, as documented: they fail unless
-- there are enough bytes, and leave the bytes behind those that they take.
pub record Nom : Type 0 where
  pub be_u8 : List ℕ → IResult ℕ
  pub take : ℕ → List ℕ → IResult (List ℕ)
  pub be_u8-cons : (b : ℕ) (bs : List ℕ) → be_u8 (b ∷ bs) ≡ ok (bs, b)
  pub take-append : (xs rest : List ℕ) → take (length xs) (xs ++ rest) ≡ ok (rest, xs)

-- The derived `Ord` of `str`: lexicographic in the bytes.
abbrev pub compare_str : Str → Str → Ordering
compare_str [] [] = Ordering.eq
compare_str [] (y ∷ ys) = Ordering.lt
compare_str (x ∷ xs) [] = Ordering.gt
compare_str (x ∷ xs) (y ∷ ys) = elim (compare x y) [
  | Ordering.eq ↦ compare_str xs ys
  | Ordering.lt ↦ Ordering.lt
  | Ordering.gt ↦ Ordering.gt
]

abbrev insert_at : Ordering → Label → Label → List Label → List Label → List Label
insert_at Ordering.lt new old m rest = new ∷ old ∷ m
insert_at Ordering.eq (k, v) (k', v') m rest = (k', v) ∷ m
insert_at Ordering.gt new old m rest = old ∷ rest

-- `BTreeMap::insert`
unfoldable pub insert : Str → Str → List Label → List Label
insert k v [] = (k, v) ∷ []
insert k v ((k', v') ∷ m) = insert_at (compare_str k k') (k, v) (k', v') m (insert k v m)

unfoldable pub labels_wire_len : List Label → ℕ
labels_wire_len [] = 0
labels_wire_len ((k, v) ∷ m) = 2 + (length k + length v) + labels_wire_len m

-- `wire_len` of `WireLen for LabelMap`
unfoldable pub wire_len : LabelMap → ℕ
wire_len m = 1 + labels_wire_len m.inner

-- `(MIN_STR_SIZE..MAX_STR_SIZE).contains(&n)`
abbrev pub valid_str_size : ℕ → Bool
valid_str_size n = leb min_str_size n && ltb n max_str_size

unfoldable pub check_labels : List Label → Encoder (Unit {0})
check_labels [] = return tt
check_labels ((k, v) ∷ m) = do
  fail_if (not (valid_str_size (length k))) other
  fail_if (not (valid_str_size (length v))) other
  check_labels m

unfoldable pub encode_labels : ℕ → List Label → Encoder ℕ
encode_labels start [] = return start
encode_labels start ((k, v) ∷ m) = do
  copy start (start + 1) (to_be_bytes 1 (length k % 2 ^ 8))
  copy (start + 1) (start + 1 + length k) k
  copy (start + 1 + length k) (start + 1 + length k + 1) (to_be_bytes 1 (length v % 2 ^ 8))
  copy (start + 1 + length k + 1) (start + 1 + length k + 1 + length v) v
  encode_labels (start + 1 + length k + 1 + length v) m

unfoldable pub encode_label_map : LabelMap → Encoder ℕ
encode_label_map item = do
  fail_if (ltb max_label_count (length item.inner)) other
  check_labels item.inner
  n ← len
  fail_if (ltb n (wire_len item)) (not_enough_bytes n (wire_len item))
  copy 0 1 (to_be_bytes 1 (length item.inner % 2 ^ 8))
  encode_labels 1 item.inner

-- `hash` is the fingerprint that the `DefaultHasher` of `LabelMap::new` computes.
module _ (nom : Nom) (hash : List Label → ℕ) where
  unfoldable pub take_lp_str : List ℕ → IResult Str
  take_lp_str src = Common.◌>>=◌ (nom.be_u8 src) λ (input, n).
      Common.◌>>=◌ (nom.take n input)
        λ (rest, str_bs). if is_utf8 str_bs then ok (rest, str_bs) else err tt

  unfoldable pub parse_labels : ℕ → List ℕ → List Label → IResult (List Label)
  parse_labels zero remainder map = ok (remainder, map)
  parse_labels (suc n) remainder map = Common.◌>>=◌ (take_lp_str remainder) λ (after_key, k).
      Common.◌>>=◌ (take_lp_str after_key)
        λ (after_value, v). parse_labels n after_value (insert k v map)

  -- `LabelMap::new`
  abbrev pub new_label_map : List Label → LabelMap
  new_label_map map = record { inner = map; fingerprint = hash map }

  unfoldable pub parse_label_map : List ℕ → IResult LabelMap
  parse_label_map src = Common.◌>>=◌ (nom.be_u8 src) λ (input, label_count).
      Common.◌>>=◌ (parse_labels label_count input [])
        λ (remainder, map). ok (remainder, new_label_map map)

  unfoldable pub decode_label_map : Decoder LabelMap
  decode_label_map src =
      Common.◌>>=◌ (map_err (λ e. other) (parse_label_map src))
        λ (remaining, map). ok (some (map, length src - length remaining))

  abbrev pub label_map_codec : SpecCodec LabelMap
  label_map_codec = record {
    wire_len = wire_len;
    encode = encode_label_map;
    decode = decode_label_map;
  }
