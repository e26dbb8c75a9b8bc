-- ===== src/Label/Tests.antt =====
-- The theorems on label maps and on the registry at concrete inputs.
use logregator.Common.{
  ℕ, ◌==◌, ◌≡◌, refl, false, ◌&&◌, ◌||◌, some, List, [], ◌∷◌, ◌++◌, ok, err, arith, length, take,
  drop, replicate, leb, le→leb, length-append, take-append, drop-append, if◌then◌else◌, get, put,
  contains, add,
}
use logregator.Label.{Label, LabelMap, same_label, same_labelmap}
use logregator.Label.Registry.{
  default, insert, from, get_stream_id_by_labelmap, get_labelmap_by_stream, get_streams_by_kv,
  from_label, from_labels, label_intersection, add_stream, index_labels, retain, insert_by_len,
}
use logregator.Label.Registry.Insert.{insert_lem, listed_in, insert_all, from-insert_all}
use logregator.Label.Registry.Intersection.{any_known, misses_none, contains-label_intersection}
use logregator.Label.Codec.{
  IResult, Nom, wire_len, labels_wire_len, encode_label_map, decode_label_map,
}
use logregator.Label.Codec.Utf8.{is_utf8}
use logregator.Label.Codec.RoundTrip.{IsEncodable, decode_label_map-encode_label_map}
use logregator.Label.Codec.Errors.{valid_labels}

abbrev toy_be_u8 : List ℕ → IResult ℕ
toy_be_u8 [] = err tt
toy_be_u8 (b ∷ bs) = ok (bs, b)

abbrev toy_take : ℕ → List ℕ → IResult (List ℕ)
toy_take n xs = if leb n (length xs) then ok (drop n xs, take n xs) else err tt

pub toy_take-append : (xs rest : List ℕ) → toy_take (length xs) (xs ++ rest) ≡ ok (rest, xs)
toy_take-append xs rest = rw (
  le→leb (length xs) (length (xs ++ rest)) (omega (arith, length-append xs rest)),
  drop-append xs rest (length xs) refl,
  take-append xs rest (length xs) refl,
)

abbrev pub toy_nom : Nom
toy_nom = record {
  be_u8 = toy_be_u8;
  take = toy_take;
  be_u8-cons = λ b bs. refl;
  take-append = toy_take-append;
}

abbrev pub toy_hash : List Label → ℕ
toy_hash m = length m

-- app=web and env=ci
abbrev pub app_web : Label
app_web = (97 ∷ 112 ∷ 112 ∷ [], 119 ∷ 101 ∷ 98 ∷ [])

abbrev env_ci : Label
env_ci = (101 ∷ 110 ∷ 118 ∷ [], 99 ∷ 105 ∷ [])

abbrev pub both : LabelMap
both = record { inner = app_web ∷ env_ci ∷ []; fingerprint = 2 }

abbrev only_app : LabelMap
only_app = record { inner = app_web ∷ []; fingerprint = 1 }

pub both-IsEncodable : IsEncodable toy_hash both
unfolding is_utf8
both-IsEncodable = record {
  strs = (
    (
      record { some_byte = omega arith; short = omega arith; utf8 = refl },
      record { some_byte = omega arith; short = omega arith; utf8 = refl },
    ),
    (
      (
        record { some_byte = omega arith; short = omega arith; utf8 = refl },
        record { some_byte = omega arith; short = omega arith; utf8 = refl },
      ),
      tt,
    ),
  );
  count = omega arith;
  sorted = ((refl, tt), (tt, tt));
  fingerprint = refl;
}

decode_label_map-encode_label_map_example :
    ((encode_label_map both (replicate 20 7)).0 ≡ ok (wire_len both))
    × (decode_label_map toy_nom toy_hash ((encode_label_map both (replicate 20 7)).1 ++ (9 ∷ []))
        ≡ ok (some (both, wire_len both)))
decode_label_map-encode_label_map_example =
    decode_label_map-encode_label_map toy_nom toy_hash both (replicate 20 7) (9 ∷ [])
      both-IsEncodable (unfold wire_len labels_wire_len in omega arith)

-- A value of 255 bytes.
abbrev long_value : LabelMap
long_value = record { inner = (97 ∷ [], replicate 255 98) ∷ []; fingerprint = 1 }

long_value_refused : valid_labels long_value.inner ≡ false
long_value_refused = refl

abbrev streams : List (ℕ × LabelMap)
streams = (5, both) ∷ (8, only_app) ∷ []

insert_lem_example :
    ((id : ℕ)
      → get_labelmap_by_stream (insert default 5 both) id
        ≡ (if id == 5 then some both else get_labelmap_by_stream default id))
    × ((m : LabelMap)
        → get_stream_id_by_labelmap (insert default 5 both) m
          ≡ (if same_labelmap m both then some 5 else get_stream_id_by_labelmap default m))
    × ((l : Label) (id : ℕ)
        → listed_in (get_streams_by_kv (insert default 5 both) l) id ≡ (
            listed_in (get_streams_by_kv default l) id
            || (contains same_label l both.inner && (id == 5))))
insert_lem_example = insert_lem default 5 both

from-insert_all_example : from streams ≡ insert_all default streams
from-insert_all_example = from-insert_all streams (unfold get in (refl, (refl, tt)))

contains-label_intersection_example :
    contains ◌==◌ 8 (label_intersection (from streams) (app_web ∷ env_ci ∷ [])) ≡ (
      any_known (from streams) (app_web ∷ env_ci ∷ [])
      && misses_none (from streams) 8 (app_web ∷ env_ci ∷ []))
contains-label_intersection_example =
    contains-label_intersection (from streams) (app_web ∷ env_ci ∷ []) 8

intersect_streams : label_intersection (from streams) (app_web ∷ env_ci ∷ []) ≡ 5 ∷ []
unfolding label_intersection from from_labels from_label index_labels add_stream get put add
    contains same_labelmap retain insert_by_len
intersect_streams = refl

-- A label that no stream has is passed over.
intersect_unknown : label_intersection (from streams) (env_ci ∷ ([], []) ∷ []) ≡ 5 ∷ []
unfolding label_intersection from from_labels from_label index_labels add_stream get put add
    contains same_labelmap retain insert_by_len
intersect_unknown = refl
