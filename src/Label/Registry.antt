-- ===== src/Label/Registry.antt =====
-- `StreamRegistry`: a stream's labels, the stream of a label map, and the streams of a label.
pub mod Insert
pub mod Intersection
use logregator.Common.{
  ℕ, ◌==◌, Bool, true, false, List, [], ◌∷◌, Option, none, some, get, put, contains, add, ltb,
  if◌then◌else◌, length,
}
use logregator.Label.{Label, LabelMap, same_label, same_labelmap}

abbrev pub KvIndex : Type 0
KvIndex = List (Label × List ℕ)

pub record StreamRegistry : Type 0 where
  pub labelmap_by_stream : List (ℕ × LabelMap)
  pub stream_by_labelmap : List (LabelMap × ℕ)
  pub kv_index : KvIndex

abbrev pub default : StreamRegistry
default = record { labelmap_by_stream = []; stream_by_labelmap = []; kv_index = [] }

-- The set of a label's streams, a new one if there is none.
abbrev pub with_stream : ℕ → Option (List ℕ) → List ℕ
with_stream stream_id none = stream_id ∷ []
with_stream stream_id (some stream_ids) = add ◌==◌ stream_id stream_ids

-- One step of the loops over a label map.
unfoldable pub add_stream : ℕ → Label → KvIndex → KvIndex
add_stream stream_id label kv =
    put same_label label (with_stream stream_id (get same_label label kv)) kv

unfoldable pub index_labels : ℕ → List Label → KvIndex → KvIndex
index_labels stream_id [] kv = kv
index_labels stream_id (label ∷ labels) kv =
    index_labels stream_id labels (add_stream stream_id label kv)

unfoldable pub insert : StreamRegistry → ℕ → LabelMap → StreamRegistry
insert r stream_id labelmap = record {
  labelmap_by_stream = put ◌==◌ stream_id labelmap r.labelmap_by_stream;
  stream_by_labelmap = put same_labelmap labelmap stream_id r.stream_by_labelmap;
  kv_index = index_labels stream_id labelmap.inner r.kv_index;
}

-- One step of the inner loop of `From<HashMap<u64, Arc<LabelMap>>>`: the set that is found is changed,
-- or a new one is inserted under the label.
abbrev pub change_or_new : ℕ → Label → KvIndex → Option (List ℕ) → KvIndex
change_or_new stream_id label kv (some stream_ids) =
    put same_label label (add ◌==◌ stream_id stream_ids) kv
change_or_new stream_id label kv none = put same_label label (add ◌==◌ stream_id []) kv

unfoldable pub from_label : ℕ → Label → KvIndex → KvIndex
from_label stream_id label kv = change_or_new stream_id label kv (get same_label label kv)

-- The inner loop, over `labelmap.iter()`.
unfoldable pub from_labels : ℕ → List Label → KvIndex → KvIndex
from_labels stream_id [] kv = kv
from_labels stream_id (label ∷ labels) kv =
    from_labels stream_id labels (from_label stream_id label kv)

-- The outer loop, over the entries in the order of the iterator.
abbrev pub from_entries : List (ℕ × LabelMap) → StreamRegistry → StreamRegistry
from_entries [] r = r
from_entries ((stream_id, labelmap) ∷ es) r = from_entries es (record {
  labelmap_by_stream = r.labelmap_by_stream;
  stream_by_labelmap = put same_labelmap labelmap stream_id r.stream_by_labelmap;
  kv_index = from_labels stream_id labelmap.inner r.kv_index;
})

unfoldable pub from : List (ℕ × LabelMap) → StreamRegistry
from entries =
    from_entries entries
      (record { labelmap_by_stream = entries; stream_by_labelmap = []; kv_index = [] })

unfoldable pub get_stream_id_by_labelmap : StreamRegistry → LabelMap → Option ℕ
get_stream_id_by_labelmap r labelmap = get same_labelmap labelmap r.stream_by_labelmap

-- `get_labelmap_by_stream_ref` and `get_labelmap_by_stream_cloned`
unfoldable pub get_labelmap_by_stream : StreamRegistry → ℕ → Option LabelMap
get_labelmap_by_stream r stream_id = get ◌==◌ stream_id r.labelmap_by_stream

unfoldable pub get_streams_by_kv : StreamRegistry → Label → Option (List ℕ)
get_streams_by_kv r kv = get same_label kv r.kv_index

-- The sets of the labels that the index has.
abbrev pub known_sets : StreamRegistry → List Label → List (List ℕ)
known_sets r [] = []
known_sets r (label ∷ labels) = elim (get same_label label r.kv_index) [
  | some ids ↦ ids ∷ known_sets r labels
  | none ↦ known_sets r labels
]

-- `sort_unstable_by_key(|s| s.len())`
unfoldable pub insert_by_len : List ℕ → List (List ℕ) → List (List ℕ)
insert_by_len s [] = s ∷ []
insert_by_len s (t ∷ ts) =
    let rest = insert_by_len s ts in if ltb (length t) (length s) then t ∷ rest else s ∷ t ∷ ts

abbrev pub sort_by_len : List (List ℕ) → List (List ℕ)
sort_by_len [] = []
sort_by_len (s ∷ ss) = insert_by_len s (sort_by_len ss)

-- `acc.retain(|id| s.contains(id))`
unfoldable pub retain : List ℕ → List ℕ → List ℕ
retain s [] = []
retain s (id ∷ ids) = let rest = retain s ids in if contains ◌==◌ id s then id ∷ rest else rest

abbrev pub is_empty : List ℕ → Bool
is_empty [] = true
is_empty (id ∷ ids) = false

-- The loop that stops once `acc` is empty.
abbrev pub intersect_all : List ℕ → List (List ℕ) → List ℕ
intersect_all acc [] = acc
intersect_all acc (s ∷ ss) =
    let rest = intersect_all (retain s acc) ss in if is_empty (retain s acc) then [] else rest

abbrev pub intersect_sorted : List (List ℕ) → List ℕ
intersect_sorted [] = []
intersect_sorted (acc ∷ ss) = intersect_all acc ss

abbrev pub intersect_sets : List (List ℕ) → List ℕ
intersect_sets [] = []
intersect_sets (s ∷ []) = s
intersect_sets (s ∷ t ∷ ss) = intersect_sorted (sort_by_len (s ∷ t ∷ ss))

unfoldable pub label_intersection : StreamRegistry → List Label → List ℕ
label_intersection r labels = intersect_sets (known_sets r labels)
