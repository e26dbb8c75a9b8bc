-- ===== src/Label/Registry/Insert.antt =====
-- What `insert` changes of the three views of the registry.
use logregator.Common.{
  add, ℕ, ◌==◌, ==_iff, ◌≡◌, refl, sym, ap, ◌∙◌, inl, inr, Bool, true, false, ◌&&◌, ◌||◌,
  Bool-cases, Option, none, some, List, [], ◌∷◌, ◌++◌, append_assoc, append-nil, Decides, get, put,
  get-put, put-fresh, contains, contains-add, if◌then◌else◌,
}
use logregator.Label.{Str, Label, LabelMap, same_str, same_label, same_labels, same_labelmap}
use logregator.Label.Registry.{
  KvIndex, StreamRegistry, default, with_stream, add_stream, index_labels, insert, from_entries,
  change_or_new, from_label, from_labels, from, get_stream_id_by_labelmap, get_labelmap_by_stream,
  get_streams_by_kv,
}

true_and : (a b : Bool) → (a && b) ≡ true → (a ≡ true) × (b ≡ true)
true_and true b e = (refl, e)
true_and false b e = cc

decides :
    {A : Type 0} (same : A → A → Bool)
    → ((a : A) → same a a ≡ true)
    → ((a b : A) → same a b ≡ true → a ≡ b)
    → Decides same
decides same self eq a b = (eq a b, (λ e. ap (same a) (sym e) ∙ self a))

same_str_refl : (xs : Str) → same_str xs xs ≡ true
same_str_refl [] = refl
same_str_refl (x ∷ xs) = rw ((==_iff x x).1 refl, same_str_refl xs)

same_str-eq : (xs ys : Str) → same_str xs ys ≡ true → xs ≡ ys
same_str-eq [] [] e = refl
same_str-eq [] (y ∷ ys) e = cc
same_str-eq (x ∷ xs) [] e = cc
same_str-eq (x ∷ xs) (y ∷ ys) e =
    let (h, t) = true_and (x == y) (same_str xs ys) e in cc ((==_iff x y).0 h, same_str-eq xs ys t)

same_label_refl : (l : Label) → same_label l l ≡ true
same_label_refl (k, v) = rw (same_str_refl k, same_str_refl v)

same_label-eq : (l m : Label) → same_label l m ≡ true → l ≡ m
same_label-eq (k, v) (k', v') e =
    let (h, t) = true_and (same_str k k') (same_str v v') e in
    cc (same_str-eq k k' h, same_str-eq v v' t)

same_labels_refl : (ls : List Label) → same_labels ls ls ≡ true
same_labels_refl [] = refl
same_labels_refl (l ∷ ls) = rw (same_label_refl l, same_labels_refl ls)

same_labels-eq : (ls ms : List Label) → same_labels ls ms ≡ true → ls ≡ ms
same_labels-eq [] [] e = refl
same_labels-eq [] (m ∷ ms) e = cc
same_labels-eq (l ∷ ls) [] e = cc
same_labels-eq (l ∷ ls) (m ∷ ms) e =
    let (h, t) = true_and (same_label l m) (same_labels ls ms) e in
    cc (same_label-eq l m h, same_labels-eq ls ms t)

pub same_label-Decides : Decides same_label
same_label-Decides = decides same_label same_label_refl same_label-eq

pub same_labelmap-Decides : Decides same_labelmap
unfolding same_labelmap
same_labelmap-Decides =
    decides same_labelmap
      (λ m. rw ((==_iff m.fingerprint m.fingerprint).1 refl, same_labels_refl m.inner))
      (λ a b e.
        (let (h, t) = true_and _ _ e in
          let fp = (==_iff a.fingerprint b.fingerprint).0 h in
          let inner = same_labels-eq a.inner b.inner t in cc (fp, inner)))

abbrev pub listed_in : Option (List ℕ) → ℕ → Bool
listed_in none id = false
listed_in (some ids) id = contains ◌==◌ id ids

-- Whether the index has the stream under the label.
abbrev pub listed : KvIndex → Label → ℕ → Bool
listed kv l id = listed_in (get same_label l kv) id

listed-put :
    (l m : Label) (ids : List ℕ) (kv : KvIndex) (id : ℕ)
    → listed (put same_label l ids kv) m id
      ≡ (if same_label m l then contains ◌==◌ id ids else listed kv m id)
listed-put l m ids kv id =
    ap (λ t. listed_in t id) (get-put same_label same_label-Decides l m ids kv)
    ∙ elim (Bool-cases (same_label m l)) [ inl e ↦ rw e | inr e ↦ rw e ]

listed_same :
    (l m : Label) (kv : KvIndex) (id : ℕ) → same_label m l ≡ true → listed kv m id ≡ listed kv l id
listed_same l m kv id e = ap (λ t. listed kv t id) ((same_label-Decides m l).0 e)

or_false : (b : Bool) → (b || false) ≡ b
or_false true = refl
or_false false = refl

contains-with_stream :
    (stream_id id : ℕ) (o : Option (List ℕ))
    → contains ◌==◌ id (with_stream stream_id o) ≡ (listed_in o id || (id == stream_id))
unfolding contains
contains-with_stream stream_id id none = or_false (id == stream_id)
contains-with_stream stream_id id (some ids) = contains-add ◌==◌ ==_iff stream_id id ids

listed-add_stream :
    (stream_id : ℕ) (l m : Label) (kv : KvIndex) (id : ℕ)
    → listed (add_stream stream_id l kv) m id
      ≡ (listed kv m id || (same_label m l && (id == stream_id)))
unfolding add_stream
listed-add_stream stream_id l m kv id =
    listed-put l m (with_stream stream_id (get same_label l kv)) kv id
    ∙ elim (Bool-cases (same_label m l)) [
      | inl e ↦
          rw (e, listed_same l m kv id e) (contains-with_stream stream_id id (get same_label l kv))
      | inr e ↦ rw e (sym (or_false (listed kv m id)))
    ]

or_assoc : (a b c : Bool) → ((a || b) || c) ≡ (a || (b || c))
or_assoc true b c = refl
or_assoc false b c = refl

and_or : (a b c : Bool) → ((a && c) || (b && c)) ≡ ((a || b) && c)
and_or true true true = refl
and_or true true false = refl
and_or true false c = or_false c
and_or false b c = refl

listed-index_labels :
    (stream_id : ℕ) (ls : List Label) (m : Label) (kv : KvIndex) (id : ℕ)
    → listed (index_labels stream_id ls kv) m id
      ≡ (listed kv m id || (contains same_label m ls && (id == stream_id)))
unfolding index_labels contains
listed-index_labels stream_id [] m kv id = sym (or_false (listed kv m id))
listed-index_labels stream_id (l ∷ ls) m kv id =
    listed-index_labels stream_id ls m (add_stream stream_id l kv) id
    ∙ ap (λ t. t || (contains same_label m ls && (id == stream_id)))
        (listed-add_stream stream_id l m kv id)
    ∙ or_assoc (listed kv m id) (same_label m l && (id == stream_id))
        (contains same_label m ls && (id == stream_id))
    ∙ ap (λ t. listed kv m id || t)
        (and_or (same_label m l) (contains same_label m ls) (id == stream_id))

-- After `insert`, the registry answers with the new label map for the stream, with the stream for
-- the label map, and with the stream under each label of the map; every other answer is the one
-- that it gave before.
pub insert_lem :
    (r : StreamRegistry) (stream_id : ℕ) (labelmap : LabelMap)
    → ((id : ℕ)
        → get_labelmap_by_stream (insert r stream_id labelmap) id
          ≡ (if id == stream_id then some labelmap else get_labelmap_by_stream r id))
      × ((m : LabelMap)
          → get_stream_id_by_labelmap (insert r stream_id labelmap) m
            ≡ (if same_labelmap m labelmap then some stream_id else get_stream_id_by_labelmap r m))
      × ((l : Label) (id : ℕ)
          → listed_in (get_streams_by_kv (insert r stream_id labelmap) l) id ≡ (
              listed_in (get_streams_by_kv r l) id
              || (contains same_label l labelmap.inner && (id == stream_id))))
unfolding insert get_labelmap_by_stream get_stream_id_by_labelmap get_streams_by_kv
insert_lem r stream_id labelmap = (
  (λ id. get-put ◌==◌ ==_iff stream_id id labelmap r.labelmap_by_stream),
  (λ m. get-put same_labelmap same_labelmap-Decides labelmap m stream_id r.stream_by_labelmap),
  (λ l id. listed-index_labels stream_id labelmap.inner l r.kv_index id),
)

-- The streams are different from each other.
abbrev pub AreFresh : List (ℕ × LabelMap) → List (ℕ × LabelMap) → Type 0
AreFresh seen [] = Unit
AreFresh seen ((id, m) ∷ es) = (get ◌==◌ id seen ≡ none) × AreFresh (seen ++ ((id, m) ∷ [])) es

abbrev pub insert_all : StreamRegistry → List (ℕ × LabelMap) → StreamRegistry
insert_all r [] = r
insert_all r ((id, m) ∷ es) = insert_all (insert r id m) es

-- The step of the loop of `From` and that of `insert`.
from_label_lem :
    (stream_id : ℕ) (label : Label) (kv : KvIndex)
    → from_label stream_id label kv ≡ add_stream stream_id label kv
unfolding from_label add_stream add contains
from_label_lem stream_id label kv = same (get same_label label kv)
  where
    same :
        (o : Option (List ℕ))
        → change_or_new stream_id label kv o ≡ put same_label label (with_stream stream_id o) kv
    same (some ids) = refl
    same none = refl

from_labels_lem :
    (stream_id : ℕ) (ls : List Label) (kv : KvIndex)
    → from_labels stream_id ls kv ≡ index_labels stream_id ls kv
unfolding from_labels index_labels
from_labels_lem stream_id [] kv = refl
from_labels_lem stream_id (l ∷ ls) kv =
    from_labels_lem stream_id ls (from_label stream_id l kv)
    ∙ ap (index_labels stream_id ls) (from_label_lem stream_id l kv)

from_entries-insert_all :
    (es : List (ℕ × LabelMap)) (r r' : StreamRegistry)
    → r.labelmap_by_stream ≡ r'.labelmap_by_stream ++ es
    → r.stream_by_labelmap ≡ r'.stream_by_labelmap
    → r.kv_index ≡ r'.kv_index
    → AreFresh r'.labelmap_by_stream es
    → from_entries es r ≡ insert_all r' es
unfolding insert
from_entries-insert_all [] r r' a b c f =
    let a' : r.labelmap_by_stream ≡ r'.labelmap_by_stream = a ∙ append-nil r'.labelmap_by_stream in
    cc (a', b, c)
from_entries-insert_all ((id, m) ∷ es) r r' a b c (f, fs) =
    let at_end = put-fresh ◌==◌ id m r'.labelmap_by_stream f in
    from_entries-insert_all es _ (insert r' id m)
      (a
        ∙ sym (append_assoc r'.labelmap_by_stream ((id, m) ∷ []) es)
        ∙ ap (λ t. t ++ es) (sym at_end))
      (ap (put same_labelmap m id) b)
      (from_labels_lem id m.inner r.kv_index ∙ ap (index_labels id m.inner) c) (rw at_end fs)

-- The registry made of a mapping of streams to label maps is the one that inserting the entries one
-- after the other into an empty registry gives.
pub from-insert_all :
    (entries : List (ℕ × LabelMap))
    → AreFresh [] entries
    → from entries ≡ insert_all default entries
unfolding from
from-insert_all entries f = from_entries-insert_all entries _ default refl refl refl f
