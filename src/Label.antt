-- ===== src/Label.antt =====
-- logregator-tsdb/src/label.rs: label maps and the registry of streams.
pub mod Registry
pub mod Codec
pub mod Tests
use logregator.Common.{ℕ, ◌+◌, Bool, true, false, ◌&&◌, ◌==◌, List, [], ◌∷◌, length}

-- A string is the list of its UTF-8 bytes.
abbrev pub Str : Type 0
Str = List ℕ

-- `Label`: a key and a value.
abbrev pub Label : Type 0
Label = Str × Str

abbrev pub same_str : Str → Str → Bool
same_str [] [] = true
same_str [] (y ∷ ys) = false
same_str (x ∷ xs) [] = false
same_str (x ∷ xs) (y ∷ ys) = (x == y) && same_str xs ys

abbrev pub same_label : Label → Label → Bool
same_label (k, v) (k', v') = same_str k k' && same_str v v'

abbrev pub same_labels : List Label → List Label → Bool
same_labels [] [] = true
same_labels [] (y ∷ ys) = false
same_labels (x ∷ xs) [] = false
same_labels (x ∷ xs) (y ∷ ys) = same_label x y && same_labels xs ys

-- The `BTreeMap` is the list of its entries in ascending order of their keys.
pub record LabelMap : Type 0 where
  pub inner : List Label
  pub fingerprint : ℕ

-- `PartialEq for LabelMap`
unfoldable pub same_labelmap : LabelMap → LabelMap → Bool
same_labelmap a b = (a.fingerprint == b.fingerprint) && same_labels a.inner b.inner
