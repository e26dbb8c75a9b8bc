-- ===== src/MergeIter/Heap.antt =====
-- `BinaryHeap<Reverse<HeapItem>>` as the list of its items. `pop` takes a least item; of equal ones
-- the standard library may take any, here it is the first one of the list.
use logregator.Common.{ℕ, List, [], ◌∷◌, Option, none, some, Ordering, arith, All}
use mathlib.Core.List.{Perm}
use mathlib.Core.List.Perm
use logregator.Record.{Key, Record, cmp}
use logregator.Record.Order.{◌≼◌, le_refl, le_trans, le_of_lt, le_of_not_lt}

pub data Source : Type 0 where
  memtable : ℕ → Source
  sst : ℕ → Source

pub record HeapItem : Type 0 where
  pub inner : Record
  pub source : Source

-- The order of items is that of the keys of their records.
abbrev pub item_cmp : HeapItem → HeapItem → Ordering
item_cmp a b = cmp a.inner.key b.inner.key

abbrev keep : HeapItem → HeapItem × List HeapItem → HeapItem × List HeapItem
keep x (least, rest) = (least, x ∷ rest)

unfoldable pub select : HeapItem → List HeapItem → HeapItem × List HeapItem
select x [] = (x, [])
select x (y ∷ ys) = elim (item_cmp y x) [
  | Ordering.lt ↦ keep x (select y ys)
  | _ ↦ keep y (select x ys)
]

unfoldable pub pop : List HeapItem → Option (HeapItem × List HeapItem)
pop [] = none
pop (x ∷ xs) = some (select x xs)

-- The records of the items.
abbrev pub inners : List HeapItem → List Record
inners [] = []
inners (x ∷ xs) = x.inner ∷ inners xs

swap_under :
    (a b c : Record) (l m : List Record) → Perm (b ∷ l) (c ∷ m) → Perm (a ∷ b ∷ l) (c ∷ a ∷ m)
swap_under a b c l m p = Perm.trans (Perm.cons a p) (Perm.swap c a m)

pub select-perm :
    (x : HeapItem) (xs : List HeapItem)
    → Perm (x.inner ∷ inners xs) ((select x xs).0.inner ∷ inners (select x xs).1)
unfolding select
select-perm x [] = Perm.rfl
select-perm x (y ∷ ys) =
    let kept = swap_under y.inner x.inner _ _ _ (select-perm x ys) in
    let changed = swap_under x.inner y.inner _ _ _ (select-perm y ys) in
    ground (arith, Perm.trans (Perm.swap y.inner x.inner (inners ys)) kept, changed)

abbrev pub Below : Key → List HeapItem → Type 0
Below k = All (λ x. k ≼ x.inner.key)

-- The selected item is a least one.
pub select-Below : (x : HeapItem) (xs : List HeapItem) → Below (select x xs).0.inner.key (x ∷ xs)
unfolding select
select-Below x [] = (le_refl x.inner.key, tt)
select-Below x (y ∷ ys) = ground (
  arith,
  select-Below x ys,
  select-Below y ys,
  le_of_lt y.inner.key x.inner.key,
  le_of_not_lt y.inner.key x.inner.key,
  le_trans (select x ys).0.inner.key x.inner.key y.inner.key,
  le_trans (select y ys).0.inner.key y.inner.key x.inner.key,
)
