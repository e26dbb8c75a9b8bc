-- ===== src/Memtable/Set.antt =====
-- `BTreeSet<Record>` as the list of its elements in ascending order of their keys.
use logregator.Common.{
  ◌≡◌, refl, Bool, true, false, not, ◌&&◌, List, [], ◌∷◌, Option, none, some, Ordering, Outcome, ok,
  panic, if◌then◌else◌, arith, All,
}
use logregator.Common.Bound.{Bound, included, excluded, unbounded}
use logregator.Record.{Key, Record, cmp}
use logregator.Record.Order.{◌≺◌, cmp_refl, eq_of_cmp, lt_of_gt, lt_trans}

-- `BTreeSet::insert`: an element that is there already stays, and the new one is dropped.
unfoldable pub insert : Record → List Record → List Record
insert rec [] = rec ∷ []
insert rec (r ∷ rs) = elim (cmp rec.key r.key) [
  | Ordering.lt ↦ rec ∷ r ∷ rs
  | Ordering.eq ↦ r ∷ rs
  | Ordering.gt ↦ r ∷ insert rec rs
]

unfoldable pub last : List Record → Option Record
last [] = none
last (r ∷ []) = some r
last (r ∷ q ∷ rs) = last (q ∷ rs)

abbrev pub is_lt : Ordering → Bool
is_lt Ordering.lt = true
is_lt _ = false

abbrev pub is_le : Ordering → Bool
is_le Ordering.gt = false
is_le _ = true

abbrev pub after_start : Bound Key → Key → Bool
after_start (included k) key = is_le (cmp k key)
after_start (excluded k) key = is_lt (cmp k key)
after_start unbounded key = true

abbrev pub before_end : Bound Key → Key → Bool
before_end (included k) key = is_le (cmp key k)
before_end (excluded k) key = is_lt (cmp key k)
before_end unbounded key = true

-- `BTreeSet::range` panics when the start lies behind the end, and when they are equal and both
-- excluded, unless nothing was ever inserted.
abbrev pub range_panics : Bound Key → Bound Key → Bool
range_panics (included a) (included b) = is_lt (cmp b a)
range_panics (included a) (excluded b) = is_lt (cmp b a)
range_panics (excluded a) (included b) = is_lt (cmp b a)
range_panics (excluded a) (excluded b) = is_le (cmp b a)
range_panics _ _ = false

abbrev pub never_filled : List Record → Bool
never_filled [] = true
never_filled (r ∷ rs) = false

unfoldable pub inside : Bound Key → Bound Key → Key → Bool
inside start end key = after_start start key && before_end end key

unfoldable pub within : Bound Key → Bound Key → List Record → List Record
within start end [] = []
within start end (r ∷ rs) =
    let rest = within start end rs in if inside start end r.key then r ∷ rest else rest

unfoldable pub range {ε} :
    {E : Type ε} → Bound Key → Bound Key → List Record → Outcome E (List Record)
range start end set =
    if range_panics start end && not (never_filled set) then panic else ok (within start end set)

-- The element with a key.
unfoldable pub find : Key → List Record → Option Record
find k [] = none
find k (r ∷ rs) = let rest = find k rs in elim (cmp k r.key) [ Ordering.eq ↦ some r | _ ↦ rest ]

abbrev pub Above : Key → List Record → Type 0
Above k = All (λ r. k ≺ r.key)

abbrev pub IsSorted : List Record → Type 0
IsSorted [] = Unit
IsSorted (r ∷ rs) = Above r.key rs × IsSorted rs

insert-Above :
    (k : Key) (rec : Record) (s : List Record) → k ≺ rec.key → Above k s → Above k (insert rec s)
unfolding insert
insert-Above k rec [] h a = (h, tt)
insert-Above k rec (r ∷ rs) h a = ground (arith, insert-Above k rec rs)

Above-trans : (a b : Key) (s : List Record) → a ≺ b → Above b s → Above a s
Above-trans a b [] h k = tt
Above-trans a b (r ∷ rs) h (k, ks) = (lt_trans a b r.key h k, Above-trans a b rs h ks)

pub insert-IsSorted : (rec : Record) (s : List Record) → IsSorted s → IsSorted (insert rec s)
unfolding insert
insert-IsSorted rec [] h = (tt, tt)
insert-IsSorted rec (r ∷ rs) h = ground (
  arith,
  insert-IsSorted rec rs,
  insert-Above r.key rec rs,
  lt_of_gt rec.key r.key,
  Above-trans rec.key r.key rs,
)

find-Above : (k : Key) (s : List Record) → Above k s → find k s ≡ none
unfolding find
find-Above k [] a = refl
find-Above k (r ∷ rs) a = ground (arith, find-Above k rs)

-- What `insert` makes of the element at a key: the record that was there first stays.
abbrev pub or_new : Record → Key → Option Record → Option Record
or_new rec k (some r) = some r
or_new rec k none = elim (cmp k rec.key) [ Ordering.eq ↦ some rec | _ ↦ none ]

pub find-insert :
    (rec : Record) (k : Key) (s : List Record)
    → IsSorted s
    → find k (insert rec s) ≡ or_new rec k (find k s)
unfolding find insert
find-insert rec k [] h = ground arith
find-insert rec k (r ∷ rs) h = ground (
  arith,
  find-insert rec k rs,
  eq_of_cmp k rec.key,
  eq_of_cmp rec.key r.key,
  cmp_refl rec.key,
  find-Above rec.key rs,
  Above-trans rec.key r.key rs,
)

-- What a range holds: the elements whose keys lie within the bounds, and no others.
pub find-within :
    (start end : Bound Key) (k : Key) (s : List Record)
    → find k (within start end s) ≡ (if inside start end k then find k s else none)
unfolding find within
find-within start end k [] = ground arith
find-within start end k (r ∷ rs) = ground (arith, find-within start end k rs, eq_of_cmp k r.key)

within-Above :
    (k : Key) (start end : Bound Key) (s : List Record) → Above k s → Above k (within start end s)
unfolding within
within-Above k start end [] a = tt
within-Above k start end (r ∷ rs) a = ground (arith, within-Above k start end rs)

pub within-IsSorted :
    (start end : Bound Key) (s : List Record) → IsSorted s → IsSorted (within start end s)
unfolding within
within-IsSorted start end [] h = tt
within-IsSorted start end (r ∷ rs) h =
    ground (arith, within-IsSorted start end rs, within-Above r.key start end rs)
