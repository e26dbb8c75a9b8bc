-- ===== src/MergeIter/New.antt =====
-- `MergeIter::new` over memtables and sorted tables, read to its end.
use mathlib.Core.List.{Perm}
use mathlib.Core.Path.{subst}
use logregator.Common.{
  ℕ, ◌<◌, append-nil, ◌≡◌, refl, sym, ap, false, List, [], ◌∷◌, ◌++◌, some, ok, All, All-append,
  length, map,
}
use logregator.Common.Bound.{Bound}
use logregator.Memtable.{Memtable}
use logregator.Memtable.Set.{IsSorted, Above, range, range_panics, within, within-IsSorted}
use logregator.MergeIter.{Cursor, Handle, MergeIter, open_cursors, ranges, new, drain}
use logregator.MergeIter.Flows.{concat, From, IsAscending}
use logregator.MergeIter.Fill.{Yields, no_cursor}
use logregator.MergeIter.Sources.{drain_filled}
use logregator.Record.{Key, Record}
use logregator.Record.Order.{le_of_lt}

From-of_Above : (k : Key) (s : List Record) → Above k s → From k s
From-of_Above k [] h = tt
From-of_Above k (r ∷ rs) (h, hs) = (le_of_lt k r.key h, From-of_Above k rs hs)

pub IsAscending-of_IsSorted : (s : List Record) → IsSorted s → IsAscending s
IsAscending-of_IsSorted [] h = tt
IsAscending-of_IsSorted (r ∷ rs) (h, hs) = (From-of_Above r.key rs h, IsAscending-of_IsSorted rs hs)

-- The records of memtables within bounds.
abbrev pub all_within : Bound Key → Bound Key → List Memtable → List (List Record)
all_within start end [] = []
all_within start end (m ∷ ms) = within start end m.set ∷ all_within start end ms

ranges-ok {ε} :
    {E : Type ε} (ms : List Memtable) (start end : Bound Key)
    → range_panics start end ≡ false
    → ranges {E = E} ms start end ≡ ok (all_within start end ms)
unfolding ranges range
ranges-ok [] start end h = refl
ranges-ok {E = E} (m ∷ ms) start end h = rw (h, ranges-ok {E = E} ms start end h)

all_within-IsAscending :
    (ms : List Memtable) (start end : Bound Key)
    → All (λ m. IsSorted m.set) ms
    → All IsAscending (all_within start end ms)
all_within-IsAscending [] start end h = tt
all_within-IsAscending (m ∷ ms) start end (h, hs) = (
  IsAscending-of_IsSorted _ (within-IsSorted start end m.set h),
  all_within-IsAscending ms start end hs,
)

module _ {E C H : Type 0} {ops : Cursor E C} (yields : Yields ops) (handle : Handle E C H) where
  -- All that the tables and the cursors hold.
  abbrev pub held : List Memtable → List C → Bound Key → Bound Key → List Record
  held ms cursors start end = concat (all_within start end ms ++ map yields.records cursors)

  -- When the bounds are in order, the sets are sorted and the tables open with good cursors that ascend,
  -- `new` does not fail, and reading the iterator gives, with fuel for one call more than there are
  -- records, all the records of the memtables within the bounds and all that the steps of the cursors
  -- yield, in ascending order of their keys.
  pub drain-new :
      (active : Memtable) (frozen : List Memtable) (handles : List H) (start end : Bound Key)
      (cursors : List C)
      → range_panics start end ≡ false
      → All (λ m. IsSorted m.set) (active ∷ frozen)
      → open_cursors handle handles start end ≡ ok cursors
      → All (λ c. IsAscending (yields.records c)) cursors
      → All yields.good cursors
      → (fuel : ℕ) → length (held (active ∷ frozen) cursors start end) < fuel
      → (it : MergeIter C) × (out : List Record) × (new ops handle active frozen handles start end
          ≡ ok it)
        × (drain ops fuel it ≡ ok (some out))
        × Perm out (held (active ∷ frozen) cursors start end)
        × IsAscending out
  unfolding new
  drain-new active frozen handles start end cursors bounds sorted opened ascending good fuel
        enough =
      let (it, filled, run) =
        drain_filled yields
          (record {
            memtables = all_within start end (active ∷ frozen);
            cursors = cursors;
            minheap = [];
          })
          refl
          (All-append IsAscending (all_within start end (active ∷ frozen))
            (map yields.records cursors) (all_within-IsAscending (active ∷ frozen) start end sorted)
            (All-map cursors ascending))
          good in
      let (out, drained, perm, up) = run fuel enough in
      (
        it,
        out,
        rw (opened, ranges-ok {E = E} (active ∷ frozen) start end bounds, filled),
        drained,
        perm,
        up,
      )
    where
      All-map :
          (cs : List C)
          → All (λ c. IsAscending (yields.records c)) cs
          → All IsAscending (map yields.records cs)
      All-map [] h = tt
      All-map (c ∷ cs) (h, hs) = (h, All-map cs hs)

-- Over memtables alone, with bounds in order and sorted sets, `new` does not fail, and reading the
-- iterator gives, with fuel for one call more than there are records, exactly the records of the
-- memtables within the bounds, in ascending order of their keys.
pub drain-new_memtables :
    {E C H : Type 0} (ops : Cursor E C) (handle : Handle E C H) (active : Memtable)
    (frozen : List Memtable) (start end : Bound Key)
    → range_panics start end ≡ false
    → All (λ m. IsSorted m.set) (active ∷ frozen)
    → (fuel : ℕ) → length (concat (all_within start end (active ∷ frozen))) < fuel
    → (it : MergeIter C) × (out : List Record) × (new ops handle active frozen [] start end ≡ ok it)
      × (drain ops fuel it ≡ ok (some out))
      × Perm out (concat (all_within start end (active ∷ frozen)))
      × IsAscending out
unfolding open_cursors
drain-new_memtables ops handle active frozen start end bounds sorted fuel enough =
    let same : held (no_cursor ops) handle (active ∷ frozen) [] start end
        ≡ concat (all_within start end (active ∷ frozen)) =
      ap concat (append-nil (all_within start end (active ∷ frozen))) in
    let (it, out, made, drained, perm, up) =
      drain-new (no_cursor ops) handle active frozen [] start end [] bounds sorted refl tt tt fuel
        (subst (λ l. length l < fuel) (sym same) enough) in
    (it, out, made, drained, subst (Perm out) same perm, up)
