-- ===== src/MergeIter/Tests.antt =====
-- Runs of the merge iterator over two memtables and a table.
use mathlib.Core.List.{Perm}
use logregator.Common.{
  ℕ, ◌≡◌, refl, ap, ◌<◌, true, false, All, List, [], ◌∷◌, Option, none, some, ok, arith, length,
  ◌>>=◌,
}
use logregator.Common.Bound.{Bound, included}
use logregator.Memtable.{Memtable}
use logregator.MergeIter.{
  Cursor, Handle, MergeIter, new, open_cursors, ranges, fill_from_all, fill_each, fill_from_single,
  drain, next, next_popped,
}
use logregator.MergeIter.Heap.{pop, select}
use logregator.Memtable.Set.{IsSorted, range, range_panics, within, inside}
use logregator.MergeIter.Flows.{IsAscending, concat}
use logregator.MergeIter.Fill.{Yields, pull}
use logregator.MergeIter.New.{held, drain-new, drain-new_memtables, all_within}
use logregator.Record.{Key, Record, cmp}

-- A cursor that has the record it stands on and those that follow.
abbrev pub At : Type 0
At = Option Record × List Record

abbrev pub advance : At → At
advance (o, []) = (none, [])
advance (o, r ∷ rs) = (some r, rs)

abbrev pub list_cursor : Cursor Unit At
list_cursor = record { next = λ c. ok (advance c); take_current = λ c. (c.0, (none, c.1)) }

abbrev pub list_yields : Yields list_cursor
list_yields = record {
  good = λ c. Unit;
  records = λ c. c.1;
  spent = λ c g h. ((none, []), ap (λ l. pull list_cursor (c.0, l)) h, refl, tt);
  step = λ c r rs g h. ((none, rs), ap (λ l. pull list_cursor (c.0, l)) h, refl, tt);
}

abbrev first_of : List Record → At
first_of [] = (none, [])
first_of (r ∷ rs) = (some r, rs)

-- A table is the list of its records, and a cursor stands on the first of them.
abbrev list_handle : Handle Unit At (List Record)
list_handle = record {
  may_contain_stream_id = λ h s. ok true;
  cursor = λ h start end. ok (some (first_of h));
}

abbrev pub at : ℕ → ℕ → Record
at s t = record {
  key = record { stream_id = s; timestamp = t; sequence_num = 0; source_id = 0 };
  payload = t ∷ [];
}

abbrev table : ℕ → List Record → Memtable
table id recs = record {
  id = id;
  set = recs;
  limit = 4096;
  size_bytes = 0;
  first_key = none;
  last_key = none;
}

abbrev active : Memtable
active = table 1 (at 1 2 ∷ at 1 6 ∷ [])

abbrev frozen : Memtable
frozen = table 0 (at 1 1 ∷ at 2 5 ∷ [])

abbrev tables : List (List Record)
tables = (at 1 3 ∷ at 1 4 ∷ at 1 7 ∷ []) ∷ []

abbrev start : Bound Key
start = included (at 1 0).key

abbrev last : Bound Key
last = included (at 1 9).key

abbrev opened : List At
opened = (some (at 1 3), at 1 4 ∷ at 1 7 ∷ []) ∷ []

in_order : range_panics start last ≡ false
unfolding cmp
in_order = refl

sorted : All (λ m. IsSorted m.set) (active ∷ frozen ∷ [])
unfolding cmp
sorted = (((refl, tt), (tt, tt)), (((refl, tt), (tt, tt)), tt))

opens : open_cursors list_handle tables start last ≡ ok opened
unfolding open_cursors
opens = refl

ascending : All (λ c. IsAscending (list_yields.records c)) opened
unfolding cmp
ascending = ((((λ e. cc), tt), (tt, tt)), tt)

enough : length (held list_yields list_handle (active ∷ frozen ∷ []) opened start last) < 6
unfolding within inside cmp
enough = omega arith

with_table :
    (it : MergeIter At) × (out : List Record) × (new list_cursor list_handle active
        (frozen ∷ [])
        tables
        start
        last
      ≡ ok it)
    × (drain list_cursor 6 it ≡ ok (some out))
    × Perm out (held list_yields list_handle (active ∷ frozen ∷ []) opened start last)
    × IsAscending out
with_table =
    drain-new list_yields list_handle active (frozen ∷ []) tables start last opened in_order sorted
      opens ascending (tt, tt) 6 enough

enough_memtables : length (concat (all_within start last (active ∷ frozen ∷ []))) < 9
unfolding within inside cmp
enough_memtables = omega arith

drain-new_memtables_example :
    (it : MergeIter At) × (out : List Record) × (new list_cursor list_handle active
        (frozen ∷ [])
        []
        start
        last
      ≡ ok it)
    × (drain list_cursor 9 it ≡ ok (some out))
    × Perm out (concat (all_within start last (active ∷ frozen ∷ [])))
    × IsAscending out
drain-new_memtables_example =
    drain-new_memtables list_cursor list_handle active (frozen ∷ []) start last in_order sorted 9
      enough_memtables

-- The first record of the table, on which its cursor stands, is not read.
first_skipped :
    (new list_cursor list_handle active (frozen ∷ []) tables start last >>= drain list_cursor 9)
    ≡ ok (some (at 1 1 ∷ at 1 2 ∷ at 1 4 ∷ at 1 6 ∷ at 1 7 ∷ []))
unfolding new open_cursors ranges range within inside cmp fill_from_all fill_each fill_from_single
    drain next next_popped pop select
first_skipped = refl
