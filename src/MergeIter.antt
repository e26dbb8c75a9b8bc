-- ===== src/MergeIter.antt =====
-- logregator-tsdb/src/merge_iter.rs: the iterator that merges the memtables and the sorted tables.
pub mod Heap
pub mod Flows
pub mod Fill
pub mod After
pub mod Drain
pub mod Sources
pub mod New
pub mod Tests
use logregator.Common.{
  ℕ, zero, suc, ◌+◌, Bool, true, false, List, [], ◌∷◌, ◌++◌, Option, none, some, Outcome, ok, err,
  panic, ◌>>=◌, if◌then◌else◌, length, get_elem?, set,
}
use mathlib.Core.Option
use logregator.Common.Bound.{Bound, included, excluded, unbounded}
use logregator.Memtable.{Memtable}
use logregator.Memtable.Set.{range}
use logregator.Record.{Key, Record}
use Heap.{HeapItem, Source, memtable, sst, pop}

-- What the iterator uses of the cursor over a sorted table.
pub record Cursor (E C : Type 0) : Type 0 where
  pub next : C → Outcome E C
  pub take_current : C → Option Record × C

-- What it uses of the handle of a sorted table.
pub record Handle (E C H : Type 0) : Type 0 where
  pub may_contain_stream_id : H → ℕ → Outcome E Bool
  pub cursor : H → Bound Key → Bound Key → Outcome E (Option C)

-- The memtables are the records that are left of their ranges.
pub record MergeIter (C : Type 0) : Type 0 where
  pub memtables : List (List Record)
  pub cursors : List C
  pub minheap : List HeapItem

module _ {E C : Type 0} (ops : Cursor E C) where
  -- `memtables[idx].next()`, and the push.
  abbrev pub fill_memtable : MergeIter C → ℕ → Option (List Record) → Outcome E (MergeIter C)
  fill_memtable it i none = panic
  fill_memtable it i (some []) = ok it
  fill_memtable it i (some (rec ∷ rest)) = ok (record it {
    memtables = set it.memtables i rest;
    minheap = record { inner = rec; source = memtable i } ∷ it.minheap;
  })

  abbrev pub push_taken : MergeIter C → ℕ → Option Record × C → MergeIter C
  push_taken it i (none, c) = record it { cursors = set it.cursors i c }
  push_taken it i (some rec, c) = record it {
    cursors = set it.cursors i c;
    minheap = record { inner = rec; source = sst i } ∷ it.minheap;
  }

  -- `cursors[idx].next()`, `cursors[idx].take_current()`, and the push.
  abbrev pub fill_sst : MergeIter C → ℕ → Option C → Outcome E (MergeIter C)
  fill_sst it i none = panic
  fill_sst it i (some c) = ops.next c >>= λ c'. ok (push_taken it i (ops.take_current c'))

  unfoldable pub fill_from_single : MergeIter C → Source → Outcome E (MergeIter C)
  fill_from_single it (memtable i) = fill_memtable it i (get_elem? it.memtables i)
  fill_from_single it (sst i) = fill_sst it i (get_elem? it.cursors i)

  -- `for i in from..from + left { self.fill_from_single(source(i)) }`
  unfoldable pub fill_each : (ℕ → Source) → ℕ → ℕ → MergeIter C → Outcome E (MergeIter C)
  fill_each source from zero it = ok it
  fill_each source from (suc left) it =
      fill_from_single it (source from) >>= λ it'. fill_each source (suc from) left it'

  unfoldable pub fill_from_all : MergeIter C → Outcome E (MergeIter C)
  fill_from_all it = do
    it' ← fill_each memtable 0 (length it.memtables) it
    fill_each sst 0 (length it'.cursors) it'

  unfoldable pub next_popped :
      MergeIter C → Option (HeapItem × List HeapItem) → Outcome E (Option Record × MergeIter C)
  next_popped it none = ok (none, it)
  next_popped it (some (item, rest)) = do
    it' ← fill_from_single (record it { minheap = rest }) item.source
    ok (some item.inner, it')

  unfoldable pub next : MergeIter C → Outcome E (Option Record × MergeIter C)
  next it = next_popped it (pop it.minheap)

  -- What `for rec in iter` sees; `none` means that the fuel ran out.
  unfoldable pub drain : ℕ → MergeIter C → Outcome E (Option (List Record))
  drain zero it = ok none
  drain (suc fuel) it = next it >>= λ out. elim out.0 [
    | none ↦ ok (some [])
    | some rec ↦ drain fuel out.1 >>= λ rest. ok (Option.map (λ recs. rec ∷ recs) rest)
  ]

module _ {E C H : Type 0} (handle : Handle E C H) where
  -- `Bound::Included(k) | Bound::Excluded(k)` with the test of the filter, or no test at all.
  abbrev pub may_hold : H → Bound Key → Outcome E Bool
  may_hold h (included k) = handle.may_contain_stream_id h k.stream_id
  may_hold h (excluded k) = handle.may_contain_stream_id h k.stream_id
  may_hold h unbounded = ok true

  abbrev pub cons_some : Option C → List C → List C
  cons_some none cs = cs
  cons_some (some c) cs = c ∷ cs

  unfoldable pub open_cursors : List H → Bound Key → Bound Key → Outcome E (List C)
  open_cursors [] start end = ok []
  open_cursors (h ∷ hs) start end = do
    may ← may_hold h start
    opened ← if may then handle.cursor h start end else ok none
    rest ← open_cursors hs start end
    ok (cons_some opened rest)

unfoldable pub ranges {ε} :
    {E : Type ε} → List Memtable → Bound Key → Bound Key → Outcome E (List (List Record))
ranges [] start end = ok []
ranges (m ∷ ms) start end = do
  recs ← range start end m.set
  rest ← ranges ms start end
  ok (recs ∷ rest)

module _ {E C H : Type 0} (ops : Cursor E C) (handle : Handle E C H) where
  unfoldable pub new :
      Memtable → List Memtable → List H → Bound Key → Bound Key → Outcome E (MergeIter C)
  new active frozen handles start end = do
    cursors ← open_cursors handle handles start end
    memtables ← ranges (active ∷ frozen) start end
    fill_from_all ops (record { memtables = memtables; cursors = cursors; minheap = [] })
