-- ===== src/Memtable.antt =====
-- logregator-tsdb/src/memtable.rs: the in-memory table of records, and its frozen form.
pub mod Set
pub mod Size
pub mod Contents
pub mod Holding
pub mod Tests
use logregator.Common.{
  ℕ, ◌+◌, ◌*◌, ◌^◌, Bool, true, false, ◌&&◌, not, List, [], Option, none, some, Outcome, ok, err,
  panic, ltb, leb, ◌==◌, if◌then◌else◌, length,
}
use logregator.Common.Bound.{Bound, included}
use logregator.Record.{Key, Record, size_of}
use Set.{insert, range, last}

-- 16 * 10 KiB (the comment beside the constant says 16 Mb).
abbrev pub default_memtable_size : ℕ
default_memtable_size = 16 * 10 * 1024

-- `AppendOutput`; `Ok` and `Full(..)`.
pub data AppendOutput : Type 0 where
  done : AppendOutput
  full : Option Record → AppendOutput

unfoldable pub was_appended : AppendOutput → Bool
was_appended done = true
was_appended (full none) = true
was_appended (full (some rec)) = false

-- `MemtableInner`. `set` is the `BTreeSet<Record>`, in its order.
pub record Memtable : Type 0 where
  pub id : ℕ
  pub set : List Record
  pub limit : ℕ
  pub size_bytes : ℕ
  pub first_key : Option Key
  pub last_key : Option Key

unfoldable pub with_size_limit : ℕ → ℕ → Memtable
with_size_limit id limit = record {
  id = id;
  set = [];
  limit = limit;
  size_bytes = 0;
  first_key = none;
  last_key = none;
}

-- `MutMemtable::new`
unfoldable pub new : ℕ → Option ℕ → Memtable
new id none = with_size_limit id default_memtable_size
new id (some limit) = with_size_limit id limit

abbrev set_first : Option Key → Key → Option Key
set_first none k = some k
set_first (some first) k = some first

unfoldable pub append : Memtable → Record → Memtable × AppendOutput
append m rec =
    if ltb m.limit (m.size_bytes + size_of rec) && not (m.size_bytes == 0)
    then (m, full (some rec))
    else (let size = m.size_bytes + size_of rec in
        (
          record m {
            set = insert rec m.set;
            size_bytes = size;
            first_key = set_first m.first_key rec.key;
            last_key = some rec.key;
          },
          if leb m.limit size then full none else done,
        ))

-- The memtable that is left behind, and the frozen one.
unfoldable pub freeze : Memtable → ℕ → Memtable × Memtable
freeze m new_id = (with_size_limit new_id m.limit, m)

unfoldable pub count : Memtable → ℕ
count m = length m.set

-- `Error::from(&str)`: the text is not modelled.
pub data MemtableError : Type 0 where
  bounds_not_set : MemtableError

abbrev bounds : Option Key → Option Key → Outcome MemtableError (Bound Key × Bound Key)
bounds (some first) (some last) = ok (included first, included last)
bounds none last = err bounds_not_set
bounds (some first) none = err bounds_not_set

unfoldable pub key_bounds_full : Memtable → Outcome MemtableError (Bound Key × Bound Key)
key_bounds_full m = bounds m.first_key m.last_key

abbrev pub u64_max : ℕ
u64_max = 0xffff_ffff_ffff_ffff

unfoldable pub full_range : Memtable → Outcome MemtableError (List Record)
full_range m =
    range (included (record { stream_id = 0; timestamp = 0; sequence_num = 0; source_id = 0 }))
      (included (record {
        stream_id = u64_max;
        timestamp = u64_max;
        sequence_num = u64_max;
        source_id = u64_max;
      }))
      m.set

pub record FlushableMemtable : Type 0 where
  pub inner : Memtable
  pub flushed : Bool

-- `From<FrozenMemtable>`
abbrev pub flushable : Memtable → FlushableMemtable
flushable m = record { inner = m; flushed = false }

-- The exchange of the flag fails, and the `expect` panics, when it is set already.
abbrev mark_flushed : FlushableMemtable → Outcome MemtableError FlushableMemtable
mark_flushed f = if f.flushed then panic else ok (record { inner = f.inner; flushed = true })
