-- ===== src/Memtable/Size.antt =====
-- The invariant of a memtable: order, size accounting, the soft limit and the recorded keys.
use logregator.Common.{
  ℕ, ◌+◌, ◌*◌, ◌≤◌, ◌≡◌, ◌≢◌, refl, ◌⊎◌, inl, inr, List, [], ◌∷◌, Option, none, some, arith, length,
}
use logregator.Record.{Key, Record, size_of}
use logregator.Record.Order.{cmp_refl}
use logregator.Memtable.{Memtable, with_size_limit, append, set_first}
use logregator.Memtable.Set.{insert, find, IsSorted, insert-IsSorted, find-insert}

abbrev pub total : List Record → ℕ
total [] = 0
total (r ∷ rs) = size_of r + total rs

total-insert : (rec : Record) (s : List Record) → total (insert rec s) ≤ total s + size_of rec
unfolding insert
total-insert rec [] = omega arith
total-insert rec (r ∷ rs) = ground (arith, total-insert rec rs)

length-insert : (rec : Record) (s : List Record) → length (insert rec s) ≤ length s + 1
unfolding insert
length-insert rec [] = omega arith
length-insert rec (r ∷ rs) = ground (arith, length-insert rec rs)

length-le-total : (s : List Record) → 48 * length s ≤ total s
length-le-total [] = omega arith
length-le-total (r ∷ rs) = omega (arith, length-le-total rs)

-- A recorded key is the key of a record in the table.
abbrev pub IsRecorded : Option Key → List Record → Type 0
IsRecorded none s = s ≡ []
IsRecorded (some k) s = find k s ≢ none

pub record IsValid (m : Memtable) : Type 0 where
  pub sorted : IsSorted m.set
  -- at least the bytes of the records, more when a key came twice
  pub counted : total m.set ≤ m.size_bytes
  -- the soft limit is passed by a first record only
  pub limited : (m.size_bytes ≤ m.limit) ⊎ (length m.set ≤ 1)
  pub first : IsRecorded m.first_key m.set
  pub last : IsRecorded m.last_key m.set

pub with_size_limit-IsValid : (id limit : ℕ) → IsValid (with_size_limit id limit)
unfolding with_size_limit
with_size_limit-IsValid id limit = record {
  sorted = tt;
  counted = omega arith;
  limited = inl (omega arith);
  first = refl;
  last = refl;
}

-- `append` takes the record: it fits, or the table is empty.
abbrev pub Fits : Memtable → Record → Type 0
Fits m rec = (m.size_bytes + size_of rec ≤ m.limit) ⊎ (m.size_bytes ≡ 0)

IsRecorded-insert :
    (o : Option Key) (rec : Record) (s : List Record)
    → IsSorted s
    → IsRecorded o s
    → IsRecorded (set_first o rec.key) (insert rec s)
IsRecorded-insert none rec s h e = rw find-insert (ground (arith, cmp_refl rec.key))
IsRecorded-insert (some k) rec s h e = rw find-insert (ground arith)

accept-IsValid :
    (m : Memtable) (rec : Record)
    → IsValid m
    → Fits m rec
    → IsValid (record m {
      set = insert rec m.set;
      size_bytes = m.size_bytes + size_of rec;
      first_key = set_first m.first_key rec.key;
      last_key = some rec.key;
    })
accept-IsValid m rec v f = record {
  sorted = insert-IsSorted rec m.set v.sorted;
  counted = omega (arith, total-insert rec m.set, v.counted);
  limited = elim f [
    | inl fits ↦ inl fits
    | inr empty ↦
        inr (omega (arith, empty, length-insert rec m.set, length-le-total m.set, v.counted))
  ];
  first = IsRecorded-insert m.first_key rec m.set v.sorted v.first;
  last = rw (find-insert rec rec.key m.set v.sorted) (ground (arith, cmp_refl rec.key));
}

-- `append` keeps the invariant, whether it takes the record or rejects it.
pub append-IsValid : (m : Memtable) (rec : Record) → IsValid m → IsValid (append m rec).0
unfolding append
append-IsValid m rec v = ground (arith, accept-IsValid m rec)
