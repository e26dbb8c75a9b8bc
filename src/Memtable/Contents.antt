-- ===== src/Memtable/Contents.antt =====
-- The memtable as a partial function from keys to records.
use logregator.Common.{◌≡◌, false, Option, some, arith, if◌then◌else◌, fun_ext}
use logregator.Record.{Key, Record}
use logregator.Memtable.{Memtable, full, append, was_appended}
use logregator.Memtable.Set.{find, find-insert, or_new}
use logregator.Memtable.Size.{IsValid}

abbrev pub contents : Memtable → Key → Option Record
contents m k = find k m.set

-- The abstract insertion: the first record of a key stays.
abbrev pub put : Record → (Key → Option Record) → Key → Option Record
put rec f k = or_new rec k (f k)

-- `append` inserts the record exactly when its result says so, and otherwise changes nothing and
-- hands the record back.
pub append-contents :
    (m : Memtable) (rec : Record)
    → IsValid m
    → (contents (append m rec).0
        ≡ (if was_appended (append m rec).1 then put rec (contents m) else contents m))
      × (was_appended (append m rec).1 ≡ false → append m rec ≡ (m, full (some rec)))
unfolding append was_appended
append-contents m rec v =
    (fun_ext (λ k. ground (arith, find-insert rec k m.set v.sorted)), ground arith)
