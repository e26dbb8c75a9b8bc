-- ===== src/Io/Ascending.antt =====
-- The flush of a memtable whose keys arrived in ascending order.
use logregator.Common.{◌≡◌, true, List, [], ◌∷◌, All}
use logregator.Record.{Key, Record, cmp}
use logregator.Memtable.Set.{is_le}
use logregator.Sst.Writer.Placed.{Placed}

-- The last key of a table that is not empty.
last_of : Record → List Record → Key
last_of r [] = r.key
last_of r (q ∷ rs) = last_of q rs

abbrev UpTo : Key → List Record → Type 0
UpTo k = All (λ r. is_le (cmp r.key k) ≡ true)
