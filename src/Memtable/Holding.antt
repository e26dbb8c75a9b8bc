-- ===== src/Memtable/Holding.antt =====
-- The table after records were appended to an empty one.
use logregator.Common.{
  ℕ, ◌+◌, ◌≤◌, ◌≡◌, refl, All, true, List, [], ◌∷◌, ◌++◌, Option, none, some, arith, le→ltb,
}
use logregator.Record.{Key, Record, size_of}
use logregator.Record.Order.{◌≺◌, gt_of_lt}
use logregator.Memtable.{Memtable, append, was_appended, set_first, with_size_limit}
use logregator.Memtable.Set.{insert}
use logregator.Memtable.Size.{total}

abbrev pub head_key : List Record → Option Key
head_key [] = none
head_key (r ∷ rs) = some r.key

abbrev pub last_key : List Record → Option Key
last_key [] = none
last_key (r ∷ []) = some r.key
last_key (r ∷ q ∷ rs) = last_key (q ∷ rs)

-- The table after records came in ascending order, none of them twice.
abbrev pub holding : ℕ → ℕ → List Record → Memtable
holding id limit rs = record {
  id = id;
  set = rs;
  limit = limit;
  size_bytes = total rs;
  first_key = head_key rs;
  last_key = last_key rs;
}

-- Every key of the list comes before `k`.
abbrev pub Below : Key → List Record → Type 0
Below k = All (λ r. r.key ≺ k)

insert_last : (rec : Record) (s : List Record) → Below rec.key s → insert rec s ≡ s ++ (rec ∷ [])
unfolding insert
insert_last rec [] h = refl
insert_last rec (r ∷ rs) h = ground (arith, gt_of_lt r.key rec.key, insert_last rec rs)

last_key-snoc : (rec : Record) (s : List Record) → last_key (s ++ (rec ∷ [])) ≡ some rec.key
last_key-snoc rec [] = refl
last_key-snoc rec (r ∷ []) = refl
last_key-snoc rec (r ∷ q ∷ rs) = last_key-snoc rec (q ∷ rs)

head_key-snoc :
    (rec : Record) (s : List Record) → head_key (s ++ (rec ∷ [])) ≡ set_first (head_key s) rec.key
head_key-snoc rec [] = refl
head_key-snoc rec (r ∷ rs) = refl

pub total-snoc : (rec : Record) (s : List Record) → total (s ++ (rec ∷ [])) ≡ total s + size_of rec
total-snoc rec [] = omega arith
total-snoc rec (r ∷ rs) = omega (arith, total-snoc rec rs)

pub append-holding :
    (id limit : ℕ) (s : List Record) (rec : Record)
    → Below rec.key s
    → total s + size_of rec ≤ limit
    → (append (holding id limit s) rec).0 ≡ holding id limit (s ++ (rec ∷ []))
unfolding append
append-holding id limit s rec h fits = rw (
  le→ltb limit (total s + size_of rec) fits,
  insert_last rec s h,
  head_key-snoc rec s,
  last_key-snoc rec s,
  total-snoc rec s,
)

pub append-first :
    (id limit : ℕ) (a : Record)
    → size_of a ≤ limit
    → (append (with_size_limit id limit) a).0 ≡ holding id limit (a ∷ [])
unfolding with_size_limit
append-first id limit a fits = append-holding id limit [] a tt (omega arith)

pub append-smaller :
    (id limit : ℕ) (a b : Record)
    → size_of a + size_of b ≤ limit
    → ((append (holding id limit (a ∷ [])) b).0.first_key ≡ some a.key)
      × ((append (holding id limit (a ∷ [])) b).0.last_key ≡ some b.key)
      × (was_appended (append (holding id limit (a ∷ [])) b).1 ≡ true)
unfolding append was_appended
append-smaller id limit a b fits = ground arith

-- The table after a batch, each record appended in turn.
unfoldable pub append_all : Memtable → List Record → Memtable
append_all m [] = m
append_all m (r ∷ rs) = append_all (append m r).0 rs
