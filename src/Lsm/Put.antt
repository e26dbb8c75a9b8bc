-- ===== src/Lsm/Put.antt =====
-- Memtables that hold records: putting one more into the active one, and freezing it.
use logregator.Common.{
  ℕ, ◌+◌, ◌≡◌, ◌≢◌, refl, ◌⊎◌, inl, inr, ◌==◌, true, not, ◌&&◌, Bool-cases, Option-cases, none,
  some, List, [], ◌∷◌, ◌++◌, arith, All, All-append, ltb, leb,
}
use logregator.Memtable.{Memtable, done, full, append, was_appended, with_size_limit}
use logregator.Memtable.Set.{insert, find, find-insert, IsSorted}
use logregator.Memtable.Size.{IsValid, with_size_limit-IsValid}
use logregator.Record.{Key, Record, size_of}
use logregator.Record.Order.{cmp_refl}

-- One of the tables has the record.
abbrev pub Has : Record → List Memtable → Type 0
Has r [] = ⊥
Has r (m ∷ ms) = (find r.key m.set ≡ some r) ⊎ Has r ms

pub Has-append : (r : Record) (ms ns : List Memtable) → Has r ms ⊎ Has r ns → Has r (ms ++ ns)
Has-append r [] ns (inl h) = absurd h
Has-append r [] ns (inr h) = h
Has-append r (m ∷ ms) ns (inl (inl h)) = inl h
Has-append r (m ∷ ms) ns (inl (inr h)) = inr (Has-append r ms ns (inl h))
Has-append r (m ∷ ms) ns (inr h) = inr (Has-append r ms ns (inr h))

pub Has-append_split : (r : Record) (ms ns : List Memtable) → Has r (ms ++ ns) → Has r ms ⊎ Has r ns
Has-append_split r [] ns h = inr h
Has-append_split r (m ∷ ms) ns (inl h) = inl (inl h)
Has-append_split r (m ∷ ms) ns (inr h) = elim (Has-append_split r ms ns h) [
  | inl k ↦ inl (inr k)
  | inr k ↦ inr k
]

find_kept :
    (rec r : Record) (s : List Record)
    → IsSorted s
    → find r.key s ≡ some r
    → find r.key (insert rec s) ≡ some r
find_kept rec r s v h = rw (find-insert rec r.key s v, h)

find_new :
    (rec : Record) (s : List Record)
    → IsSorted s
    → find rec.key s ≡ none
    → find rec.key (insert rec s) ≡ some rec
find_new rec s v h = ground (arith, find-insert rec rec.key s v, cmp_refl rec.key)

find_only :
    (rec r : Record) (s : List Record)
    → IsSorted s
    → find r.key (insert rec s) ≡ some r
    → (find r.key s ≡ some r) ⊎ (r ≡ rec)
find_only rec r s v h = elim (Option-cases (find r.key s)) [
  | inl e ↦ inr (ground (arith, find-insert rec r.key s v))
  | inr (q, e) ↦ inl (ground (arith, find-insert rec r.key s v))
]

-- The record is put into the table, in one of two ways, or the table is full and has records.
pub append-cases :
    (m : Memtable) (rec : Record)
    → ((append m rec ≡ (m, full (some rec))) × (m.size_bytes ≢ 0))
      ⊎ (((append m rec).0.set ≡ insert rec m.set)
          × ((append m rec ≡ ((append m rec).0, done))
              ⊎ (append m rec ≡ ((append m rec).0, full none))))
unfolding append
append-cases m rec =
    elim (Bool-cases (ltb m.limit (m.size_bytes + size_of rec) && not (m.size_bytes == 0))) [
      | inl e ↦ inl (rw e, ground arith)
      | inr e ↦ inr (
        rw e,
        elim (Bool-cases (leb m.limit (m.size_bytes + size_of rec))) [
          | inl f ↦ inr (rw (e, f))
          | inr f ↦ inl (rw (e, f))
        ],
      )
    ]

abbrev pub empty_like : Memtable → ℕ → Memtable
empty_like m id = with_size_limit id m.limit

-- What storing `rec` does to the tables.
pub record Put (rec : Record) (ms ms' : List Memtable) : Type 0 where
  pub kept : (r : Record) → Has r ms → Has r ms'
  pub only : (r : Record) → Has r ms' → Has r ms ⊎ (r ≡ rec)
  pub added : Has rec ms'
  pub valid : All IsValid ms'

pub put_insert :
    (rec : Record) (m m' : Memtable) (ms : List Memtable)
    → m'.set ≡ insert rec m.set
    → find rec.key m.set ≡ none
    → All IsValid (m ∷ ms)
    → IsValid m'
    → Put rec (m ∷ ms) (m' ∷ ms)
put_insert rec m m' ms e fresh (v, vs) v' = record {
  kept = λ r h. elim h [ inl k ↦ inl (rw e (find_kept rec r m.set v.sorted k)) | inr k ↦ inr k ];
  only = λ r h. elim h [
    | inl k ↦ elim (find_only rec r m.set v.sorted (rw e at k)) [
      | inl q ↦ inl (inl q)
      | inr q ↦ inr q
    ]
    | inr k ↦ inl (inr k)
  ];
  added = inl (rw e (find_new rec m.set v.sorted fresh));
  valid = (v', vs);
}

pub find-empty : (k : Key) (m : Memtable) (id : ℕ) → find k (empty_like m id).set ≡ none
unfolding find with_size_limit
find-empty k m id = refl

-- A frozen table is found behind the others.
pub flushed_kept :
    (r : Record) (m : Memtable) (id : ℕ) (ms : List Memtable)
    → Has r (m ∷ ms)
    → Has r (empty_like m id ∷ (ms ++ (m ∷ [])))
flushed_kept r m id ms (inl h) = inr (Has-append r ms (m ∷ []) (inr (inl h)))
flushed_kept r m id ms (inr h) = inr (Has-append r ms (m ∷ []) (inl h))

pub flushed_only :
    (r : Record) (m : Memtable) (id : ℕ) (ms : List Memtable)
    → Has r (empty_like m id ∷ (ms ++ (m ∷ [])))
    → Has r (m ∷ ms)
flushed_only r m id ms (inl h) = absurd (cc (h, find-empty r.key m id))
flushed_only r m id ms (inr h) = elim (Has-append_split r ms (m ∷ []) h) [
  | inl k ↦ inr k
  | inr k ↦ elim k [ inl q ↦ inl q | inr q ↦ absurd q ]
]

pub flushed-IsValid :
    (m : Memtable) (id : ℕ) (ms : List Memtable)
    → All IsValid (m ∷ ms)
    → All IsValid (empty_like m id ∷ (ms ++ (m ∷ [])))
flushed-IsValid m id ms (v, vs) =
    (with_size_limit-IsValid id m.limit, All-append IsValid ms (m ∷ []) vs (v, tt))

-- The record was put into the active table, which was frozen then.
pub put_flushed :
    (rec : Record) (m m' : Memtable) (id : ℕ) (ms : List Memtable)
    → Put rec (m ∷ ms) (m' ∷ ms)
    → Put rec (m ∷ ms) (empty_like m' id ∷ (ms ++ (m' ∷ [])))
put_flushed rec m m' id ms p = record {
  kept = λ r h. flushed_kept r m' id ms (p.kept r h);
  only = λ r h. p.only r (flushed_only r m' id ms h);
  added = flushed_kept rec m' id ms p.added;
  valid = flushed-IsValid m' id ms p.valid;
}

-- The active table was frozen, and the record was put into the new one.
pub flushed_put :
    (rec : Record) (m m' : Memtable) (id : ℕ) (ms : List Memtable)
    → Put rec (empty_like m id ∷ (ms ++ (m ∷ []))) (m' ∷ (ms ++ (m ∷ [])))
    → Put rec (m ∷ ms) (m' ∷ (ms ++ (m ∷ [])))
flushed_put rec m m' id ms p = record {
  kept = λ r h. p.kept r (flushed_kept r m id ms h);
  only = λ r h. elim (p.only r h) [ inl k ↦ inl (flushed_only r m id ms k) | inr k ↦ inr k ];
  added = p.added;
  valid = p.valid;
}

-- An empty table takes every record.
pub append_empty :
    (m : Memtable) (id : ℕ) (rec : Record) → was_appended (append (empty_like m id) rec).1 ≡ true
unfolding append was_appended with_size_limit
append_empty m id rec = ground arith

pub append_empty_set :
    (m : Memtable) (id : ℕ) (rec : Record)
    → (append (empty_like m id) rec).0.set ≡ insert rec (empty_like m id).set
unfolding append with_size_limit
append_empty_set m id rec = ground arith
