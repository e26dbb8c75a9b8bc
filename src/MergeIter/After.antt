-- ===== src/MergeIter/After.antt =====
-- A source of the iterator has given its next record to the heap: what is left, and what stays true.
use mathlib.Core.List.{Perm, perm_middle}
use mathlib.Core.List.Perm
use mathlib.Core.Path.{subst}
use logregator.Common.{
  ℕ, zero, suc, ◌<◌, ◌≡◌, refl, ◌⊎◌, inl, inr, List, [], ◌∷◌, some, arith, All, length, get_elem?,
  set, set_same, length-append, length-map, All-append, All-append_split, map,
}
use logregator.MergeIter.{Cursor, MergeIter}
use logregator.MergeIter.Heap.{HeapItem, Source, memtable, sst, select, inners, Below}
use logregator.MergeIter.Flows.{
  slot, behind, pushed, concat, pending, From, IsAscending, AllCovered, AllCovered-set,
  AllCovered-spent, IsAscending-set, concat-set,
}
use logregator.MergeIter.Fill.{Yields, flows, IsSource}
use logregator.Record.{Key, Record}

pub heap-cases :
    (heap : List HeapItem) → (heap ≡ []) ⊎ ((x : HeapItem) × (xs : List HeapItem) × (heap ≡ x ∷ xs))
heap-cases [] = inl refl
heap-cases (x ∷ xs) = inr (x, xs, refl)

pub select-All {κ} :
    (P : HeapItem → Type κ) (x : HeapItem) (xs : List HeapItem)
    → P x
    → All P xs
    → P (select x xs).0 × All P (select x xs).1
unfolding select
select-All P x [] h hs = (h, tt)
select-All P x (y ∷ ys) h (k, ks) = ground (arith, select-All P x ys h ks, select-All P y ys k ks)

pub Below-of_From : (k : Key) (xs : List HeapItem) → From k (inners xs) → Below k xs
Below-of_From k [] h = tt
Below-of_From k (x ∷ xs) (h, hs) = (h, Below-of_From k xs hs)

pub From-of_Below : (k : Key) (xs : List HeapItem) → Below k xs → From k (inners xs)
From-of_Below k [] h = tt
From-of_Below k (x ∷ xs) (h, hs) = (h, From-of_Below k xs hs)

pub From-concat : (k : Key) (fs : List (List Record)) → All (From k) fs → From k (concat fs)
From-concat k [] h = tt
From-concat k (f ∷ fs) (h, hs) = All-append _ f (concat fs) h (From-concat k fs hs)

pub From-of_concat : (k : Key) (fs : List (List Record)) → From k (concat fs) → All (From k) fs
From-of_concat k [] h = tt
From-of_concat k (f ∷ fs) h =
    let (front, back) = All-append_split _ f (concat fs) h in (front, From-of_concat k fs back)

pub All-get {ℓ κ} :
    {A : Type ℓ} (P : A → Type κ) (xs : List A) (i : ℕ) (a : A)
    → All P xs
    → get_elem? xs i ≡ some a
    → P a
All-get P [] i a h e = cc
All-get P (x ∷ xs) zero a (h, hs) e = subst P (ground arith) h
All-get P (x ∷ xs) (suc i) a (h, hs) e = All-get P xs i a hs e

pub All-set {ℓ κ} :
    {A : Type ℓ} (P : A → Type κ) (xs : List A) (i : ℕ) (a : A)
    → All P xs
    → P a
    → All P (set xs i a)
All-set P [] i a h k = tt
All-set P (x ∷ xs) zero a (h, hs) k = (k, hs)
All-set P (x ∷ xs) (suc i) a (h, hs) k = (h, All-set P xs i a hs k)

pub spent_lem : (n k : ℕ) (fs : List (List Record)) → AllCovered n [] k fs → concat fs ≡ []
spent_lem n k [] h = refl
spent_lem n k ([] ∷ fs) (h, hs) = spent_lem n (suc k) fs hs
spent_lem n k ((r ∷ f) ∷ fs) (h, hs) = absurd h

-- The records that are left after source number `i` gave the next of its records `l` to the heap.
abbrev pub after : ℕ → Source → List Record → List HeapItem → List (List Record) → List Record
after i s l rest fs = pending (pushed s l rest) (set fs i (behind l))

pub after-perm :
    (i : ℕ) (s : Source) (l : List Record) (rest : List HeapItem) (fs : List (List Record))
    → get_elem? fs i ≡ some l
    → Perm (pending rest fs) (after i s l rest fs)
after-perm i s [] rest fs e = rw (set_same fs i [] e) Perm.rfl
after-perm i s (r ∷ rs) rest fs e =
    Perm.trans (Perm.append_left (inners rest) (concat-set fs i r rs e))
      (perm_middle (inners rest) (concat (set fs i rs)))

pub after-From :
    (k : Key) (i : ℕ) (s : Source) (l : List Record) (rest : List HeapItem)
    (fs : List (List Record))
    → get_elem? fs i ≡ some l
    → Below k rest
    → All (From k) fs
    → From k (after i s l rest fs)
after-From k i s [] rest fs e b f =
    rw (set_same fs i [] e)
      (All-append _ (inners rest) _ (From-of_Below k rest b) (From-concat k fs f))
after-From k i s (r ∷ rs) rest fs e b f =
    let flow = All-get (From k) fs i (r ∷ rs) f e in
    (
      flow.0,
      All-append _ (inners rest) _ (From-of_Below k rest b)
          (From-concat k (set fs i rs) (All-set (From k) fs i rs f flow.1)),
    )

pub after-covered :
    (n : ℕ) (x : HeapItem) (l : List Record) (rest : List HeapItem) (fs : List (List Record))
    → get_elem? fs (slot n x.source) ≡ some l
    → All IsAscending fs
    → AllCovered n (x ∷ rest) 0 fs
    → AllCovered n (pushed x.source l rest) 0 (set fs (slot n x.source) (behind l))
after-covered n x [] rest fs e a c =
    rw (set_same fs (slot n x.source) [] e)
      (AllCovered-spent n 0 (slot n x.source) x rest fs c e (omega arith))
after-covered n x (r ∷ rs) rest fs e a c =
    AllCovered-set n 0 (slot n x.source) x (record { inner = r; source = x.source }) rest fs rs c a
      e (omega arith) (omega arith)

pub after-IsAscending :
    (i : ℕ) (l : List Record) (fs : List (List Record))
    → get_elem? fs i ≡ some l
    → All IsAscending fs
    → All IsAscending (set fs i (behind l))
after-IsAscending i [] fs e a = rw (set_same fs i [] e) a
after-IsAscending i (r ∷ rs) fs e a = IsAscending-set fs i r rs a e

module _ {E C : Type 0} {ops : Cursor E C} (yields : Yields ops) where
  pub IsSource-kept :
      (it it' : MergeIter C) (s : Source)
      → length it'.memtables ≡ length it.memtables
      → length it'.cursors ≡ length it.cursors
      → IsSource yields it s
      → IsSource yields it' s
  IsSource-kept it it' (memtable i) m c h = omega arith
  IsSource-kept it it' (sst i) m c h = omega arith

  pub slot_lt :
      (it : MergeIter C) (s : Source)
      → IsSource yields it s
      → slot (length it.memtables) s < length (flows yields it)
  slot_lt it (memtable i) h =
      omega (arith, length-append it.memtables (map yields.records it.cursors))
  slot_lt it (sst i) h = omega (
    arith,
    length-append it.memtables (map yields.records it.cursors),
    length-map yields.records it.cursors,
  )

  pub All-IsSource_kept :
      (it it' : MergeIter C) (rest : List HeapItem)
      → length it'.memtables ≡ length it.memtables
      → length it'.cursors ≡ length it.cursors
      → All (λ x. IsSource yields it x.source) rest
      → All (λ x. IsSource yields it' x.source) rest
  All-IsSource_kept it it' [] m c hs = tt
  All-IsSource_kept it it' (x ∷ rest) m c (k, ks) =
      (IsSource-kept it it' x.source m c k, All-IsSource_kept it it' rest m c ks)

  pub pushed-IsSource :
      (it it' : MergeIter C) (s : Source) (l : List Record) (rest : List HeapItem)
      → length it'.memtables ≡ length it.memtables
      → length it'.cursors ≡ length it.cursors
      → IsSource yields it s
      → All (λ x. IsSource yields it x.source) rest
      → All (λ x. IsSource yields it' x.source) (pushed s l rest)
  pushed-IsSource it it' s [] rest m c h hs = All-IsSource_kept it it' rest m c hs
  pushed-IsSource it it' s (r ∷ l) rest m c h hs =
      (IsSource-kept it it' s m c h, All-IsSource_kept it it' rest m c hs)
