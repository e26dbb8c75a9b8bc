-- ===== src/MergeIter/Flows.antt =====
-- What is left of the sources of the iterator, as one list of lists: the memtables, then the cursors.
use logregator.Common.{
  ℕ, zero, suc, ◌+◌, ◌<◌, ◌≡◌, ◌≢◌, ◌⊎◌, inl, inr, List, [], ◌∷◌, ◌++◌, some, arith, All, length,
  get_elem?, set,
}
use mathlib.Core.Path.{subst}
use mathlib.Core.List.{Perm, perm_middle}
use mathlib.Core.List.Perm
use logregator.Record.{Key, Record}
use logregator.Record.Order.{◌≼◌, le_trans}
use logregator.MergeIter.Heap.{HeapItem, Source, memtable, sst, select, inners, Below}

-- The place of a source in the list, with `n` memtables.
abbrev pub slot : ℕ → Source → ℕ
slot n (memtable i) = i
slot n (sst i) = n + i

abbrev pub concat : List (List Record) → List Record
concat [] = []
concat (f ∷ fs) = f ++ concat fs

-- The records that the iterator has still to hand out.
abbrev pub pending : List HeapItem → List (List Record) → List Record
pending heap flows = inners heap ++ concat flows

abbrev pub From : Key → List Record → Type 0
From k = All (λ r. k ≼ r.key)

-- What is left of a source after its next record, and the heap with that record.
abbrev pub behind : List Record → List Record
behind [] = []
behind (r ∷ rs) = rs

abbrev pub pushed : Source → List Record → List HeapItem → List HeapItem
pushed s [] heap = heap
pushed s (r ∷ rs) heap = record { inner = r; source = s } ∷ heap

-- A source in ascending order of keys.
abbrev pub IsAscending : List Record → Type 0
IsAscending [] = Unit
IsAscending (r ∷ rs) = From r.key rs × IsAscending rs

-- The heap has an item of source number `i` that is no larger than the next record of the source.
abbrev pub Covers : ℕ → ℕ → Record → List HeapItem → Type 0
Covers n i r [] = ⊥
Covers n i r (x ∷ xs) = ((slot n x.source ≡ i) × (x.inner.key ≼ r.key)) ⊎ Covers n i r xs

abbrev pub Covered : ℕ → List HeapItem → ℕ → List Record → Type 0
Covered n heap i [] = Unit
Covered n heap i (r ∷ rs) = Covers n i r heap

-- Every source that has records left is represented in the heap; sources are numbered from `k`.
abbrev pub AllCovered : ℕ → List HeapItem → ℕ → List (List Record) → Type 0
AllCovered n heap k [] = Unit
AllCovered n heap k (f ∷ fs) = Covered n heap k f × AllCovered n heap (suc k) fs

Covers-select :
    (n i : ℕ) (r : Record) (x : HeapItem) (xs : List HeapItem)
    → Covers n i r (x ∷ xs)
    → Covers n i r ((select x xs).0 ∷ (select x xs).1)
unfolding select
Covers-select n i r x [] h = h
Covers-select n i r x (y ∷ ys) h =
    ground (arith, Covers-select n i r x ys, Covers-select n i r y ys)

pub AllCovered-select :
    (n k : ℕ) (fs : List (List Record)) (x : HeapItem) (xs : List HeapItem)
    → AllCovered n (x ∷ xs) k fs
    → AllCovered n ((select x xs).0 ∷ (select x xs).1) k fs
AllCovered-select n k [] x xs h = tt
AllCovered-select n k ([] ∷ fs) x xs (h, hs) = (tt, AllCovered-select n (suc k) fs x xs hs)
AllCovered-select n k ((r ∷ rs) ∷ fs) x xs (h, hs) =
    (Covers-select n k r x xs h, AllCovered-select n (suc k) fs x xs hs)

Covers-From :
    (n i : ℕ) (m : Key) (r : Record) (heap : List HeapItem)
    → Below m heap
    → Covers n i r heap
    → m ≼ r.key
Covers-From n i m r [] b h = elim h [ ]
Covers-From n i m r (x ∷ xs) (b, bs) h = elim h [
  | inl c ↦ le_trans m x.inner.key r.key b c.1
  | inr c ↦ Covers-From n i m r xs bs c
]

pub From-trans : (a b : Key) (l : List Record) → a ≼ b → From b l → From a l
From-trans a b [] h k = tt
From-trans a b (r ∷ rs) h (k, ks) = (le_trans a b r.key h k, From-trans a b rs h ks)

-- A lower bound of the heap bounds everything that is left of the sources.
pub AllCovered-From :
    (n k : ℕ) (m : Key) (heap : List HeapItem) (fs : List (List Record))
    → Below m heap
    → AllCovered n heap k fs
    → All IsAscending fs
    → All (From m) fs
AllCovered-From n k m heap [] b c a = tt
AllCovered-From n k m heap ([] ∷ fs) b (c, cs) (a, ascending) =
    (tt, AllCovered-From n (suc k) m heap fs b cs ascending)
AllCovered-From n k m heap ((r ∷ rs) ∷ fs) b (c, cs) ((above, a), ascending) =
    let h = Covers-From n k m r heap b c in
    ((h, From-trans m r.key rs h above), AllCovered-From n (suc k) m heap fs b cs ascending)

-- Taking the next record of a source.
pub concat-set :
    (fs : List (List Record)) (i : ℕ) (r : Record) (rs : List Record)
    → get_elem? fs i ≡ some (r ∷ rs)
    → Perm (concat fs) (r ∷ concat (set fs i rs))
concat-set [] i r rs h = cc
concat-set (f ∷ fs) zero r rs h = let e : f ≡ r ∷ rs = ground arith in rw e Perm.rfl
concat-set (f ∷ fs) (suc i) r rs h =
    Perm.trans (Perm.append_left f (concat-set fs i r rs h)) (perm_middle f (concat (set fs i rs)))

-- The popped item, whose source is number `i`, is replaced by the next record of that source.
Covers-tail :
    (n i : ℕ) (r : Record) (x : HeapItem) (xs : List HeapItem)
    → slot n x.source ≢ i
    → Covers n i r (x ∷ xs)
    → Covers n i r xs
Covers-tail n i r x xs ne h = elim h [ inl c ↦ absurd (ne c.0) | inr c ↦ c ]

pub AllCovered-tail :
    (n k : ℕ) (x : HeapItem) (heap : List HeapItem) (fs : List (List Record))
    → slot n x.source < k
    → AllCovered n (x ∷ heap) k fs
    → AllCovered n heap k fs
AllCovered-tail n k x heap [] lt h = tt
AllCovered-tail n k x heap ([] ∷ fs) lt (h, hs) =
    (tt, AllCovered-tail n (suc k) x heap fs (omega arith) hs)
AllCovered-tail n k x heap ((r ∷ rs) ∷ fs) lt (h, hs) = (
  Covers-tail n k r x heap (λ e. omega arith) h,
  AllCovered-tail n (suc k) x heap fs (omega arith) hs,
)

pub AllCovered-cons :
    (n k : ℕ) (x : HeapItem) (heap : List HeapItem) (fs : List (List Record))
    → AllCovered n heap k fs
    → AllCovered n (x ∷ heap) k fs
AllCovered-cons n k x heap [] h = tt
AllCovered-cons n k x heap ([] ∷ fs) (h, hs) = (tt, AllCovered-cons n (suc k) x heap fs hs)
AllCovered-cons n k x heap ((r ∷ rs) ∷ fs) (h, hs) = (inr h, AllCovered-cons n (suc k) x heap fs hs)

-- One source more, after those that are counted.
pub AllCovered-append :
    (n k : ℕ) (heap : List HeapItem) (fs gs : List (List Record))
    → AllCovered n heap k fs
    → AllCovered n heap (k + length fs) gs
    → AllCovered n heap k (fs ++ gs)
AllCovered-append n k heap [] gs h hs = subst (λ j. AllCovered n heap j gs) (omega arith) hs
AllCovered-append n k heap (f ∷ fs) gs (h, hs) rest = (
  h,
  AllCovered-append n (suc k) heap fs gs hs
      (subst (λ j. AllCovered n heap j gs) (omega arith) rest),
)

-- The popped item `x` came from the source that now gives `y`, or that has nothing left.
pub AllCovered-set :
    (n k i : ℕ) (x y : HeapItem) (heap : List HeapItem) (fs : List (List Record)) (rs : List Record)
    → AllCovered n (x ∷ heap) k fs
    → All IsAscending fs
    → get_elem? fs i ≡ some (y.inner ∷ rs)
    → slot n x.source ≡ k + i
    → slot n y.source ≡ k + i
    → AllCovered n (y ∷ heap) k (set fs i rs)
AllCovered-set n k i x y heap [] rs h a e p q = cc
AllCovered-set n k zero x y heap (f ∷ fs) [] (h, hs) (a, ascending) e p q =
    (tt, AllCovered-cons n (suc k) y heap fs (AllCovered-tail n (suc k) x heap fs (omega arith) hs))
AllCovered-set n k zero x y heap (f ∷ fs) (r ∷ rs) (h, hs) (a, ascending) e p q =
    let above : IsAscending (y.inner ∷ r ∷ rs) =
      subst IsAscending {y = y.inner ∷ r ∷ rs} (ground arith) a in
    (
      inl (omega arith, above.0.0),
      AllCovered-cons n (suc k) y heap fs (AllCovered-tail n (suc k) x heap fs (omega arith) hs),
    )
AllCovered-set n k (suc i) x y heap ([] ∷ fs) rs (h, hs) (a, ascending) e p q =
    (tt, AllCovered-set n (suc k) i x y heap fs rs hs ascending e (omega arith) (omega arith))
AllCovered-set n k (suc i) x y heap ((r ∷ f) ∷ fs) rs (h, hs) (a, ascending) e p q = (
  inr (Covers-tail n k r x heap (λ c. omega arith) h),
  AllCovered-set n (suc k) i x y heap fs rs hs ascending e (omega arith) (omega arith),
)

pub AllCovered-spent :
    (n k i : ℕ) (x : HeapItem) (heap : List HeapItem) (fs : List (List Record))
    → AllCovered n (x ∷ heap) k fs
    → get_elem? fs i ≡ some []
    → slot n x.source ≡ k + i
    → AllCovered n heap k fs
AllCovered-spent n k i x heap [] h e p = tt
AllCovered-spent n k zero x heap ([] ∷ fs) (h, hs) e p =
    (tt, AllCovered-tail n (suc k) x heap fs (omega arith) hs)
AllCovered-spent n k zero x heap ((r ∷ f) ∷ fs) (h, hs) e p = cc
AllCovered-spent n k (suc i) x heap ([] ∷ fs) (h, hs) e p =
    (tt, AllCovered-spent n (suc k) i x heap fs hs e (omega arith))
AllCovered-spent n k (suc i) x heap ((r ∷ f) ∷ fs) (h, hs) e p = (
  Covers-tail n k r x heap (λ c. omega arith) h,
  AllCovered-spent n (suc k) i x heap fs hs e (omega arith),
)

pub IsAscending-set :
    (fs : List (List Record)) (i : ℕ) (r : Record) (rs : List Record)
    → All IsAscending fs
    → get_elem? fs i ≡ some (r ∷ rs)
    → All IsAscending (set fs i rs)
IsAscending-set [] i r rs a e = tt
IsAscending-set (f ∷ fs) zero r rs (a, ascending) e =
    let whole : IsAscending (r ∷ rs) = subst IsAscending {y = r ∷ rs} (ground arith) a in
    (whole.1, ascending)
IsAscending-set (f ∷ fs) (suc i) r rs (a, ascending) e = (a, IsAscending-set fs i r rs ascending e)
