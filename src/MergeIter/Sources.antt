-- ===== src/MergeIter/Sources.antt =====
-- The iterator as `new` leaves it: every source has given its first record to the heap.
use mathlib.Core.List.{Perm}
use mathlib.Core.List.Perm
use mathlib.Core.Path.{subst}
use logregator.Common.{
  ℕ, zero, suc, ◌+◌, ◌<◌, ◌≤◌, ◌≡◌, refl, sym, ap, ◌∙◌, inl, inr, List, [], ◌∷◌, some, ok, arith,
  ◌>>=◌, All, length, get_elem?, set, take, take_all, length-append, length-map, get_elem?_exists,
  map,
}
use logregator.Common.Perm.{length-perm}
use logregator.MergeIter.{drain, Cursor, MergeIter, fill_from_single, fill_each, fill_from_all}
use logregator.MergeIter.Heap.{HeapItem, Source, memtable, sst}
use logregator.MergeIter.Flows.{
  slot, behind, pushed, pending, concat, IsAscending, Covered, AllCovered,
}
use logregator.MergeIter.Fill.{Yields, flows, IsSource, Refilled, fill_lem}
use logregator.MergeIter.Drain.{Holds, left, drain_bounded}
use logregator.MergeIter.After.{pushed-IsSource, slot_lt, after-perm, after-IsAscending, All-get}
use logregator.Record.{Record}

Covered-pushed :
    (n i : ℕ) (s : Source) (l : List Record) (heap : List HeapItem) (f : List Record)
    → Covered n heap i f
    → Covered n (pushed s l heap) i f
Covered-pushed n i s l heap [] h = tt
Covered-pushed n i s [] heap (r ∷ f) h = h
Covered-pushed n i s (q ∷ l) heap (r ∷ f) h = inr h

-- One source more, number `k`, is represented.
AllCovered-take :
    (n j k : ℕ) (s : Source) (l : List Record) (heap : List HeapItem) (fs : List (List Record))
    → AllCovered n heap j (take k fs)
    → get_elem? fs k ≡ some l
    → IsAscending l
    → slot n s ≡ j + k
    → AllCovered n (pushed s l heap) j (take (suc k) (set fs k (behind l)))
AllCovered-take n j k s l heap [] h e a p = cc
AllCovered-take n j zero s [] heap (f ∷ fs) h e a p = (tt, tt)
AllCovered-take n j zero s (r ∷ []) heap (f ∷ fs) h e a p = (tt, tt)
AllCovered-take n j zero s (r ∷ q ∷ l) heap (f ∷ fs) h e a p = (inl (omega arith, a.0.0), tt)
AllCovered-take n j (suc k) s l heap (f ∷ fs) (h, hs) e a p =
    (Covered-pushed n j s l heap f h, AllCovered-take n (suc j) k s l heap fs hs e a (omega arith))

module _ {E C : Type 0} {ops : Cursor E C} (yields : Yields ops) where
  -- The first `k` sources are represented in the heap.
  record Filled (k : ℕ) (it : MergeIter C) : Type 0 where
    ascending : All IsAscending (flows yields it)
    covered : AllCovered (length it.memtables) it.minheap 0 (take k (flows yields it))
    sources : All (λ x. IsSource yields it x.source) it.minheap
    good : All yields.good it.cursors

  -- Filling keeps the sources and moves records from them to the heap.
  record Moved (k : ℕ) (it it' : MergeIter C) : Type 0 where
    filled : Filled k it'
    perm : Perm (left yields it) (left yields it')
    memtables : length it'.memtables ≡ length it.memtables
    cursors : length it'.cursors ≡ length it.cursors

  Moved-Refilled :
      (k : ℕ) (it it' : MergeIter C) (s : Source) (l : List Record)
      → Filled k it
      → slot (length it.memtables) s ≡ k
      → IsSource yields it s
      → get_elem? (flows yields it) k ≡ some l
      → Refilled yields it it' s l
      → Moved (suc k) it it'
  Moved-Refilled k it it' s l h p src e refilled =
      let left_k = refilled.left ∙ ap (λ t. set (flows yields it) t (behind l)) p in
      record {
        filled = record {
          ascending = rw left_k (after-IsAscending k l (flows yields it) e h.ascending);
          covered =
              rw (refilled.memtables, left_k, refilled.heap)
                (AllCovered-take (length it.memtables) 0 k s l it.minheap (flows yields it)
                  h.covered e (All-get IsAscending (flows yields it) k l h.ascending e)
                  (omega arith));
          sources = rw refilled.heap (
              pushed-IsSource yields it it' s l it.minheap refilled.memtables refilled.cursors src
                h.sources);
          good = refilled.good;
        };
        perm = rw (refilled.heap, left_k) (after-perm k s l it.minheap (flows yields it) e);
        memtables = refilled.memtables;
        cursors = refilled.cursors;
      }

  -- The sources `source j` for `j < top` are numbered from `base` on.
  abbrev Numbers : (ℕ → Source) → ℕ → ℕ → ℕ → ℕ → Type 0
  Numbers source base top n c =
      (it : MergeIter C) (j : ℕ)
      → length it.memtables ≡ n
      → length it.cursors ≡ c
      → j < top
      → IsSource yields it (source j) × (slot n (source j) ≡ base + j)

  Moved-trans :
      (k j : ℕ) (it it1 it2 : MergeIter C) → Moved j it it1 → Moved k it1 it2 → Moved k it it2
  Moved-trans k j it it1 it2 a b = record {
    filled = b.filled;
    perm = Perm.trans a.perm b.perm;
    memtables = b.memtables ∙ a.memtables;
    cursors = b.cursors ∙ a.cursors;
  }

  fill_each-suc :
      (source : ℕ → Source) (from m : ℕ) (it it1 it2 : MergeIter C)
      → fill_from_single ops it (source from) ≡ ok it1
      → fill_each ops source (suc from) m it1 ≡ ok it2
      → fill_each ops source from (suc m) it ≡ ok it2
  unfolding fill_each
  fill_each-suc source from m it it1 it2 e h = rw (e, h)

  fill_each_lem :
      (source : ℕ → Source) (base top n c from m : ℕ) (it : MergeIter C)
      → Numbers source base top n c
      → from + m ≡ top
      → length it.memtables ≡ n
      → length it.cursors ≡ c
      → Filled (base + from) it
      → (it' : MergeIter C) × (fill_each ops source from m it ≡ ok it') × Moved (base + top) it it'
  unfolding fill_each
  fill_each_lem source base top n c from zero it numbers e en ec h = (
    it,
    refl,
    record {
      filled = subst (λ k. Filled k it) (omega arith) h;
      perm = Perm.rfl;
      memtables = refl;
      cursors = refl;
    },
  )
  fill_each_lem source base top n c from (suc m) it numbers e en ec h =
      let (src, p) = numbers it from en ec (omega arith) in
      let place : slot (length it.memtables) (source from) ≡ base + from =
        ap (λ t. slot t (source from)) en ∙ p in
      let (l, el) =
        get_elem?_exists (flows yields it) (base + from)
          (omega (arith, slot_lt yields it (source from) src, place)) in
      let (it', filled, refilled) = fill_lem yields it (source from) l src h.good (rw place el) in
      let moved = Moved-Refilled (base + from) it it' (source from) l h place src el refilled in
      let (it2, rest, moved2) =
        fill_each_lem source base top n c (suc from) m it' numbers (omega arith)
          (moved.memtables ∙ en) (moved.cursors ∙ ec)
          (subst (λ k. Filled k it') (omega arith) moved.filled) in
      (
        it2,
        fill_each-suc source from m it it' it2 filled rest,
        Moved-trans (base + top) (suc (base + from)) it it' it2 moved moved2,
      )

  both_filled :
      (it it1 it2 : MergeIter C)
      → fill_each ops memtable 0 (length it.memtables) it ≡ ok it1
      → length it1.cursors ≡ length it.cursors
      → fill_each ops sst 0 (length it.cursors) it1 ≡ ok it2
      → fill_from_all ops it ≡ ok it2
  unfolding fill_from_all
  both_filled it it1 it2 first len second =
      ap (λ m. m >>= λ t. fill_each ops sst 0 (length t.cursors) t) first
      ∙ ap (λ k. fill_each ops sst 0 k it1) len
      ∙ second

  Holds-of_Filled :
      (k : ℕ) (it : MergeIter C) → Filled k it → length (flows yields it) ≤ k → Holds yields it
  Holds-of_Filled k it h le = record {
    ascending = h.ascending;
    covered =
        subst (λ fs. AllCovered (length it.memtables) it.minheap 0 fs)
          (take_all k (flows yields it) le) h.covered;
    sources = h.sources;
    good = h.good;
  }

  from_empty :
      (it : MergeIter C) → it.minheap ≡ [] → Perm (concat (flows yields it)) (left yields it)
  from_empty it e =
      subst (λ t. Perm (concat (flows yields it)) (pending t (flows yields it))) (sym e) Perm.rfl

  drained :
      (it it' : MergeIter C)
      → Perm (concat (flows yields it)) (left yields it')
      → Holds yields it'
      → (fuel : ℕ) → length (concat (flows yields it)) < fuel
      → (out : List Record) × (drain ops fuel it' ≡ ok (some out))
        × Perm out (concat (flows yields it))
        × IsAscending out
  drained it it' perm holds fuel lt =
      let (out, run, same, ascending, bounded) =
        drain_bounded yields fuel it' holds (omega (arith, length-perm perm)) in
      (out, run, Perm.trans same (Perm.symm perm), ascending)

  fill_from_all_lem :
      (it : MergeIter C)
      → it.minheap ≡ []
      → All IsAscending (flows yields it)
      → All yields.good it.cursors
      → (it' : MergeIter C) × (fill_from_all ops it ≡ ok it')
        × Holds yields it'
        × Perm (concat (flows yields it)) (left yields it')
  unfolding fill_from_all
  fill_from_all_lem it e a g =
      let n = length it.memtables in
      let c = length it.cursors in
      let (it1, first, moved1) =
        fill_each_lem memtable 0 n n c 0 n it (λ it j en ec lt. (omega arith, omega arith))
          (omega arith) refl refl
          (record { ascending = a; covered = tt; sources = rw e tt; good = g }) in
      let (it2, second, moved2) =
        fill_each_lem sst n c n c 0 c it1 (λ it j en ec lt. (omega arith, refl)) (omega arith)
          moved1.memtables moved1.cursors (subst (λ k. Filled k it1) (omega arith) moved1.filled) in
      (
        it2,
        both_filled it it1 it2 first moved1.cursors second,
        Holds-of_Filled (n + c) it2 moved2.filled (
            omega (
              arith,
              length-append it2.memtables (map yields.records it2.cursors),
              length-map yields.records it2.cursors,
              moved1.memtables,
              moved1.cursors,
              moved2.memtables,
              moved2.cursors,
            )),
        Perm.trans (from_empty it e) (Perm.trans moved1.perm moved2.perm),
      )

  -- Reading an iterator to its end after its sources were filled.
  pub drain_filled :
      (it : MergeIter C)
      → it.minheap ≡ []
      → All IsAscending (flows yields it)
      → All yields.good it.cursors
      → (it' : MergeIter C) × (fill_from_all ops it ≡ ok it')
        × ((fuel : ℕ)
            → length (concat (flows yields it)) < fuel
            → (out : List Record) × (drain ops fuel it' ≡ ok (some out))
              × Perm out (concat (flows yields it))
              × IsAscending out)
  drain_filled it e a g =
      let (it', filled, holds, perm) = fill_from_all_lem it e a g in
      (it', filled, λ fuel lt. drained it it' perm holds fuel lt)
