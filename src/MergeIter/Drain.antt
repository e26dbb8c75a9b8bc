-- ===== src/MergeIter/Drain.antt =====
-- Reading the iterator to its end.
use mathlib.Core.List.{Perm}
use mathlib.Core.List.Perm
use mathlib.Core.Path.{subst}
use logregator.Common.{
  ℕ, zero, suc, ◌<◌, ◌≡◌, sym, ap, ◌∙◌, inl, inr, List, [], ◌∷◌, none, some, ok, arith, ◌>>=◌, All,
  length, get_elem?, All-append_split, get_elem?_exists,
}
use logregator.Common.Perm.{length-perm}
use logregator.MergeIter.{fill_from_single, Cursor, MergeIter, next, next_popped, drain}
use logregator.MergeIter.Heap.{HeapItem, pop, select, inners, Below, select-perm, select-Below}
use logregator.MergeIter.Flows.{
  slot, concat, pending, From, IsAscending, AllCovered, AllCovered-select, AllCovered-From,
}
use logregator.MergeIter.Fill.{Yields, flows, IsSource, Refilled, fill_lem}
use logregator.Record.Order.{◌≼◌}
use logregator.Record.{Key, Record}
use logregator.MergeIter.After.{
  heap-cases, select-All, Below-of_From, From-of_concat, spent_lem, after-perm, after-From,
  after-covered, after-IsAscending, slot_lt, pushed-IsSource,
}

module _ {E C : Type 0} {ops : Cursor E C} (yields : Yields ops) where
  abbrev pub left : MergeIter C → List Record
  left it = pending it.minheap (flows yields it)

  -- The invariant of the iterator.
  pub record Holds (it : MergeIter C) : Type 0 where
    pub ascending : All IsAscending (flows yields it)
    pub covered : AllCovered (length it.memtables) it.minheap 0 (flows yields it)
    pub sources : All (λ x. IsSource yields it x.source) it.minheap
    pub good : All yields.good it.cursors

  -- What one call of `next` does when the heap has an item.
  record Taken (it it' : MergeIter C) (rec : Record) : Type 0 where
    holds : Holds it'
    perm : Perm (left it) (rec ∷ left it')
    least : From rec.key (left it')
    bounded : (k : Key) → From k (left it) → From k (rec ∷ left it')

  taken_lem :
      (it it' : MergeIter C) (x : HeapItem) (l : List Record) (rest : List HeapItem)
      → Refilled yields (record it { minheap = rest }) it' x.source l
      → get_elem? (flows yields it) (slot (length it.memtables) x.source) ≡ some l
      → All IsAscending (flows yields it)
      → AllCovered (length it.memtables) (x ∷ rest) 0 (flows yields it)
      → IsSource yields it x.source
      → All (λ y. IsSource yields it y.source) rest
      → Below x.inner.key (x ∷ rest)
      → Holds it'
        × Perm (pending rest (flows yields it)) (left it')
        × ((k : Key) → Below k rest → All (From k) (flows yields it) → From k (left it'))
  taken_lem it it' x l rest refilled e a c h hs b = (
    record {
      ascending =
          rw refilled.left
            (after-IsAscending (slot (length it.memtables) x.source) l (flows yields it) e a);
      covered =
          rw (refilled.memtables, refilled.left, refilled.heap)
            (after-covered (length it.memtables) x l rest (flows yields it) e a c);
      sources =
          rw refilled.heap (
            pushed-IsSource yields it it' x.source l rest refilled.memtables refilled.cursors h hs);
      good = refilled.good;
    },
    rw (refilled.heap, refilled.left)
        (after-perm (slot (length it.memtables) x.source) x.source l rest (flows yields it) e),
    λ k low f.
        rw (refilled.heap, refilled.left)
          (after-From k (slot (length it.memtables) x.source) x.source l rest (flows yields it) e
            low f),
  )

  heap_subst :
      (it : MergeIter C) (x : HeapItem) (xs : List HeapItem)
      → it.minheap ≡ x ∷ xs
      → Holds it
      → AllCovered (length it.memtables) (x ∷ xs) 0 (flows yields it)
        × IsSource yields it x.source
        × All (λ y. IsSource yields it y.source) xs
  heap_subst it x xs e h =
      let all = subst (All (λ y. IsSource yields it y.source)) e h.sources in
      (
        subst (λ t. AllCovered (length it.memtables) t 0 (flows yields it)) e h.covered,
        all.0,
        all.1,
      )

  stopped_lem : (it : MergeIter C) → it.minheap ≡ [] → next ops it ≡ ok (none, it)
  unfolding next pop next_popped
  stopped_lem it e = ap (λ t. next_popped ops it (pop t)) e

  called_lem :
      (it it' : MergeIter C) (x : HeapItem) (xs : List HeapItem)
      → it.minheap ≡ x ∷ xs
      → fill_from_single ops (record it { minheap = (select x xs).1 }) (select x xs).0.source
        ≡ ok it'
      → next ops it ≡ ok (some (select x xs).0.inner, it')
  unfolding next pop next_popped
  called_lem it it' x xs e filled =
      ap (λ t. next_popped ops it (pop t)) e
      ∙ ap (λ m. m >>= λ it'. ok (some (select x xs).0.inner, it')) filled

  Taken-select :
      (it it' : MergeIter C) (x : HeapItem) (xs : List HeapItem) (l : List Record)
      → Holds it
      → it.minheap ≡ x ∷ xs
      → AllCovered (length it.memtables) ((select x xs).0 ∷ (select x xs).1) 0 (flows yields it)
      → IsSource yields it (select x xs).0.source
      → All (λ y. IsSource yields it y.source) (select x xs).1
      → Refilled yields (record it { minheap = (select x xs).1 }) it' (select x xs).0.source l
      → get_elem? (flows yields it) (slot (length it.memtables) (select x xs).0.source) ≡ some l
      → Taken it it' (select x xs).0.inner
  Taken-select it it' x xs l h e c src srcs refilled el =
      let m = (select x xs).0.inner.key in
      let b = select-Below x xs in
      let low = select-All (λ y. m ≼ y.inner.key) x xs b.0 b.1 in
      let (holds, perm, from) =
        taken_lem it it' (select x xs).0 l (select x xs).1 refilled el h.ascending c src srcs low in
      let front = Perm.append_right (concat (flows yields it)) (select-perm x xs) in
      record {
        holds = holds;
        perm =
            subst (λ t. Perm (pending t (flows yields it)) ((select x xs).0.inner ∷ left it'))
              (sym e) (Perm.trans front (Perm.cons _ perm));
        least = from m low.1 (
            AllCovered-From (length it.memtables) 0 m ((select x xs).0 ∷ (select x xs).1)
              (flows yields it) low c h.ascending);
        bounded = λ k f.
            (let (heap, back) =
                All-append_split _ (inners (x ∷ xs)) (concat (flows yields it))
                  (subst (λ t. From k (pending t (flows yields it))) e f) in
              let all = Below-of_From k (x ∷ xs) heap in
              let (first, others) = select-All (λ y. k ≼ y.inner.key) x xs all.0 all.1 in
              (first, from k others (From-of_concat k (flows yields it) back)));
      }

  -- A call of `next` on a heap that has items.
  next_lem :
      (it : MergeIter C) (x : HeapItem) (xs : List HeapItem)
      → Holds it
      → it.minheap ≡ x ∷ xs
      → (it' : MergeIter C) × (next ops it ≡ ok (some (select x xs).0.inner, it'))
        × Taken it it' (select x xs).0.inner
  next_lem it x xs h e =
      let c =
        AllCovered-select (length it.memtables) 0 (flows yields it) x xs
          (heap_subst it x xs e h).0 in
      let src =
        select-All (λ y. IsSource yields it y.source) x xs (heap_subst it x xs e h).1
          (heap_subst it x xs e h).2 in
      let (l, el) =
        get_elem?_exists (flows yields it) (slot (length it.memtables) (select x xs).0.source)
          (slot_lt yields it (select x xs).0.source src.0) in
      let (it', filled, refilled) =
        fill_lem yields (record it { minheap = (select x xs).1 }) (select x xs).0.source l src.0
          h.good el in
      (
        it',
        called_lem it it' x xs e filled,
        Taken-select it it' x xs l h e c src.0 src.1 refilled el,
      )

  -- With fuel for one call more than there are records, the iterator hands out all of them, in
  -- ascending order of their keys, and then none.
  pub drain_bounded :
      (fuel : ℕ) (it : MergeIter C)
      → Holds it
      → length (left it) < fuel
      → (out : List Record) × (drain ops fuel it ≡ ok (some out))
        × Perm out (left it)
        × IsAscending out
        × ((k : Key) → From k (left it) → From k out)
  unfolding drain
  drain_bounded zero it h lt = absurd (omega arith)
  drain_bounded (suc fuel) it h lt = elim (heap-cases it.minheap) [
    | inl e ↦
        let none_left : left it ≡ [] =
          ap (λ t. pending t (flows yields it)) e
          ∙ spent_lem (length it.memtables) 0 (flows yields it) (rw e at h.covered) in
        ([], rw (stopped_lem it e), rw none_left Perm.rfl, tt, λ k f. tt)
    | inr (x, xs, e) ↦
        let (it', called, taken) = next_lem it x xs h e in
        let rec = (select x xs).0.inner in
        let (out, drained, perm, ascending, from) =
          drain_bounded fuel it' taken.holds (omega (arith, length-perm taken.perm)) in
        (
          rec ∷ out,
          rw (called, drained),
          Perm.trans (Perm.cons rec perm) (Perm.symm taken.perm),
          (from rec.key taken.least, ascending),
          λ k f. (let b = taken.bounded k f in (b.0, from k b.1)),
        )
  ]
