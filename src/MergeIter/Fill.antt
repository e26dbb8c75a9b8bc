-- ===== src/MergeIter/Fill.antt =====
-- What filling from one source, and from all of them, does to the heap and to what is left.
use logregator.Common.{
  ℕ, zero, suc, ◌+◌, ◌<◌, ◌≡◌, refl, sym, ap, ◌∙◌, All, List, [], ◌∷◌, ◌++◌, Option, none, some,
  Outcome, ok, err, panic, arith, ◌>>=◌, map, length, get_elem?, set, length-set, set_same,
  get_elem?-append_left, get_elem?-append_right, set-append_left, set-append_right,
}
use logregator.MergeIter.{Cursor, MergeIter, fill_from_single, push_taken}
use logregator.MergeIter.Heap.{Source, memtable, sst}
use logregator.MergeIter.Flows.{slot, behind, pushed}
use logregator.Record.{Record}

-- One step of the iterator on a cursor: `next`, then `take_current`.
abbrev pub pull : {E C : Type 0} → Cursor E C → C → Outcome E (Option Record × C)
pull ops c = ops.next c >>= λ c'. ok (ops.take_current c')

-- The records that the steps of a good cursor yield.
pub record Yields {E C : Type 0} (ops : Cursor E C) : Type 1 where
  pub good : C → Type 0
  pub records : C → List Record
  pub spent :
      (c : C)
      → good c
      → records c ≡ []
      → (c' : C) × (pull ops c ≡ ok (none, c')) × (records c' ≡ []) × good c'
  pub step :
      (c : C) (r : Record) (rs : List Record)
      → good c
      → records c ≡ r ∷ rs
      → (c' : C) × (pull ops c ≡ ok (some r, c')) × (records c' ≡ rs) × good c'

-- With no good cursor there is nothing to show.
abbrev pub no_cursor : {E C : Type 0} (ops : Cursor E C) → Yields ops
no_cursor ops = record {
  good = λ c. ⊥;
  records = λ c. [];
  spent = λ c g h. absurd g;
  step = λ c r rs g h. absurd g;
}

module _ {E C : Type 0} {ops : Cursor E C} (yields : Yields ops) where
  abbrev pub flows : MergeIter C → List (List Record)
  flows it = it.memtables ++ map yields.records it.cursors

  set-map :
      (cs : List C) (i : ℕ) (c : C)
      → map yields.records (set cs i c) ≡ set (map yields.records cs) i (yields.records c)
  set-map [] i c = refl
  set-map (d ∷ cs) zero c = refl
  set-map (d ∷ cs) (suc i) c = ap (λ t. yields.records d ∷ t) (set-map cs i c)

  map-get :
      (cs : List C) (i : ℕ) (l : List Record)
      → All yields.good cs
      → get_elem? (map yields.records cs) i ≡ some l
      → (c : C) × (get_elem? cs i ≡ some c) × (yields.records c ≡ l) × yields.good c
  map-get [] i l g h = cc
  map-get (c ∷ cs) zero l (g, gs) h = (c, refl, ground arith, g)
  map-get (c ∷ cs) (suc i) l (g, gs) h = map-get cs i l gs h

  good-set :
      (cs : List C) (i : ℕ) (c : C)
      → All yields.good cs
      → yields.good c
      → All yields.good (set cs i c)
  good-set [] i c gs g = tt
  good-set (d ∷ cs) zero c (h, gs) g = (g, gs)
  good-set (d ∷ cs) (suc i) c (h, gs) g = (h, good-set cs i c gs g)

  -- The source exists.
  abbrev pub IsSource : MergeIter C → Source → Type 0
  IsSource it (memtable i) = i < length it.memtables
  IsSource it (sst i) = i < length it.cursors

  -- The source, with the records `l` left, gives the first of them to the heap.
  pub record Refilled (it it' : MergeIter C) (s : Source) (l : List Record) : Type 0 where
    pub heap : it'.minheap ≡ pushed s l it.minheap
    pub left : flows it' ≡ set (flows it) (slot (length it.memtables) s) (behind l)
    pub memtables : length it'.memtables ≡ length it.memtables
    pub cursors : length it'.cursors ≡ length it.cursors
    pub good : All yields.good it'.cursors

  left_lem :
      (it : MergeIter C) (i : ℕ) (c : C) (l : List Record)
      → yields.records c ≡ l
      → it.memtables ++ map yields.records (set it.cursors i c)
        ≡ set (flows it) (length it.memtables + i) l
  left_lem it i c l k =
      ap (λ t. it.memtables ++ t)
        (set-map it.cursors i c ∙ ap (set (map yields.records it.cursors) i) k)
      ∙ sym (set-append_right it.memtables _ (length it.memtables + i) i l refl)

  fill_memtable_lem :
      (it : MergeIter C) (i : ℕ) (l : List Record)
      → i < length it.memtables
      → All yields.good it.cursors
      → get_elem? (flows it) i ≡ some l
      → (it' : MergeIter C) × (fill_from_single ops it (memtable i) ≡ ok it')
        × Refilled it it' (memtable i) l
  unfolding fill_from_single
  fill_memtable_lem it i [] lt g h =
      let e = sym (get_elem?-append_left it.memtables _ i lt) ∙ h in
      (
        it,
        rw e,
        record {
          heap = refl;
          left = sym (set_same (flows it) i [] h);
          memtables = refl;
          cursors = refl;
          good = g;
        },
      )
  fill_memtable_lem it i (r ∷ rs) lt g h =
      let e = sym (get_elem?-append_left it.memtables _ i lt) ∙ h in
      (
        _,
        rw e,
        record {
          heap = refl;
          left = sym (set-append_left it.memtables _ i rs lt);
          memtables = length-set it.memtables i rs;
          cursors = refl;
          good = g;
        },
      )

  push-pull :
      (it : MergeIter C) (i : ℕ) (m : Outcome E C)
      → (m >>= λ c'. ok (push_taken ops it i (ops.take_current c')))
        ≡ ((m >>= λ c'. ok (ops.take_current c')) >>= λ out. ok (push_taken ops it i out))
  push-pull it i (ok c) = refl
  push-pull it i (err e) = refl
  push-pull it i panic = refl

  fill_sst_pulled :
      (it : MergeIter C) (i : ℕ) (c c' : C) (o : Option Record)
      → get_elem? it.cursors i ≡ some c
      → pull ops c ≡ ok (o, c')
      → fill_from_single ops it (sst i) ≡ ok (push_taken ops it i (o, c'))
  unfolding fill_from_single
  fill_sst_pulled it i c c' o e p = rw (e, push-pull it i (ops.next c), p)

  pub fill_sst_lem :
      (it : MergeIter C) (i : ℕ) (l : List Record)
      → All yields.good it.cursors
      → get_elem? (flows it) (length it.memtables + i) ≡ some l
      → (it' : MergeIter C) × (fill_from_single ops it (sst i) ≡ ok it') × Refilled it it' (sst i) l
  fill_sst_lem it i [] g h =
      let e = sym (get_elem?-append_right it.memtables _ _ i refl) ∙ h in
      let (c, e', k, gc) = map-get it.cursors i [] g e in
      let (c', p, k', gc') = yields.spent c gc k in
      (
        _,
        fill_sst_pulled it i c c' none e' p,
        record {
          heap = refl;
          left = left_lem it i c' [] k';
          memtables = refl;
          cursors = length-set it.cursors i c';
          good = good-set it.cursors i c' g gc';
        },
      )
  fill_sst_lem it i (r ∷ rs) g h =
      let e = sym (get_elem?-append_right it.memtables _ _ i refl) ∙ h in
      let (c, e', k, gc) = map-get it.cursors i (r ∷ rs) g e in
      let (c', p, k', gc') = yields.step c r rs gc k in
      (
        _,
        fill_sst_pulled it i c c' (some r) e' p,
        record {
          heap = refl;
          left = left_lem it i c' rs k';
          memtables = refl;
          cursors = length-set it.cursors i c';
          good = good-set it.cursors i c' g gc';
        },
      )

  pub fill_lem :
      (it : MergeIter C) (s : Source) (l : List Record)
      → IsSource it s
      → All yields.good it.cursors
      → get_elem? (flows it) (slot (length it.memtables) s) ≡ some l
      → (it' : MergeIter C) × (fill_from_single ops it s ≡ ok it') × Refilled it it' s l
  fill_lem it (memtable i) l lt g h = fill_memtable_lem it i l lt g h
  fill_lem it (sst i) l lt g h = fill_sst_lem it i l g h
