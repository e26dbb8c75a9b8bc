-- ===== src/Lsm/Labeled.antt =====
-- `LabeledIter` of logregator-tsdb/src/label.rs, and `LsmTree::range`.
use mathlib.Core.Option
use logregator.Common.{ℕ, zero, suc, Option, none, some, List, [], ◌∷◌, Outcome, ok, ◌>>=◌}
use logregator.Common.Bound.{Bound, included}
use logregator.Label.{Label, LabelMap}
use logregator.Label.Registry.{StreamRegistry, get_labelmap_by_stream, label_intersection}
use logregator.Lsm.{LsmTree}
use logregator.Memtable.{u64_max}
use logregator.MergeIter
use logregator.MergeIter.{Cursor, Handle, MergeIter}
use logregator.Record.{Key, Record}

pub record LabeledIter (C : Type 0) : Type 0 where
  pub stream_registry : StreamRegistry
  pub iters : List (MergeIter C)
  pub current : Option (MergeIter C)

unfoldable pub new : {C : Type 0} → List (MergeIter C) → StreamRegistry → LabeledIter C
new iters reg = record { stream_registry = reg; iters = iters; current = none }

abbrev pub Labeled : Type 0
Labeled = Option LabelMap × Record

-- A record with the labels of its stream.
abbrev pub labeled : StreamRegistry → Record → Labeled
labeled reg rec = (get_labelmap_by_stream reg rec.key.stream_id, rec)

-- The item for a record of the current merge iterator, which is kept.
abbrev pub handed :
    {C : Type 0} → LabeledIter C → Option Record × MergeIter C → Option Labeled × LabeledIter C
handed l (o, it) = (Option.map (labeled l.stream_registry) o, record l { current = some it })

module _ {E C : Type 0} (ops : Cursor E C) where
  -- The second half of `next`, with `current` set.
  abbrev pub next_of : LabeledIter C → MergeIter C → Outcome E (Option Labeled × LabeledIter C)
  next_of l it = MergeIter.next ops it >>= λ out. ok (handed l out)

  abbrev pub next_from :
      LabeledIter C
      → Option (MergeIter C)
      → List (MergeIter C)
      → Outcome E (Option Labeled × LabeledIter C)
  next_from l (some it) iters = next_of l it
  next_from l none [] = ok (none, l)
  next_from l none (it ∷ iters) = next_of (record l { iters = iters; current = some it }) it

  unfoldable pub next : LabeledIter C → Outcome E (Option Labeled × LabeledIter C)
  next l = next_from l l.current l.iters

  -- What `for item in iter` sees; `none` means that the fuel ran out.
  unfoldable pub drain : ℕ → LabeledIter C → Outcome E (Option (List Labeled))
  drain zero l = ok none
  drain (suc fuel) l = next l >>= λ out. elim out.0 [
    | none ↦ ok (some [])
    | some item ↦ drain fuel out.1 >>= λ rest. ok (Option.map (λ items. item ∷ items) rest)
  ]

-- The bounds of the keys of a stream in `range`.
abbrev pub first_key_of : ℕ → ℕ → Bound Key
first_key_of id start_t =
    included (record { stream_id = id; timestamp = start_t; sequence_num = 0; source_id = 0 })

abbrev pub last_key_of : ℕ → ℕ → Bound Key
last_key_of id end_t =
    included
      (record { stream_id = id; timestamp = end_t; sequence_num = u64_max; source_id = u64_max })

abbrev pub or_else : ℕ → Option ℕ → ℕ
or_else d none = d
or_else d (some n) = n

module _ {E C H : Type 0} (ops : Cursor E C) (handle : Handle E C H) where
  -- The `map` over the streams, and its `collect` into a `Result`.
  unfoldable pub merge_iters : LsmTree H → ℕ → ℕ → List ℕ → Outcome E (List (MergeIter C))
  merge_iters t start_t end_t [] = ok []
  merge_iters t start_t end_t (id ∷ ids) = do
    it ←
        MergeIter.new ops handle t.memtable t.frozen_memtables t.sst_handles
          (first_key_of id start_t) (last_key_of id end_t)
    its ← merge_iters t start_t end_t ids
    ok (it ∷ its)

  unfoldable pub range : LsmTree H → List Label → Option ℕ → Option ℕ → Outcome E (LabeledIter C)
  range t labels start_t end_t = do
    its ←
        merge_iters t (or_else 0 start_t) (or_else u64_max end_t)
          (label_intersection t.stream_reg labels)
    ok (new its t.stream_reg)
