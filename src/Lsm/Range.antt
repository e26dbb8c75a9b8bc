-- ===== src/Lsm/Range.antt =====
-- `LsmTree::range`: what the iterator that it returns yields.
use mathlib.Core.Option
use logregator.Common.{
  ℕ, zero, suc, ◌≡◌, refl, ap, ◌∙◌, Option, none, some, List, [], ◌∷◌, Outcome, ok, err, panic,
  ◌>>=◌, map,
}
use logregator.Label.{Label}
use logregator.Label.Registry.{StreamRegistry}
use logregator.Lsm.{LsmTree}
use logregator.Lsm.Stored.{tables}
use logregator.Lsm.Labeled
use logregator.Lsm.Labeled.{LabeledIter, Labeled, labeled, handed, first_key_of, last_key_of}
use logregator.Memtable.{Memtable}
use logregator.Memtable.Size
use logregator.MergeIter
use logregator.MergeIter.{Cursor, MergeIter, open_cursors}
use logregator.MergeIter.Flows.{concat}
use logregator.MergeIter.New.{all_within}
use logregator.Record.{Record}

module _ {E C : Type 0} (ops : Cursor E C) (reg : StreamRegistry) where
  abbrev at : List (MergeIter C) → MergeIter C → LabeledIter C
  at its it = record { stream_registry = reg; iters = its; current = some it }

  -- The items of an iterator that were read.
  abbrev items : Outcome E (Option (List Record)) → Outcome E (Option (List Labeled))
  items out = out >>= λ o. ok (Option.map (map (labeled reg)) o)

  push_item :
      (rec : Record) (out : Outcome E (Option (List Record)))
      → (items out >>= λ rest. ok (Option.map (λ l. labeled reg rec ∷ l) rest))
        ≡ items (out >>= λ rest. ok (Option.map (λ l. rec ∷ l) rest))
  push_item rec (ok none) = refl
  push_item rec (ok (some l)) = refl
  push_item rec (err e) = refl
  push_item rec panic = refl

  -- One call of `next`, and the calls after it.
  abbrev again : ℕ → Option Labeled × LabeledIter C → Outcome E (Option (List Labeled))
  again fuel out = elim out.0 [
    | none ↦ ok (some [])
    | some item ↦ Labeled.drain ops fuel out.1 >>= λ rest. ok (Option.map (λ l. item ∷ l) rest)
  ]

  abbrev labeled_run :
      ℕ
      → LabeledIter C
      → Outcome E (Option Record × MergeIter C)
      → Outcome E (Option (List Labeled))
  labeled_run fuel l out = (out >>= λ o. ok (handed l o)) >>= again fuel

  abbrev plain_run : ℕ → Outcome E (Option Record × MergeIter C) → Outcome E (Option (List Record))
  plain_run fuel out = out >>= λ out. elim out.0 [
    | none ↦ ok (some [])
    | some rec ↦ MergeIter.drain ops fuel out.1 >>= λ rest. ok (Option.map (λ l. rec ∷ l) rest)
  ]

  run_lem :
      (fuel : ℕ) (its : List (MergeIter C)) (c : Option (MergeIter C))
      (out : Outcome E (Option Record × MergeIter C))
      → ((it : MergeIter C)
          → Labeled.drain ops fuel (at its it) ≡ items (MergeIter.drain ops fuel it))
      → labeled_run fuel (record { stream_registry = reg; iters = its; current = c }) out
        ≡ items (plain_run fuel out)
  run_lem fuel its c (ok (none, it)) h = refl
  run_lem fuel its c (ok (some rec, it)) h =
      ap (λ rest. rest >>= λ rest. ok (Option.map (λ l. labeled reg rec ∷ l) rest)) (h it)
      ∙ push_item rec (MergeIter.drain ops fuel it)
  run_lem fuel its c (err e) h = refl
  run_lem fuel its c panic h = refl

  drain-at :
      (fuel : ℕ) (its : List (MergeIter C)) (it : MergeIter C)
      → Labeled.drain ops fuel (at its it) ≡ items (MergeIter.drain ops fuel it)
  unfolding Labeled.drain MergeIter.drain Labeled.next
  drain-at zero its it = refl
  drain-at (suc fuel) its it =
      run_lem fuel its (some it) (MergeIter.next ops it) (drain-at fuel its)

  -- A labelled iterator over several merge iterators yields the records of the first of them, with the
  -- labels of their streams, and nothing of the others.
  pub drain-labeled :
      (fuel : ℕ) (it : MergeIter C) (its : List (MergeIter C))
      → Labeled.drain ops fuel (Labeled.new (it ∷ its) reg) ≡ items (MergeIter.drain ops fuel it)
  unfolding Labeled.drain Labeled.next Labeled.new MergeIter.drain
  drain-labeled zero it its = refl
  drain-labeled (suc fuel) it its =
      run_lem fuel its (some it) (MergeIter.next ops it) (drain-at fuel its)

-- The records of a stream between two times, by the tables that hold them.
abbrev pub of_stream : {H : Type 0} → LsmTree H → ℕ → ℕ → ℕ → List Record
of_stream t id start_t end_t =
    concat (all_within (first_key_of id start_t) (last_key_of id end_t) (tables t))
