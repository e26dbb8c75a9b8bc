-- ===== src/Lsm/Stored.antt =====
-- The memtables of the tree: what storing a record does to them.
use logregator.Common.{
  ◌≡◌, refl, ap, ◌∙◌, ◌⊎◌, inl, inr, true, none, some, List, [], ◌∷◌, ◌++◌, Outcome, ok, All,
}
use logregator.Counter.{inc_and_get}
use logregator.Lsm.{
  LsmError, FlushMemtablePayload, resume, LsmTree, IoEvent, flush_memtable, send, issue_flush,
  store, retry, after_append,
}
use logregator.Memtable.{Memtable, done, full, flushable, append, freeze}
use logregator.Memtable.Set.{find}
use logregator.Memtable.Size.{IsValid, append-IsValid, with_size_limit-IsValid}
use logregator.Record.{Record}
use logregator.Lsm.Put.{
  Put, append-cases, empty_like, put_insert, put_flushed, flushed_put, find-empty, flushed-IsValid,
  append_empty, append_empty_set,
}

module _ {H : Type 0} where
  abbrev pub tables : LsmTree H → List Memtable
  tables t = t.memtable ∷ t.frozen_memtables

  -- The tree behind a flush, and its message.
  abbrev flush_event : LsmTree H → IoEvent
  flush_event t = flush_memtable (record {
    memtable = flushable t.memtable;
    manifest_entries = t.stream_buffer;
    block_size_limit = t.block_size_limit;
  })

  abbrev frozen_tree : LsmTree H → LsmTree H
  frozen_tree t = record t {
    next_memtable_id = (inc_and_get t.next_memtable_id).1;
    memtable = empty_like t.memtable (inc_and_get t.next_memtable_id).0;
    frozen_memtables = t.frozen_memtables ++ (t.memtable ∷ []);
    stream_buffer = [];
    sent = t.sent ++ (flush_event t ∷ []);
  }

  issue_flush_lem : (t : LsmTree H) → t.connected ≡ true → issue_flush t ≡ (ok tt, frozen_tree t)
  unfolding issue_flush send freeze
  issue_flush_lem t c = rw c

  -- What storing a record does to the tree, when the channel is open and its key is new to the active
  -- table.
  pub record Stored (t : LsmTree H) (rec : Record) (out : Outcome LsmError (Unit {0}) × LsmTree H)
      : Type 0 where
    pub result : out.0 ≡ ok tt
    pub put : Put rec (tables t) (tables out.1)
    pub sent :
        (out.1.sent ≡ t.sent)
        ⊎ ((p : FlushMemtablePayload) × (out.1.sent ≡ t.sent ++ (flush_memtable p ∷ [])))
    pub same :
        (out.1.next_seq_num ≡ t.next_seq_num)
        × (out.1.next_stream_id ≡ t.next_stream_id)
        × (out.1.stream_reg ≡ t.stream_reg)
        × (out.1.connected ≡ t.connected)

  store_done :
      (t : LsmTree H) (rec : Record) (m : Memtable)
      → append t.memtable rec ≡ (m, done)
      → store rec t ≡ (ok tt, record t { memtable = m })
  unfolding store
  store_done t rec m e = rw e

  store_full :
      (t : LsmTree H) (rec : Record) (m : Memtable)
      → t.connected ≡ true
      → append t.memtable rec ≡ (m, full none)
      → store rec t ≡ (ok tt, frozen_tree (record t { memtable = m }))
  unfolding store
  store_full t rec m c e =
      ap (after_append t) e
      ∙ ap (resume (λ _. retry none)) (issue_flush_lem (record t { memtable = m }) c)

  store_retry :
      (t : LsmTree H) (rec : Record)
      → t.connected ≡ true
      → append t.memtable rec ≡ (t.memtable, full (some rec))
      → store rec t
        ≡ (ok tt, record (frozen_tree t) { memtable = (append (frozen_tree t).memtable rec).0 })
  unfolding store
  store_retry t rec c e =
      ap (after_append t) e
      ∙ ap (resume (λ _. retry (some rec))) (issue_flush_lem t c)
      ∙ rw (append_empty t.memtable (inc_and_get t.next_memtable_id).0 rec)

  -- On valid tables, with the channel open and the key new to the active table, storing a record
  -- succeeds and puts it, and nothing else, into the tables, also when the active table is frozen
  -- before or after it; at most one flush is sent.
  pub store_lem :
      (t : LsmTree H) (rec : Record)
      → t.connected ≡ true
      → All IsValid (tables t)
      → find rec.key t.memtable.set ≡ none
      → Stored t rec (store rec t)
  store_lem t rec c (v, vs) fresh = elim (append-cases t.memtable rec) [
    | inl (e, _) ↦
        let id = (inc_and_get t.next_memtable_id).0 in
        rw (store_retry t rec c e) (record {
          result = refl;
          put = flushed_put rec t.memtable _ id t.frozen_memtables (
              put_insert rec (empty_like t.memtable id) _ (t.frozen_memtables ++ (t.memtable ∷ []))
                (append_empty_set t.memtable id rec) (find-empty rec.key t.memtable id)
                (flushed-IsValid t.memtable id t.frozen_memtables (v, vs))
                (append-IsValid (empty_like t.memtable id) rec
                  (with_size_limit-IsValid id t.memtable.limit)));
          sent = inr (_, refl);
          same = (refl, refl, refl, refl);
        })
    | inr (s, inl e) ↦ rw (store_done t rec _ e) (record {
      result = refl;
      put =
          put_insert rec t.memtable _ t.frozen_memtables s fresh (v, vs)
            (append-IsValid t.memtable rec v);
      sent = inl refl;
      same = (refl, refl, refl, refl);
    })
    | inr (s, inr e) ↦ rw (store_full t rec _ c e) (record {
      result = refl;
      put = put_flushed rec t.memtable _ (inc_and_get t.next_memtable_id).0 t.frozen_memtables (
          put_insert rec t.memtable _ t.frozen_memtables s fresh (v, vs)
            (append-IsValid t.memtable rec v));
      sent = inr (_, refl);
      same = (refl, refl, refl, refl);
    })
  ]
