-- ===== src/Lsm/Registered.antt =====
-- The streams of the tree: what the loop of `append_batch` keeps true of the registry.
use logregator.Common.{
  ℕ, ◌+◌, ◌^◌, ◌<◌, ◌≤◌, ◌≡◌, refl, ap, inl, inr, ==_iff, false, Bool-cases, Option-cases, none,
  some, [], ◌∷◌, ◌++◌, ok, arith,
}
use logregator.Counter.{inc_and_get}
use logregator.Label.{LabelMap, same_labelmap}
use logregator.Label.Registry.{StreamRegistry, get_stream_id_by_labelmap, get_labelmap_by_stream}
use logregator.Label.Registry
use logregator.Label.Registry.Insert.{insert_lem, same_labelmap-Decides}
use logregator.Lsm.{LsmTree, resolve}
use logregator.Manifest.{ManifestEntry}
use logregator.Manifest.Codec.{new_stream_update}

-- Streams and label maps stand for each other, and the streams are below `bound`.
pub record IsConsistent (bound : ℕ) (r : StreamRegistry) : Type 0 where
  pub of_stream :
      (id : ℕ) (m : LabelMap)
      → get_labelmap_by_stream r id ≡ some m
      → get_stream_id_by_labelmap r m ≡ some id
  pub of_labels :
      (m : LabelMap) (id : ℕ)
      → get_stream_id_by_labelmap r m ≡ some id
      → get_labelmap_by_stream r id ≡ some m
  pub below : (id : ℕ) (m : LabelMap) → get_labelmap_by_stream r id ≡ some m → id < bound

pub insert-IsConsistent :
    (bound : ℕ) (r : StreamRegistry) (m : LabelMap)
    → IsConsistent bound r
    → get_stream_id_by_labelmap r m ≡ none
    → IsConsistent (bound + 1) (Registry.insert r bound m)
insert-IsConsistent bound r m c none_yet =
    let (by_stream, by_labels, _) = insert_lem r bound m in
    let differs : (n : LabelMap) (id : ℕ)
        → get_stream_id_by_labelmap r n ≡ some id
        → same_labelmap n m ≡ false =
      λ n id h. elim (Bool-cases (same_labelmap n m)) [
        | inl e ↦ cc (h, none_yet, (same_labelmap-Decides n m).0 e)
        | inr e ↦ e
      ] in
    record {
      of_stream = λ id n h. ground (
        arith,
        by_stream id,
        by_labels n,
        c.of_stream id n,
        (same_labelmap-Decides n m).1,
        differs n id,
        ==_iff id bound,
      );
      of_labels = λ n id h. ground (
        arith,
        by_stream id,
        by_labels n,
        c.of_labels n id,
        (same_labelmap-Decides n m).0,
        c.below id n,
        ==_iff id bound,
      );
      below = λ id n h. ground (arith, by_stream id, c.below id n, ==_iff id bound);
    }

-- The label map is one that `ManifestEntry::stream_update` takes.
abbrev pub IsAccepted : LabelMap → Type 0
IsAccepted m = (id : ℕ) → (e : ManifestEntry) × (new_stream_update id m ≡ some e)

module _ {H : Type 0} where
  -- What finding or making a stream leaves as it is.
  pub record SameTables (t t' : LsmTree H) : Type 0 where
    pub memtable : t'.memtable ≡ t.memtable
    pub frozen : t'.frozen_memtables ≡ t.frozen_memtables
    pub sent : t'.sent ≡ t.sent
    pub connected : t'.connected ≡ t.connected
    pub seq : t'.next_seq_num ≡ t.next_seq_num

  abbrev pub Consistent : LsmTree H → Type 0
  Consistent t = IsConsistent t.next_stream_id.current t.stream_reg

  pub record Resolved (t : LsmTree H) (m : LabelMap) (id : ℕ) : Type 0 where
    pub result : (resolve m t).0 ≡ ok id
    pub registered : get_stream_id_by_labelmap (resolve m t).1.stream_reg m ≡ some id
    pub labelled : get_labelmap_by_stream (resolve m t).1.stream_reg id ≡ some m
    pub next : (resolve m t).1.next_stream_id.current ≤ t.next_stream_id.current + 1
    pub consistent : Consistent (resolve m t).1
    pub kept :
        (i : ℕ) (n : LabelMap)
        → get_labelmap_by_stream t.stream_reg i ≡ some n
        → get_labelmap_by_stream (resolve m t).1.stream_reg i ≡ some n
    pub same : SameTables t (resolve m t).1

  resolve_known :
      (t : LsmTree H) (m : LabelMap) (id : ℕ)
      → Consistent t
      → get_stream_id_by_labelmap t.stream_reg m ≡ some id
      → resolve m t ≡ (ok id, t)
  unfolding resolve
  resolve_known t m id c e = rw (e, c.of_labels m id e, (same_labelmap-Decides m m).1 refl)

  resolve_new :
      (t : LsmTree H) (m : LabelMap) (update : ManifestEntry)
      → get_stream_id_by_labelmap t.stream_reg m ≡ none
      → new_stream_update t.next_stream_id.current m ≡ some update
      → resolve m t ≡ (
        ok t.next_stream_id.current,
        record t {
          next_stream_id = (inc_and_get t.next_stream_id).1;
          stream_reg = Registry.insert t.stream_reg t.next_stream_id.current m;
          stream_buffer = t.stream_buffer ++ (update ∷ []);
        },
      )
  unfolding resolve
  resolve_new t m update e u = rw (e, u)

  -- With a consistent registry and room for one stream more, a label map that the manifest accepts is
  -- given its stream, the registry stays consistent, and nothing else but the manifest entries changes.
  pub resolve_lem :
      (t : LsmTree H) (m : LabelMap)
      → Consistent t
      → t.next_stream_id.current + 1 < 2 ^ 64
      → IsAccepted m
      → (id : ℕ) × Resolved t m id
  resolve_lem t m c room accepted = elim (Option-cases (get_stream_id_by_labelmap t.stream_reg m)) [
    | inl e ↦
        let (update, u) = accepted t.next_stream_id.current in
        let id = t.next_stream_id.current in
        let run = resolve_new t m update e u in
        let (by_stream, by_labels, _) = insert_lem t.stream_reg id m in
        let one_more : (inc_and_get t.next_stream_id).1.current ≡ id + 1 =
          unfold inc_and_get in omega arith in
        (
          id,
          record {
            result = ap (λ p. p.0) run;
            registered = rw run (rw (by_labels m, (same_labelmap-Decides m m).1 refl));
            labelled = rw run (rw (by_stream id, (==_iff id id).1 refl));
            next = rw (run, one_more) (omega arith);
            consistent = rw (run, one_more) (insert-IsConsistent id t.stream_reg m c e);
            kept = λ i n h. rw run (ground (arith, by_stream i, c.below i n, ==_iff i id));
            same = rw run (record {
              memtable = refl;
              frozen = refl;
              sent = refl;
              connected = refl;
              seq = refl;
            });
          },
        )
    | inr (id, e) ↦
        let run = resolve_known t m id c e in
        (
          id,
          record {
            result = ap (λ p. p.0) run;
            registered = rw run e;
            labelled = rw run (c.of_labels m id e);
            next = rw run (omega arith);
            consistent = rw run c;
            kept = λ i n h. rw run h;
            same = rw run (record {
              memtable = refl;
              frozen = refl;
              sent = refl;
              connected = refl;
              seq = refl;
            });
          },
        )
  ]
