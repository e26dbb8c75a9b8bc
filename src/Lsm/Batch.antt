-- ===== src/Lsm/Batch.antt =====
-- `append_batch`: a whole batch of payloads.
use mathlib.Core.Path.{subst}
use logregator.Common.{
  ℕ, suc, ◌+◌, ◌<◌, ◌^◌, ◌≡◌, refl, sym, ap, ◌∙◌, ◌⊎◌, inl, inr, true, some, List, [], ◌∷◌, ◌++◌,
  append-nil, ok, arith, length, All,
}
use logregator.Codec.{SpecCodec}
use logregator.Label.{LabelMap}
use logregator.Label.Registry.{StreamRegistry, get_labelmap_by_stream}
use logregator.Lsm.{
  LsmTree, IoEvent, fsync_wal, resume, send, append_payload, append_all, append_batch,
}
use logregator.Lsm.Append.{
  Logged-append, Sent, Sent-append, IsValid, IsGood, Appended, record_of, append_payload_lem,
}
use logregator.Lsm.Put.{Has}
use logregator.Lsm.Stored.{tables}
use logregator.Record.{Record}

-- Every payload is good, with the label map and the length of its labels at the same place of `ls`.
abbrev pub AllGood : SpecCodec LabelMap → List (List ℕ × ℕ) → List (LabelMap × ℕ) → Type 0
AllGood label_codec [] [] = Unit
AllGood label_codec [] (l ∷ ls) = ⊥
AllGood label_codec (p ∷ ps) [] = ⊥
AllGood label_codec ((payload, now) ∷ ps) ((m, n) ∷ ls) =
    IsGood label_codec payload m n × AllGood label_codec ps ls

-- The records of the payloads: their bytes behind the labels, with the time, the source and successive
-- sequence numbers, under a stream that the registry knows by the label map.
abbrev pub Recorded :
    ℕ → ℕ → StreamRegistry → List (List ℕ × ℕ) → List (LabelMap × ℕ) → List Record → Type 0
Recorded source_id seq reg [] [] [] = Unit
Recorded source_id seq reg ((payload, now) ∷ ps) ((m, n) ∷ ls) (r ∷ rs) =
    (r ≡ record_of r.key.stream_id now seq source_id payload n)
    × (get_labelmap_by_stream reg r.key.stream_id ≡ some m)
    × Recorded source_id (suc seq) reg ps ls rs
Recorded source_id seq reg _ _ _ = ⊥

abbrev pub Among : Record → List Record → Type 0
Among r [] = ⊥
Among r (q ∷ qs) = (r ≡ q) ⊎ Among r qs

-- The records were sent to the log, and then, once, the request to write it to disk.
abbrev pub SentAndSynced : List IoEvent → List IoEvent → List Record → Type 0
SentAndSynced before after rs =
    (mid : List IoEvent) × Sent before mid rs × (after ≡ mid ++ (fsync_wal ∷ []))

module _ {H : Type 0} (label_codec : SpecCodec LabelMap) (source_id : ℕ) where
  -- What the batch of the records `rs` does to a tree.
  pub record Batch (t t' : LsmTree H) (rs : List Record) : Type 0 where
    pub kept : (r : Record) → Has r (tables t) → Has r (tables t')
    pub only : (r : Record) → Has r (tables t') → Has r (tables t) ⊎ Among r rs
    pub held : All (λ r. Has r (tables t')) rs
    pub labels :
        (i : ℕ) (n : LabelMap)
        → get_labelmap_by_stream t.stream_reg i ≡ some n
        → get_labelmap_by_stream t'.stream_reg i ≡ some n
    pub valid : IsValid t'
    pub connected : t'.connected ≡ t.connected

  append_all_cons :
      (p : List ℕ × ℕ) (ps : List (List ℕ × ℕ)) (t : LsmTree H)
      → (append_payload label_codec source_id p t).0 ≡ ok tt
      → append_all label_codec source_id (p ∷ ps) t
        ≡ append_all label_codec source_id ps (append_payload label_codec source_id p t).1
  unfolding append_all
  append_all_cons p ps t e =
      ap
        (λ o.
          resume (λ _. append_all label_codec source_id ps)
            (o, (append_payload label_codec source_id p t).1))
        e

  Batch-cons :
      (t t1 t2 : LsmTree H) (r : Record) (rs : List Record) (m : LabelMap)
      → Appended t t1 r m
      → Batch t1 t2 rs
      → Batch t t2 (r ∷ rs)
  Batch-cons t t1 t2 r rs m a b = record {
    kept = λ q h. b.kept q (a.put.kept q h);
    only = λ q h. elim (b.only q h) [
      | inl k ↦ elim (a.put.only q k) [ inl x ↦ inl x | inr x ↦ inr (inl x) ]
      | inr k ↦ inr (inr k)
    ];
    held = (b.kept r a.put.added, b.held);
    labels = λ i n h. b.labels i n (a.kept i n h);
    valid = b.valid;
    connected = b.connected ∙ a.connected;
  }

  pub append_all_lem :
      (ps : List (List ℕ × ℕ)) (ls : List (LabelMap × ℕ)) (t : LsmTree H)
      → IsValid t
      → t.connected ≡ true
      → t.next_stream_id.current + length ps < 2 ^ 64
      → t.next_seq_num.current + length ps < 2 ^ 64
      → AllGood label_codec ps ls
      → (rs : List Record) × ((append_all label_codec source_id ps t).0 ≡ ok tt)
        × Batch t (append_all label_codec source_id ps t).1 rs
        × Recorded source_id t.next_seq_num.current
            (append_all label_codec source_id ps t).1.stream_reg
            ps
            ls
            rs
        × Sent t.sent (append_all label_codec source_id ps t).1.sent rs
  unfolding append_all
  append_all_lem [] [] t v c x y g = (
    [],
    refl,
    record {
      kept = λ r h. h;
      only = λ r h. inl h;
      held = tt;
      labels = λ i n h. h;
      valid = v;
      connected = refl;
    },
    tt,
    ([], sym (append-nil t.sent), refl, refl),
  )
  append_all_lem [] (l ∷ ls) t v c x y g = absurd g
  append_all_lem (p ∷ ps) [] t v c x y g = absurd g
  append_all_lem ((payload, now) ∷ ps) ((m, n) ∷ ls) t v c x y (g, gs) =
      let (id, done, a) =
        append_payload_lem label_codec t source_id now n payload m v c (omega arith) (omega arith)
          g in
      let (rs, finished, batch, recorded, sent) =
        append_all_lem ps ls (append_payload label_codec source_id (payload, now) t).1 a.valid
          (a.connected ∙ c) (omega (arith, a.streams)) (omega (arith, a.seq)) gs in
      let rec = record_of id now t.next_seq_num.current source_id payload n in
      let whole = append_all_cons (payload, now) ps t done in
      (
        rec ∷ rs,
        ap (λ o. o.0) whole ∙ finished,
        subst (λ o. Batch t o.1 (rec ∷ rs)) (sym whole) (Batch-cons t _ _ rec rs m a batch),
        subst
            (λ o.
              Recorded source_id t.next_seq_num.current o.1.stream_reg ((payload, now) ∷ ps)
                ((m, n) ∷ ls) (rec ∷ rs))
            (sym whole)
            (
              refl,
              batch.labels id m a.labelled,
              subst
                  (λ q.
                    Recorded source_id q
                      (append_all label_codec source_id ps
                        (append_payload label_codec source_id (payload, now) t).1).1.stream_reg
                      ps ls rs)
                  {y = suc t.next_seq_num.current} (omega (arith, a.seq)) recorded,
            ),
        subst (λ o. Sent t.sent o.1.sent (rec ∷ rs)) (sym whole)
            (Sent-append t.sent _ _ (rec ∷ []) rs a.sent sent),
      )

  append_batch_run :
      (ps : List (List ℕ × ℕ)) (t t1 : LsmTree H)
      → append_all label_codec source_id ps t ≡ (ok tt, t1)
      → t1.connected ≡ true
      → append_batch label_codec source_id ps t
        ≡ (ok tt, record t1 { sent = t1.sent ++ (fsync_wal ∷ []) })
  unfolding append_batch send
  append_batch_run ps t t1 e c = rw (e, c)

  synced-IsValid :
      (t : LsmTree H) (e : IoEvent) → IsValid t → IsValid (record t { sent = t.sent ++ (e ∷ []) })
  synced-IsValid t e v = record {
    consistent = v.consistent;
    valid = v.valid;
    sequenced = v.sequenced;
    logged = λ r h. Logged-append r t.sent (e ∷ []) (v.logged r h);
  }

  -- A batch of payloads of accepted sizes that start with acceptable label maps, appended to a valid
  -- tree whose channel is open and whose counters are not about to wrap around, is stored whole: the
  -- call succeeds, the tree stays valid, and its tables hold what they held and one record for each
  -- payload, its bytes behind the labels, under a stream that the registry knows by the label map,
  -- with successive sequence numbers, and nothing else; exactly these records are sent to the log, and
  -- the one request to write it to disk comes last.
  pub append_batch_lem :
      (ps : List (List ℕ × ℕ)) (ls : List (LabelMap × ℕ)) (t : LsmTree H)
      → IsValid t
      → t.connected ≡ true
      → t.next_stream_id.current + length ps < 2 ^ 64
      → t.next_seq_num.current + length ps < 2 ^ 64
      → AllGood label_codec ps ls
      → (rs : List Record) × ((append_batch label_codec source_id ps t).0 ≡ ok tt)
        × Batch t (append_batch label_codec source_id ps t).1 rs
        × Recorded source_id t.next_seq_num.current
            (append_batch label_codec source_id ps t).1.stream_reg
            ps
            ls
            rs
        × SentAndSynced t.sent (append_batch label_codec source_id ps t).1.sent rs
  append_batch_lem ps ls t v c x y g =
      let (rs, done, b, recorded, sent) = append_all_lem ps ls t v c x y g in
      let t1 = (append_all label_codec source_id ps t).1 in
      let run = append_batch_run ps t t1 (ap (λ o. (o, t1)) done) (b.connected ∙ c) in
      (
        rs,
        ap (λ o. o.0) run,
        subst (λ o. Batch t o.1 rs) (sym run)
            (record {
              kept = b.kept;
              only = b.only;
              held = b.held;
              labels = b.labels;
              valid = synced-IsValid t1 fsync_wal b.valid;
              connected = b.connected;
            }),
        subst (λ o. Recorded source_id t.next_seq_num.current o.1.stream_reg ps ls rs) (sym run)
            recorded,
        subst (λ o. SentAndSynced t.sent o.1.sent rs) (sym run) (t1.sent, sent, refl),
      )
