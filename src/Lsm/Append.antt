-- ===== src/Lsm/Append.antt =====
-- `append_batch`: the invariant of the tree, and what appending payloads does to it.
use mathlib.Core.Path.{subst}
use logregator.Common.{
  ℕ, ◌+◌, ◌≤◌, ◌<◌, ◌%◌, ◌^◌, ◌≡◌, refl, sym, ap, ◌∙◌, ◌⊎◌, inl, inr, true, Option-cases, Option,
  none, some, List, [], ◌∷◌, ◌++◌, append_assoc, Outcome, ok, range-ok, arith, length, slice, All,
}
use logregator.Codec.{SpecCodec}
use logregator.Counter.{inc_and_get}
use logregator.Label.{LabelMap}
use logregator.Label.Registry.{StreamRegistry, get_labelmap_by_stream}
use logregator.Lsm.{
  LsmTree, LsmError, IoEvent, append_wal, fsync_wal, flush_memtable, send, store, resolve, new,
  next_seq, decode_labels, append_payload,
}
use logregator.Lsm.Registered.{
  IsConsistent, Consistent, IsAccepted, Resolved, SameTables, resolve_lem,
}
use logregator.Lsm.Put.{Has, Put}
use logregator.Lsm.Stored.{tables, Stored, store_lem}
use logregator.Memtable.{with_size_limit}
use logregator.Memtable.Set.{find}
use logregator.Memtable.Size
use logregator.Record.{Key, Record}
use logregator.Record.Decode.{check_payload_size}
use logregator.Record.Order.{eq_of_cmp}

-- The record was sent to the log.
abbrev pub Logged : Record → List IoEvent → Type 0
Logged r [] = ⊥
Logged r (e ∷ es) = (e ≡ append_wal r) ⊎ Logged r es

pub Logged-append : (r : Record) (es fs : List IoEvent) → Logged r es → Logged r (es ++ fs)
Logged-append r [] fs h = absurd h
Logged-append r (e ∷ es) fs (inl h) = inl h
Logged-append r (e ∷ es) fs (inr h) = inr (Logged-append r es fs h)

Logged-last : (r : Record) (es fs : List IoEvent) → Logged r (es ++ (append_wal r ∷ fs))
Logged-last r [] fs = inl refl
Logged-last r (e ∷ es) fs = inr (Logged-last r es fs)

-- The records that the events have for the log, in order, and how often they ask to write it to disk.
abbrev pub logged_records : List IoEvent → List Record
logged_records [] = []
logged_records (append_wal r ∷ es) = r ∷ logged_records es
logged_records (fsync_wal ∷ es) = logged_records es
logged_records (flush_memtable p ∷ es) = logged_records es

abbrev pub syncs : List IoEvent → ℕ
syncs [] = 0
syncs (append_wal r ∷ es) = syncs es
syncs (fsync_wal ∷ es) = 1 + syncs es
syncs (flush_memtable p ∷ es) = syncs es

-- What was sent since: exactly these records for the log, and no request to write it to disk.
abbrev pub Sent : List IoEvent → List IoEvent → List Record → Type 0
Sent before after rs =
    (new : List IoEvent) × (after ≡ before ++ new) × (logged_records new ≡ rs) × (syncs new ≡ 0)

logged_records-append :
    (es fs : List IoEvent) → logged_records (es ++ fs) ≡ logged_records es ++ logged_records fs
logged_records-append [] fs = refl
logged_records-append (append_wal r ∷ es) fs = ap (λ t. r ∷ t) (logged_records-append es fs)
logged_records-append (fsync_wal ∷ es) fs = logged_records-append es fs
logged_records-append (flush_memtable p ∷ es) fs = logged_records-append es fs

syncs-append : (es fs : List IoEvent) → syncs (es ++ fs) ≡ syncs es + syncs fs
syncs-append [] fs = omega arith
syncs-append (append_wal r ∷ es) fs = syncs-append es fs
syncs-append (fsync_wal ∷ es) fs = omega (arith, syncs-append es fs)
syncs-append (flush_memtable p ∷ es) fs = syncs-append es fs

pub Sent-append :
    (a b c : List IoEvent) (rs qs : List Record) → Sent a b rs → Sent b c qs → Sent a c (rs ++ qs)
Sent-append a b c rs qs (es, e, l, s) (fs, f, k, z) = (
  es ++ fs,
  f ∙ ap (λ t. t ++ fs) e ∙ append_assoc a es fs,
  logged_records-append es fs ∙ cc (l, k),
  omega (arith, syncs-append es fs, s, z),
)

find_key : (k : Key) (s : List Record) (q : Record) → find k s ≡ some q → q.key ≡ k
unfolding find
find_key k [] q h = cc
find_key k (r ∷ rs) q h = ground (arith, find_key k rs q, eq_of_cmp k r.key)

-- The record that `append_batch` makes of a payload with `n` bytes of labels.
abbrev pub record_of : ℕ → ℕ → ℕ → ℕ → List ℕ → ℕ → Record
record_of stream_id now seq source_id payload n = record {
  key = record {
    stream_id = stream_id;
    timestamp = now % 2 ^ 64;
    sequence_num = seq;
    source_id = source_id;
  };
  payload = slice payload n (length payload);
}

-- A payload of an accepted size that starts with a label map.
pub record IsGood (label_codec : SpecCodec LabelMap) (payload : List ℕ) (m : LabelMap) (n : ℕ)
    : Type 0 where
  pub size : check_payload_size (length payload) ≡ ok tt
  pub decoded : label_codec.decode payload ≡ ok (some (m, n))
  pub within : n ≤ length payload
  pub accepted : IsAccepted m

module _ {H : Type 0} where
  -- The invariant of the tree: the registry is consistent, the tables are valid, every record in them
  -- carries a sequence number below the next one, and every record in them was sent to the log.
  pub record IsValid (t : LsmTree H) : Type 0 where
    pub consistent : Consistent t
    pub valid : All Size.IsValid (tables t)
    pub sequenced : (r : Record) → Has r (tables t) → r.key.sequence_num < t.next_seq_num.current
    pub logged : (r : Record) → Has r (tables t) → Logged r t.sent

  -- The next record has a new key.
  fresh :
      (t : LsmTree H) (k : Key)
      → IsValid t
      → k.sequence_num ≡ t.next_seq_num.current
      → find k t.memtable.set ≡ none
  fresh t k v e = elim (Option-cases (find k t.memtable.set)) [
    | inl n ↦ n
    | inr (q, h) ↦
        let same = find_key k t.memtable.set q h in
        let held : find q.key t.memtable.set ≡ some q = ap (λ j. find j t.memtable.set) same ∙ h in
        absurd (omega (arith, v.sequenced q (inl held), ap (λ k. k.sequence_num) same))
  ]

  -- The tree after a payload was appended.
  pub record Appended (t t' : LsmTree H) (rec : Record) (m : LabelMap) : Type 0 where
    pub put : Put rec (tables t) (tables t')
    pub labelled : get_labelmap_by_stream t'.stream_reg rec.key.stream_id ≡ some m
    pub kept :
        (i : ℕ) (n : LabelMap)
        → get_labelmap_by_stream t.stream_reg i ≡ some n
        → get_labelmap_by_stream t'.stream_reg i ≡ some n
    pub valid : IsValid t'
    pub seq : t'.next_seq_num.current ≡ t.next_seq_num.current + 1
    pub streams : t'.next_stream_id.current ≤ t.next_stream_id.current + 1
    pub connected : t'.connected ≡ t.connected
    pub sent : Sent t.sent t'.sent (rec ∷ [])

  -- The tree when the record is stored: the sequence number is used up, the log has the record.
  abbrev logging : LsmTree H → Record → LsmTree H
  logging t rec = record t {
    next_seq_num = (inc_and_get t.next_seq_num).1;
    sent = t.sent ++ (append_wal rec ∷ []);
  }

  append_payload_run :
      (label_codec : SpecCodec LabelMap) (t t1 : LsmTree H) (source_id now n id : ℕ)
      (payload : List ℕ) (m : LabelMap)
      → IsGood label_codec payload m n
      → resolve m t ≡ (ok id, t1)
      → t1.connected ≡ true
      → t1.next_seq_num ≡ t.next_seq_num
      → append_payload label_codec source_id (payload, now) t
        ≡ store
            (record_of id now t.next_seq_num.current source_id payload n)
            (logging t1 (record_of id now t.next_seq_num.current source_id payload n))
  unfolding append_payload decode_labels next_seq send
  append_payload_run label_codec t t1 source_id now n id payload m g e c q = rw (
    g.size,
    g.decoded,
    e,
    range-ok {E = LsmError} payload n (length payload) g.within (omega arith),
    c,
    ap (λ k. k.current) q,
  )

  -- `sent` grows by the record, and by a flush, if there was one.
  Logged-Stored :
      (t1 : LsmTree H) (rec r : Record) (out : Outcome LsmError (Unit {0}) × LsmTree H)
      → Stored (logging t1 rec) rec out
      → Logged r (t1.sent ++ (append_wal rec ∷ []))
      → Logged r out.1.sent
  Logged-Stored t1 rec r out stored h = elim stored.sent [
    | inl e ↦ rw e h
    | inr (p, e) ↦
        rw e (Logged-append r (t1.sent ++ (append_wal rec ∷ [])) (flush_memtable p ∷ []) h)
  ]

  tables_same : (t t1 : LsmTree H) → SameTables t t1 → tables t1 ≡ tables t
  tables_same t t1 s = cc (s.memtable, s.frozen)

  appended_lem :
      (t t1 : LsmTree H) (out : Outcome LsmError (Unit {0}) × LsmTree H) (rec : Record)
      → IsValid t
      → Consistent t1
      → SameTables t t1
      → Stored (logging t1 rec) rec out
      → rec.key.sequence_num ≡ t.next_seq_num.current
      → t.next_seq_num.current + 1 < 2 ^ 64
      → Put rec (tables t) (tables out.1)
      → IsValid out.1
  appended_lem t t1 out rec v c s stored e room put =
      let next : out.1.next_seq_num.current ≡ t.next_seq_num.current + 1 =
        ap (λ k. k.current) stored.same.0
        ∙ unfold inc_and_get in omega (arith, ap (λ k. k.current) s.seq) in
      record {
        consistent = rw (stored.same.1, stored.same.2) c;
        valid = put.valid;
        sequenced = λ r h. elim (put.only r h) [
          | inl k ↦ omega (arith, v.sequenced r k, next)
          | inr k ↦ omega (arith, next, e, ap (λ q. q.key.sequence_num) k)
        ];
        logged = λ r h. Logged-Stored t1 rec r out stored (elim (put.only r h) [
          | inl k ↦ Logged-append r t1.sent (append_wal rec ∷ []) (rw s.sent (v.logged r k))
          | inr k ↦ rw k (Logged-last rec t1.sent [])
        ]);
      }

  store_after :
      (t t1 : LsmTree H) (rec : Record)
      → IsValid t
      → t.connected ≡ true
      → SameTables t t1
      → rec.key.sequence_num ≡ t.next_seq_num.current
      → Stored (logging t1 rec) rec (store rec (logging t1 rec))
  store_after t t1 rec v c s e =
      store_lem (logging t1 rec) rec (s.connected ∙ c)
        (subst (All Size.IsValid) (sym (tables_same t t1 s)) v.valid)
        (ap (λ k. find rec.key k.set) s.memtable ∙ fresh t rec.key v e)

  Appended-Stored :
      (t t1 : LsmTree H) (out : Outcome LsmError (Unit {0}) × LsmTree H) (rec : Record)
      (m : LabelMap)
      → IsValid t
      → SameTables t t1
      → Resolved t m rec.key.stream_id
      → (resolve m t).1 ≡ t1
      → Stored (logging t1 rec) rec out
      → rec.key.sequence_num ≡ t.next_seq_num.current
      → t.next_seq_num.current + 1 < 2 ^ 64
      → Appended t out.1 rec m
  Appended-Stored t t1 out rec m v s r e1 stored e room =
      let put = subst (λ ms. Put rec ms (tables out.1)) (tables_same t t1 s) stored.put in
      record {
        put = put;
        labelled = rw stored.same.2 (
            subst (λ u. get_labelmap_by_stream u.stream_reg rec.key.stream_id ≡ some m) e1
              r.labelled);
        kept = λ i n h.
            rw stored.same.2
              (subst (λ u. get_labelmap_by_stream u.stream_reg i ≡ some n) e1 (r.kept i n h));
        valid = appended_lem t t1 out rec v (subst Consistent e1 r.consistent) s stored e room put;
        seq =
            ap (λ k. k.current) stored.same.0
            ∙ unfold inc_and_get in omega (arith, ap (λ k. k.current) s.seq);
        streams =
            rw stored.same.1
              (subst (λ u. u.next_stream_id.current ≤ t.next_stream_id.current + 1) e1 r.next);
        connected = stored.same.3 ∙ s.connected;
        sent = elim stored.sent [
          | inl e ↦
              (append_wal rec ∷ [], e ∙ ap (λ es. es ++ (append_wal rec ∷ [])) s.sent, refl, refl)
          | inr (p, e) ↦ (
            append_wal rec ∷ flush_memtable p ∷ [],
            e
                ∙ append_assoc t1.sent (append_wal rec ∷ []) (flush_memtable p ∷ [])
                ∙ ap (λ es. es ++ (append_wal rec ∷ flush_memtable p ∷ [])) s.sent,
            refl,
            refl,
          )
        ];
      }

  -- A payload of an accepted size that starts with an acceptable label map, appended to a valid tree
  -- whose channel is open and whose counters are not about to wrap around, is stored: the call
  -- succeeds and puts exactly one record into the tables, the payload without its labels under the
  -- stream of the label map; the tree stays valid.
  pub append_payload_lem :
      (label_codec : SpecCodec LabelMap) (t : LsmTree H) (source_id now n : ℕ) (payload : List ℕ)
      (m : LabelMap)
      → IsValid t
      → t.connected ≡ true
      → t.next_stream_id.current + 1 < 2 ^ 64
      → t.next_seq_num.current + 1 < 2 ^ 64
      → IsGood label_codec payload m n
      → (id : ℕ) × ((append_payload label_codec source_id (payload, now) t).0 ≡ ok tt)
        × Appended t
            (append_payload label_codec source_id (payload, now) t).1
            (record_of id now t.next_seq_num.current source_id payload n)
            m
  append_payload_lem label_codec t source_id now n payload m v c streams seqs g =
      let (id, r) = resolve_lem t m v.consistent streams g.accepted in
      let t1 = (resolve m t).1 in
      let rec = record_of id now t.next_seq_num.current source_id payload n in
      let run =
        append_payload_run label_codec t t1 source_id now n id payload m g
          (ap (λ o. (o, t1)) r.result) (r.same.connected ∙ c) r.same.seq in
      let stored = store_after t t1 rec v c r.same refl in
      (
        id,
        ap (λ o. o.0) run ∙ stored.result,
        subst (λ o. Appended t o.1 rec m) (sym run)
            (Appended-Stored t t1 (store rec (logging t1 rec)) rec m v r.same r refl stored refl
              seqs),
      )

  -- A new tree without records is valid, for a consistent registry.
  pub new-IsValid :
      (limit : Option ℕ) (id size : ℕ) (handles : List H) (reg : StreamRegistry)
      (stream_id seq_num : ℕ)
      → IsConsistent stream_id reg
      → IsValid (new limit (with_size_limit id size) handles reg stream_id seq_num)
  unfolding new find with_size_limit
  new-IsValid limit id size handles reg stream_id seq_num c = record {
    consistent = c;
    valid = (Size.with_size_limit-IsValid id size, tt);
    sequenced = λ r h. elim h [ inl e ↦ cc | inr e ↦ absurd e ];
    logged = λ r h. elim h [ inl e ↦ cc | inr e ↦ absurd e ];
  }
