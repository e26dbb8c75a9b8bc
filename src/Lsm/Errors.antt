-- ===== src/Lsm/Errors.antt =====
-- `append_batch` when a payload is refused, and `drain_sst_queue`.
use logregator.Common.{
  ℕ, ◌+◌, ◌<◌, ◌^◌, ◌≡◌, refl, sym, ap, ◌∙◌, true, none, List, [], ◌∷◌, ◌++◌, append_assoc,
  append-nil, Outcome, ok, err, panic, length, eq→==,
}
use logregator.Codec.{CodecError, SpecCodec, other}
use logregator.Label.{LabelMap}
use logregator.Lsm.{
  LsmTree, LsmError, codec, resume, decode_labels, append_payload, append_all, append_batch,
  drain_sst_queue, pop_front,
}
use logregator.Lsm.Append.{IsValid, Sent}
use logregator.Lsm.Batch.{AllGood, Batch, append_all_lem, Recorded}
use logregator.Memtable.{Memtable}
use logregator.Record.{Record}
use logregator.Record.Decode.{check_payload_size}

-- The payload is refused with an error: for its size, or by the codec of label maps.
pub data Refused (label_codec : SpecCodec LabelMap) (payload : List ℕ) : LsmError → Type 0 where
  size :
      (c : CodecError)
      → check_payload_size (length payload) ≡ err c
      → Refused label_codec payload (codec c)
  labels :
      (c : CodecError)
      → check_payload_size (length payload) ≡ ok tt
      → label_codec.decode payload ≡ err c
      → Refused label_codec payload (codec c)
  incomplete :
      check_payload_size (length payload) ≡ ok tt
      → label_codec.decode payload ≡ ok none
      → Refused label_codec payload (codec other)

module _ {H : Type 0} (label_codec : SpecCodec LabelMap) (source_id : ℕ) where
  append_payload-refused :
      (payload : List ℕ) (now : ℕ) (e : LsmError) (t : LsmTree H)
      → Refused label_codec payload e
      → append_payload label_codec source_id (payload, now) t ≡ (err e, t)
  unfolding append_payload decode_labels
  append_payload-refused payload now e t (size c h) = rw h
  append_payload-refused payload now e t (labels c k h) = rw (k, h)
  append_payload-refused payload now e t (incomplete k h) = rw (k, h)

  resume_assoc :
      (ps : List (List ℕ × ℕ)) (q : List ℕ × ℕ) (qs : List (List ℕ × ℕ))
      (m : Outcome LsmError (Unit {0}) × LsmTree H)
      → ((t : LsmTree H)
          → append_all label_codec source_id (ps ++ (q ∷ qs)) t
            ≡ resume
                (λ _. append_all label_codec source_id (q ∷ qs))
                (append_all label_codec source_id ps t))
      → resume (λ _. append_all label_codec source_id (ps ++ (q ∷ qs))) m
        ≡ resume
            (λ _. append_all label_codec source_id (q ∷ qs))
            (resume (λ _. append_all label_codec source_id ps) m)
  resume_assoc ps q qs (ok a, t) h = h t
  resume_assoc ps q qs (err e, t) h = refl
  resume_assoc ps q qs (panic, t) h = refl

  append_all-append :
      (ps : List (List ℕ × ℕ)) (q : List ℕ × ℕ) (qs : List (List ℕ × ℕ)) (t : LsmTree H)
      → append_all label_codec source_id (ps ++ (q ∷ qs)) t
        ≡ resume
            (λ _. append_all label_codec source_id (q ∷ qs))
            (append_all label_codec source_id ps t)
  unfolding append_all
  append_all-append [] q qs t = refl
  append_all-append (p ∷ ps) q qs t =
      resume_assoc ps q qs (append_payload label_codec source_id p t) (append_all-append ps q qs)

  stopped :
      (ps : List (List ℕ × ℕ)) (q : List ℕ × ℕ) (qs : List (List ℕ × ℕ)) (t t1 : LsmTree H)
      (e : LsmError)
      → append_all label_codec source_id ps t ≡ (ok tt, t1)
      → append_payload label_codec source_id q t1 ≡ (err e, t1)
      → append_batch label_codec source_id (ps ++ (q ∷ qs)) t ≡ (err e, t1)
  unfolding append_batch append_all
  stopped ps q qs t t1 e done refused = rw (append_all-append ps q qs t, done, append_all, refused)

  -- A batch of which the payloads before the first refused one are good, appended to a valid tree whose
  -- channel is open and whose counters are not about to wrap around, ends at the refused payload: the
  -- call returns its error, the tables hold what they held and one record for each payload before it,
  -- with its bytes behind the labels, and nothing else, and what was sent has exactly these records for
  -- the log, in order, and no request to write it to disk.
  pub append_batch-refused :
      (ps : List (List ℕ × ℕ)) (ls : List (LabelMap × ℕ)) (payload : List ℕ) (now : ℕ)
      (qs : List (List ℕ × ℕ)) (t : LsmTree H) (e : LsmError)
      → IsValid t
      → t.connected ≡ true
      → t.next_stream_id.current + length ps < 2 ^ 64
      → t.next_seq_num.current + length ps < 2 ^ 64
      → AllGood label_codec ps ls
      → Refused label_codec payload e
      → (rs : List Record) × (append_batch label_codec source_id (ps ++ ((payload, now) ∷ qs)) t
          ≡ (err e, (append_all label_codec source_id ps t).1))
        × Batch label_codec source_id t (append_all label_codec source_id ps t).1 rs
        × Recorded source_id t.next_seq_num.current
            (append_all label_codec source_id ps t).1.stream_reg
            ps
            ls
            rs
        × Sent t.sent (append_all label_codec source_id ps t).1.sent rs
  append_batch-refused ps ls payload now qs t e v c x y g refused =
      let (rs, done, b, recorded, sent) = append_all_lem label_codec source_id ps ls t v c x y g in
      let t1 = (append_all label_codec source_id ps t).1 in
      (
        rs,
        stopped ps (payload, now) qs t t1 e (ap (λ o. (o, t1)) done)
            (append_payload-refused payload now e t1 refused),
        b,
        recorded,
        sent,
      )

module _ {H : Type 0} (id : H → ℕ) where
  -- The handles are those of the memtables, in their order.
  abbrev pub AreFor : List H → List Memtable → Type 0
  AreFor [] [] = Unit
  AreFor (h ∷ hs) (m ∷ ms) = (id h ≡ m.id) × AreFor hs ms
  AreFor _ _ = ⊥

  -- When the handles of the oldest frozen memtables arrive, in their order, these memtables are
  -- dropped, the others stay, and the handles are added behind those that the tree has.
  pub drain_sst_queue_lem :
      (hs : List H) (front back : List Memtable) (t : LsmTree H)
      → t.frozen_memtables ≡ front ++ back
      → AreFor hs front
      → drain_sst_queue id hs t
        ≡ record t { frozen_memtables = back; sst_handles = t.sst_handles ++ hs }
  unfolding drain_sst_queue
  drain_sst_queue_lem [] [] back t e f =
      ap (λ fs. record t { frozen_memtables = fs; sst_handles = t.sst_handles }) e
      ∙ ap (λ all. record t { frozen_memtables = back; sst_handles = all })
          (sym (append-nil t.sst_handles))
  drain_sst_queue_lem [] (m ∷ front) back t e f = absurd f
  drain_sst_queue_lem (h ∷ hs) [] back t e f = absurd f
  drain_sst_queue_lem (h ∷ hs) (m ∷ front) back t e (same, f) =
      drain_sst_queue_lem hs front back
        (record t {
          frozen_memtables = pop_front id h t.frozen_memtables;
          sst_handles = t.sst_handles ++ (h ∷ []);
        })
        (ap (pop_front id h) e ∙ rw (eq→== m.id (id h) (sym same))) f
      ∙ ap (λ all. record t { frozen_memtables = back; sst_handles = all })
          (append_assoc t.sst_handles (h ∷ []) hs)
