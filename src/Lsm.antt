-- ===== src/Lsm.antt =====
-- logregator-tsdb/src/lsm.rs: the tree of memtables and sorted tables, and the messages that it sends
-- to the I/O task (logregator-tsdb/src/io.rs).
pub mod Registered
pub mod Put
pub mod Stored
pub mod Append
pub mod Batch
pub mod Errors
pub mod Labeled
pub mod Range
mod Tests
use logregator.Common.{
  ℕ, ◌+◌, ◌%◌, ◌^◌, ◌==◌, Bool, true, false, not, Option, none, some, List, [], ◌∷◌, ◌++◌, Outcome,
  ok, err, panic, map_err, range, if◌then◌else◌, length,
}
use logregator.Codec.{CodecError, SpecCodec, other}
use logregator.Counter.{Counter, inc_and_get}
use logregator.Label.{LabelMap, same_labelmap}
use logregator.Label.Registry
use logregator.Label.Registry.{StreamRegistry, get_stream_id_by_labelmap, get_labelmap_by_stream}
use logregator.Manifest.{ManifestEntry}
use logregator.Manifest.Codec.{new_stream_update}
use logregator.Memtable.{
  Memtable, AppendOutput, done, full, FlushableMemtable, flushable, append, was_appended, freeze,
}
use logregator.Record.{Key, Record}
use logregator.Record.Decode.{check_payload_size}

-- `FlushMemtablePayload`, without the directory and the codec.
pub record FlushMemtablePayload : Type 0 where
  pub memtable : FlushableMemtable
  pub manifest_entries : List ManifestEntry
  pub block_size_limit : Option ℕ

pub data IoEvent : Type 0 where
  append_wal : Record → IoEvent
  fsync_wal : IoEvent
  flush_memtable : FlushMemtablePayload → IoEvent

-- `crate::Error`, by what it is made of.
pub data LsmError : Type 0 where
  codec : CodecError → LsmError
  labelmap_missing : LsmError
  hash_collision : LsmError
  send_failed : LsmError

-- The handles of the sorted tables are of any type. The sender of the channel is the list of what it
-- has sent, and whether the receiver still lives.
pub record LsmTree (H : Type 0) : Type 0 where
  pub block_size_limit : Option ℕ
  pub next_memtable_id : Counter
  pub next_stream_id : Counter
  pub next_seq_num : Counter
  pub memtable : Memtable
  pub frozen_memtables : List Memtable
  pub sst_handles : List H
  pub stream_buffer : List ManifestEntry
  pub stream_reg : StreamRegistry
  pub sent : List IoEvent
  pub connected : Bool

-- `LsmTree::new`, of the fields of `LsmTreeOptions`.
unfoldable pub new :
    {H : Type 0} → Option ℕ → Memtable → List H → StreamRegistry → ℕ → ℕ → LsmTree H
new limit memtable handles reg stream_id seq_num = record {
  block_size_limit = limit;
  next_memtable_id = record { current = (memtable.id + 1) % 2 ^ 64 };
  next_stream_id = record { current = stream_id };
  next_seq_num = record { current = seq_num };
  memtable = memtable;
  frozen_memtables = [];
  sst_handles = handles;
  stream_buffer = [];
  stream_reg = reg;
  sent = [];
  connected = true;
}

-- A method on `&mut self`: its result, and the tree afterwards, which stays changed after an error.
abbrev pub Method : Type 0 → Type 0 → Type 0
Method H A = LsmTree H → Outcome LsmError A × LsmTree H

abbrev pub resume :
    {H A B : Type 0}
    → (A → Method H B)
    → Outcome LsmError A × LsmTree H
    → Outcome LsmError B × LsmTree H
resume f (ok a, t) = f a t
resume f (err e, t) = (err e, t)
resume f (panic, t) = (panic, t)

infixl 5 ◌>>=◌ ◌>>◌
abbrev pub ◌>>=◌ : {H A B : Type 0} → Method H A → (A → Method H B) → Method H B
◌>>=◌ m f t = resume f (m t)

abbrev pub ◌>>◌ : {H A B : Type 0} → Method H A → Method H B → Method H B
m >> k = m >>= λ _. k

abbrev pub lift : {H A : Type 0} → Outcome LsmError A → Method H A
lift out t = (out, t)

-- `self.io_tx.send(event)?`
unfoldable pub send : {H : Type 0} → IoEvent → Method H (Unit {0})
send event t =
    if t.connected
    then (ok tt, record t { sent = t.sent ++ (event ∷ []) })
    else (err send_failed, t)

-- The stream of a label map that the registry has.
abbrev pub known_stream : LabelMap → ℕ → Option LabelMap → Outcome LsmError ℕ
known_stream labelmap stream_id none = err labelmap_missing
known_stream labelmap stream_id (some existing) =
    if not (same_labelmap existing labelmap) then err hash_collision else ok stream_id

-- `stream_buffer.push(ManifestEntry::stream_update(..).expect(..))`
abbrev pub buffer_update : {H : Type 0} → ℕ → Option ManifestEntry → Method H ℕ
buffer_update stream_id none t = (panic, t)
buffer_update stream_id (some update) t =
    (ok stream_id, record t { stream_buffer = t.stream_buffer ++ (update ∷ []) })

abbrev pub new_stream : {H : Type 0} → LabelMap → Method H ℕ
new_stream labelmap t =
    buffer_update t.next_stream_id.current (new_stream_update t.next_stream_id.current labelmap)
      (record t {
        next_stream_id = (inc_and_get t.next_stream_id).1;
        stream_reg = Registry.insert t.stream_reg t.next_stream_id.current labelmap;
      })

abbrev pub stream_of : {H : Type 0} → LabelMap → Option ℕ → Method H ℕ
stream_of labelmap (some stream_id) t =
    (known_stream labelmap stream_id (get_labelmap_by_stream t.stream_reg stream_id), t)
stream_of labelmap none t = new_stream labelmap t

-- The block of `append_batch` that finds or makes the stream of a label map.
unfoldable pub resolve : {H : Type 0} → LabelMap → Method H ℕ
resolve labelmap t = stream_of labelmap (get_stream_id_by_labelmap t.stream_reg labelmap) t

unfoldable pub issue_flush : {H : Type 0} → Method H (Unit {0})
issue_flush t =
    let (id, next) = inc_and_get t.next_memtable_id in
    let (active, frozen) = freeze t.memtable id in
    send
      (flush_memtable (record {
        memtable = flushable frozen;
        manifest_entries = t.stream_buffer;
        block_size_limit = t.block_size_limit;
      }))
      (record t {
        next_memtable_id = next;
        memtable = active;
        frozen_memtables = t.frozen_memtables ++ (frozen ∷ []);
        stream_buffer = [];
      })

-- The `assert!` that the memtable takes the record after the flush.
abbrev pub asserted :
    {H : Type 0} → LsmTree H → Memtable × AppendOutput → Outcome LsmError (Unit {0}) × LsmTree H
asserted t (m, out) =
    if was_appended out
    then (ok tt, record t { memtable = m })
    else (panic, record t { memtable = m })

abbrev pub retry : {H : Type 0} → Option Record → Method H (Unit {0})
retry none t = (ok tt, t)
retry (some r) t = asserted t (append t.memtable r)

abbrev pub after_append :
    {H : Type 0} → LsmTree H → Memtable × AppendOutput → Outcome LsmError (Unit {0}) × LsmTree H
after_append t (m, done) = (ok tt, record t { memtable = m })
after_append t (m, full partial) = (issue_flush >> retry partial) (record t { memtable = m })

-- `self.memtable.append(rec)`, and what follows when the memtable is full.
unfoldable pub store : {H : Type 0} → Record → Method H (Unit {0})
store rec t = after_append t (append t.memtable rec)

-- `self.next_seq_num.inc_and_get()`
unfoldable pub next_seq : {H : Type 0} → Method H ℕ
next_seq t = (ok t.next_seq_num.current, record t { next_seq_num = (inc_and_get t.next_seq_num).1 })

abbrev pub found_labels : Option (LabelMap × ℕ) → Outcome LsmError (LabelMap × ℕ)
found_labels none = err (codec other)
found_labels (some found) = ok found

module _ {H : Type 0} (label_codec : SpecCodec LabelMap) where
  unfoldable pub decode_labels : List ℕ → Method H (LabelMap × ℕ)
  decode_labels payload =
      lift (map_err codec (check_payload_size (length payload)))
      >> lift (map_err codec (label_codec.decode payload))
      >>= λ found. lift (found_labels found)

  -- One turn of the loop of `append_batch`; `now` is the time since the epoch in nanoseconds.
  unfoldable pub append_payload : ℕ → List ℕ × ℕ → Method H (Unit {0})
  append_payload source_id (payload, now) = do
    (labelmap, label_bytes_read) ← decode_labels payload
    stream_id ← resolve labelmap
    sequence_num ← next_seq
    rest ← lift (range payload label_bytes_read (length payload))
    let rec : Record = record {
      key = record {
        stream_id = stream_id;
        timestamp = now % 2 ^ 64;
        sequence_num = sequence_num;
        source_id = source_id;
      };
      payload = rest;
    }
    send (append_wal rec)
    store rec

  unfoldable pub append_all : ℕ → List (List ℕ × ℕ) → Method H (Unit {0})
  append_all source_id [] t = (ok tt, t)
  append_all source_id (p ∷ ps) t = (append_payload source_id p >> append_all source_id ps) t

  -- The payloads come with the times that the clock shows when they are handled.
  unfoldable pub append_batch : ℕ → List (List ℕ × ℕ) → Method H (Unit {0})
  append_batch source_id payloads = append_all source_id payloads >> send fsync_wal

-- The loop of `drain_sst_queue`, over the handles that have arrived.
module _ {H : Type 0} (id : H → ℕ) where
  abbrev pub pop_front : H → List Memtable → List Memtable
  pop_front sst [] = []
  pop_front sst (frozen ∷ rest) = if frozen.id == id sst then rest else frozen ∷ rest

  unfoldable pub drain_sst_queue : List H → LsmTree H → LsmTree H
  drain_sst_queue [] t = t
  drain_sst_queue (sst ∷ ssts) t = drain_sst_queue ssts (record t {
    frozen_memtables = pop_front sst t.frozen_memtables;
    sst_handles = t.sst_handles ++ (sst ∷ []);
  })

abbrev pub sum_sizes : ℕ → List Memtable → ℕ
sum_sizes acc [] = acc
sum_sizes acc (f ∷ fs) = sum_sizes (acc + f.size_bytes) fs

unfoldable pub all_memtable_size_bytes : {H : Type 0} → LsmTree H → ℕ
all_memtable_size_bytes t = sum_sizes t.memtable.size_bytes t.frozen_memtables
