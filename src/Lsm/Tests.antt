-- ===== src/Lsm/Tests.antt =====
-- A tree to which two payloads of one stream are appended.
use logregator.Common.{
  ℕ, ◌+◌, ◌<◌, ◌≡◌, refl, true, Bool, Option, none, List, [], ◌∷◌, ◌++◌, Outcome, ok, err, arith,
  length, ◌^◌, get,
}
use logregator.Codec.{SpecCodec, invalid_payload_size}
use logregator.Label.{LabelMap}
use logregator.Label.Codec.{
  label_map_codec, decode_label_map, parse_label_map, parse_labels, take_lp_str,
}
use logregator.Label.Codec
use logregator.Label.Codec.Utf8.{is_utf8}
use logregator.Label.Registry
use logregator.Common
use logregator.Common.{to_be_bytes}
use logregator.Memtable.Set
use logregator.Record.Decode.{check_payload_size}
use logregator.Label.Codec.RoundTrip.{label_map_bytes, labels_bytes, str_bytes}
use logregator.Label.Registry.{default, get_stream_id_by_labelmap, get_labelmap_by_stream}
use logregator.Label.Tests.{toy_nom, toy_hash, both}
use logregator.Lsm.{LsmTree, new, store, append_all, append_batch, drain_sst_queue, codec}
use logregator.Lsm.Registered.{IsConsistent, IsAccepted, Resolved, resolve_lem}
use logregator.Lsm.Stored.{Stored, store_lem}
use logregator.Memtable.Set.{find}
use logregator.Lsm.Append.{IsValid, IsGood, Sent, new-IsValid}
use logregator.Lsm.Batch.{AllGood, Batch, Recorded, SentAndSynced, append_batch_lem}
use logregator.Lsm.Errors.{Refused, size, append_batch-refused, drain_sst_queue_lem}
use logregator.Lsm.Labeled
use logregator.Lsm.Range.{of_stream}
use logregator.MergeIter.{Handle}
use logregator.MergeIter.Tests.{At, at}
use logregator.Manifest.{stream_update}
use logregator.Manifest.Codec.{new_stream_update}
use logregator.Memtable.{with_size_limit}
use logregator.Record.{Record}

abbrev labels : SpecCodec LabelMap
labels = label_map_codec toy_nom toy_hash

abbrev payload : ℕ → List ℕ
payload b = label_map_bytes both ++ (b ∷ 7 ∷ [])

abbrev batch : List (List ℕ × ℕ)
batch = (payload 1, 100) ∷ (payload 2, 90) ∷ []

abbrev label_lengths : List (LabelMap × ℕ)
label_lengths = (both, 16) ∷ (both, 16) ∷ []

-- Room for one record.
abbrev start : LsmTree ℕ
start = new none (with_size_limit 0 60) [] default 0 0

default-IsConsistent : IsConsistent 0 default
unfolding get_stream_id_by_labelmap get_labelmap_by_stream get
default-IsConsistent = record {
  of_stream = λ id m h. cc;
  of_labels = λ m id h. cc;
  below = λ id m h. cc;
}

both-IsAccepted : IsAccepted both
unfolding new_stream_update
both-IsAccepted id = (stream_update id both, refl)

payload-IsGood : (b : ℕ) → IsGood labels (payload b) both 16
unfolding check_payload_size decode_label_map parse_label_map parse_labels take_lp_str is_utf8
    Codec.insert label_map_bytes labels_bytes str_bytes to_be_bytes
payload-IsGood b = record {
  size = refl;
  decoded = refl;
  within = omega arith;
  accepted = both-IsAccepted;
}

all_good : AllGood labels batch label_lengths
all_good = (payload-IsGood 1, (payload-IsGood 2, tt))

start-IsValid : IsValid start
start-IsValid = new-IsValid none 0 60 [] default 0 0 default-IsConsistent

opened : start.connected ≡ true
unfolding new
opened = refl

few_streams : start.next_stream_id.current + length batch < 2 ^ 64
unfolding new
few_streams = omega arith

few_records : start.next_seq_num.current + length batch < 2 ^ 64
unfolding new
few_records = omega arith

abbrev after : LsmTree ℕ
after = (append_batch labels 5 batch start).1

append_batch_lem_example :
    (rs : List Record) × ((append_batch labels 5 batch start).0 ≡ ok tt)
    × Batch labels 5 start after rs
    × Recorded 5 start.next_seq_num.current after.stream_reg batch label_lengths rs
    × SentAndSynced start.sent after.sent rs
append_batch_lem_example =
    append_batch_lem labels 5 batch label_lengths start start-IsValid opened few_streams few_records
      all_good

short : Refused labels (1 ∷ []) (codec (invalid_payload_size 1 4132 38))
unfolding check_payload_size
short = size _ refl

append_batch-refused_example :
    (rs : List Record) × (append_batch labels 5 (batch ++ ((1 ∷ [], 95) ∷ batch)) start
      ≡ (err (codec (invalid_payload_size 1 4132 38)), (append_all labels 5 batch start).1))
    × Batch labels 5 start (append_all labels 5 batch start).1 rs
    × Recorded 5 start.next_seq_num.current
        (append_all labels 5 batch start).1.stream_reg
        batch
        label_lengths
        rs
    × Sent start.sent (append_all labels 5 batch start).1.sent rs
append_batch-refused_example =
    append_batch-refused labels 5 batch label_lengths (1 ∷ []) 95 batch start
      (codec (invalid_payload_size 1 4132 38)) start-IsValid opened few_streams few_records all_good
      short

-- A tree with three frozen memtables; a handle is the number of its memtable.
abbrev three : LsmTree ℕ
three = record start {
  frozen_memtables = with_size_limit 4 60 ∷ with_size_limit 5 60 ∷ with_size_limit 6 60 ∷ [];
  sst_handles = 3 ∷ [];
}

ids_match : (n : ℕ) → n ≡ (with_size_limit n 60).id
unfolding with_size_limit
ids_match n = refl

drain_sst_queue_lem_example :
    drain_sst_queue (λ h. h) (4 ∷ 5 ∷ []) three
    ≡ record three { frozen_memtables = with_size_limit 6 60 ∷ []; sst_handles = 3 ∷ 4 ∷ 5 ∷ [] }
drain_sst_queue_lem_example =
    drain_sst_queue_lem (λ h. h) (4 ∷ 5 ∷ []) (with_size_limit 4 60 ∷ with_size_limit 5 60 ∷ [])
      (with_size_limit 6 60 ∷ []) three refl (ids_match 4, (ids_match 5, tt))

abbrev number_handle : Handle Unit At ℕ
number_handle = record { may_contain_stream_id = λ h s. ok true; cursor = λ h start end. ok none }

room : start.next_stream_id.current + 1 < 2 ^ 64
unfolding new
room = omega arith

resolve_lem_example : (id : ℕ) × Resolved start both id
resolve_lem_example = resolve_lem start both start-IsValid.consistent room both-IsAccepted

abbrev rec : Record
rec = at 3 4

absent : find rec.key start.memtable.set ≡ none
unfolding new find with_size_limit
absent = refl

store_lem_example : Stored start rec (store rec start)
store_lem_example = store_lem start rec opened start-IsValid.valid absent
