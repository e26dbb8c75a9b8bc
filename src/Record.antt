-- ===== src/Record.antt =====
-- logregator-tsdb/src/record.rs: log records, their keys and the order of keys.
pub mod Order
pub mod Encode
pub mod Decode
pub mod RoundTrip
pub mod Errors
pub mod Sound
pub mod Codec
mod Tests
use logregator.Common.{
  ℕ, ◌+◌, ◌*◌, ◌/◌, ◌≤◌, List, ◌++◌, compare, Ordering, length, All, IsByte, IsU64, to_be_bytes,
}

-- Field order as in the source: the derived order compares the fields from first to last.
pub record Key : Type 0 where
  pub stream_id : ℕ
  pub timestamp : ℕ
  pub sequence_num : ℕ
  pub source_id : ℕ

-- `Arc<[u8]>` is the list of the payload's bytes.
pub record Record : Type 0 where
  pub key : Key
  pub payload : List ℕ

-- `size_of::<Key>()`: four `u64`s.
abbrev pub key_size : ℕ
key_size = 32

abbrev pub payload_len_size : ℕ
payload_len_size = 4

-- `label::LABEL_COUNT_WIRE_LEN + 1`
abbrev pub min_payload_length : ℕ
min_payload_length = 1 + 1

abbrev pub max_payload_length : ℕ
max_payload_length = 4096

abbrev pub min_record_wire_length : ℕ
min_record_wire_length = key_size + 4 + min_payload_length

abbrev pub max_record_wire_length : ℕ
max_record_wire_length = key_size + 4 + max_payload_length

abbrev pub wire_len : Record → ℕ
wire_len rec = key_size + 4 + length rec.payload

-- `size_of::<Record>()` is the key and the fat pointer of the payload.
abbrev pub size_of : Record → ℕ
size_of rec = key_size + 16 + length rec.payload

abbrev then : Ordering → Ordering → Ordering
then Ordering.eq second = second
then first _ = first

-- The derived `Ord` of `Key`.
unfoldable pub cmp : Key → Key → Ordering
cmp a b = then (compare a.stream_id b.stream_id) (
    then (compare a.timestamp b.timestamp)
      (then (compare a.sequence_num b.sequence_num) (compare a.source_id b.source_id)))

pub record IsKey (k : Key) : Type 0 where
  pub stream_id : IsU64 k.stream_id
  pub timestamp : IsU64 k.timestamp
  pub sequence_num : IsU64 k.sequence_num
  pub source_id : IsU64 k.source_id

-- A record that the codec accepts.
pub record IsEncodable (rec : Record) : Type 0 where
  pub key : IsKey rec.key
  pub longest : length rec.payload ≤ max_payload_length
  pub shortest : min_payload_length ≤ length rec.payload
