-- ===== src/Block/Writer.antt =====
-- `BlockWriter`: records are encoded one after the other, until the block is full.
pub mod Holds
pub mod IntoBlock
use logregator.Common.{
  ℕ, suc, ◌+◌, ◌*◌, ◌%◌, ◌^◌, List, [], ◌∷◌, ◌++◌, Option, none, some, Bool, true, false, not, ◌&&◌,
  Outcome, ok, err, panic, ltb, if◌then◌else◌, length, replicate,
}
use logregator.Codec.{CodecError, SpecCodec}
use logregator.Codec.Buffer.{within}
use logregator.Record.{Key, Record}
use logregator.Block.{Block, default_block_size, max_block_size}

pub record BlockWriter : Type 0 where
  pub buffer : List ℕ
  pub offsets : List ℕ
  pub size : ℕ
  pub limit : ℕ
  pub record_count : ℕ
  pub first_key : Option Key
  pub last_key : Option Key

pub data WriteOutput : Type 0 where
  written : WriteOutput
  full : WriteOutput

pub data InvalidBlockLimit : Type 0 where
  invalid_block_limit : ℕ → InvalidBlockLimit

abbrev pub empty : ℕ → BlockWriter
empty limit = record {
  buffer = [];
  offsets = [];
  size = 0;
  limit = limit;
  record_count = 0;
  first_key = none;
  last_key = none;
}

unfoldable pub new : Option ℕ → Outcome InvalidBlockLimit BlockWriter
new none = ok (empty default_block_size)
new (some l) = if ltb max_block_size l then err (invalid_block_limit l) else ok (empty l)

unfoldable pub into_block : BlockWriter → Block × Option Key × Option Key
into_block w = (record { data_bytes = w.buffer; offsets = w.offsets }, w.first_key, w.last_key)

abbrev pub or_else : {A : Type 0} → Option A → A → A
or_else none a = a
or_else (some x) a = x

abbrev pub is_empty : {A : Type 0} → List A → Bool
is_empty [] = true
is_empty (x ∷ xs) = false

-- What `write` does with the result of the codec, `buffer` being what the codec left.
abbrev pub settle :
    BlockWriter
    → Record
    → ℕ
    → Outcome CodecError ℕ × List ℕ
    → Outcome CodecError WriteOutput × BlockWriter
settle w rec n (ok written_bytes, buffer) = (
  ok written,
  record {
    buffer = buffer;
    offsets = w.offsets ++ (w.size % 2 ^ 16 ∷ []);
    size = w.size + n;
    limit = w.limit;
    record_count = suc w.record_count;
    first_key = some (or_else w.first_key rec.key);
    last_key = some rec.key;
  },
)
settle w rec n (err e, buffer) = (
  err e,
  record {
    buffer = buffer;
    offsets = w.offsets;
    size = w.size;
    limit = w.limit;
    record_count = w.record_count;
    first_key = w.first_key;
    last_key = w.last_key;
  },
)
settle w rec n (panic, buffer) = (panic, w)

-- `est_total_size`
abbrev pub est_total_size : BlockWriter → ℕ → ℕ
est_total_size w n = w.size + n + (length w.offsets + 1) * 2 + 2

unfoldable pub write :
    SpecCodec Record → BlockWriter → Record → Outcome CodecError WriteOutput × BlockWriter
write codec w rec =
    let n = codec.wire_len rec in
    let est = est_total_size w n in
    let orig_len = length w.buffer in
    if not (is_empty w.offsets) && ltb w.limit est
    then (ok full, w)
    else if ltb max_block_size est
    then (ok full, w)
    else settle w rec n
        (within orig_len (orig_len + n) (codec.encode rec) (w.buffer ++ replicate n 0))
