-- ===== src/Sst/Writer/Tests.antt =====
-- A writer to a list of bytes, whose blocks hold one record each.
use logregator.Common.{
  ◌≤◌, ◌+◌, ℕ, ◌≡◌, ◌≢◌, refl, Bool, true, none, some, List, [], ◌∷◌, ◌++◌, ok, length, arith,
  to_be_bytes,
}
use logregator.Record.{Record}
use logregator.Record.Codec.{record_codec}
use logregator.Block.Tests.{toy_crc, toy_crc-IsU32, sample, sample-IsEncodable}
use logregator.Block.Writer.{BlockWriter}
use logregator.Block.Writer.Holds.{Holds, frames, length-frames-cons}
use logregator.Bloom.{BloomFilter, may_contain, positions, all_set, get_bit}
use logregator.Sst.RoundTrip.{key_codec}
use logregator.Sst.Finalize.{finalize_file}
use logregator.Sst.Finalize.Fails.{finalize_file-fails}
use logregator.Sst.Writer.{HashedWriterState, write}
use logregator.Sst.Writer.Placed.{Placed, all_of, largest}
use logregator.Sst.Writer.Table.{IsTable}
use logregator.Sst.Writer.Write.{write_lem}

abbrev pub onto : List ℕ → List ℕ → Bool × List ℕ
onto w bs = (true, w ++ bs)

abbrev pub contents : List ℕ → List ℕ
contents w = w

abbrev pub full_filter : BloomFilter
full_filter = record { bitmap = 255 ∷ 255 ∷ []; n_bits = 16; n_hashes = 3 }

-- The limit leaves no room for a second record.
abbrev pub one_record : BlockWriter
one_record = record {
  buffer = frames (sample ∷ []);
  offsets = 0 ∷ [];
  size = length (frames (sample ∷ []));
  limit = 20;
  record_count = 1;
  first_key = some sample.key;
  last_key = some sample.key;
}

abbrev started : HashedWriterState (List ℕ)
started = record {
  state = record {
    writer = [];
    block_bytes_written = 0;
    block_writer = one_record;
    block_limit = 20;
    block_meta = [];
    record_count = 0;
    first_key = none;
    last_key = none;
    bloom = full_filter;
  };
  integrity_hasher = [];
}

frames-length : length (frames (sample ∷ [])) ≡ 39
frames-length = omega (arith, length-frames-cons sample [])

pub one_record-Holds : Holds one_record (sample ∷ [])
one_record-Holds = record {
  buffer = refl;
  offsets = refl;
  size = refl;
  record_count = refl;
  first_key = refl;
  last_key = refl;
  encodable = (sample-IsEncodable, tt);
  room = omega (arith, frames-length);
}

sample-in_filter : may_contain length length full_filter sample.key.stream_id ≡ ok true
unfolding may_contain positions all_set get_bit to_be_bytes
sample-in_filter = refl

started-IsTable : IsTable contents onto toy_crc length length started [] (sample ∷ [])
started-IsTable = record {
  blocks = tt;
  holds = one_record-Holds;
  on_disk = refl;
  integrity_hasher = refl;
  block_bytes_written = refl;
  block_meta = tt;
  record_count = refl;
  first_key = refl;
  last_key = refl;
  limit = refl;
  small_limit = omega arith;
  small_block = omega (arith, frames-length);
  bloom = record { some_bit = λ e. omega (arith, e); whole = omega arith };
  in_bloom = (sample-in_filter, tt);
}

write_lem_example :
    (s' : HashedWriterState (List ℕ)) × (placed' : List Placed) × (current' : List Record) × (write
        onto toy_crc length length record_codec 2 sample started
      ≡ (ok tt, s'))
    × IsTable contents onto toy_crc length length s' placed' current'
    × (all_of placed' ++ current' ≡ sample ∷ sample ∷ [])
    × (s'.state.block_bytes_written ≤ started.state.block_bytes_written + largest)
write_lem_example =
    write_lem contents onto toy_crc length length sample sample-IsEncodable
      (λ w bs. (w ++ bs, refl, refl)) toy_crc-IsU32 started [] (sample ∷ []) started-IsTable
      (omega arith)

finalize_file-fails_example :
    finalize_file onto toy_crc key_codec started
    ≢ ok (record {
      fh = [];
      block_metadata = [];
      block_metadata_start_offset = 45;
      bloom = full_filter;
    })
finalize_file-fails_example = finalize_file-fails onto toy_crc key_codec started _
