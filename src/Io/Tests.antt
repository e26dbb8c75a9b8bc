-- ===== src/Io/Tests.antt =====
-- Flushes of small memtables.
use logregator.Common.{ℕ, ◌≡◌, refl, length, Option, List, [], none, some, ok, panic, true, arith}
use logregator.Block.Tests.{toy_crc}
use logregator.Io.{file_writer, flush_memtable}
use logregator.Io.Panics.{flush_memtable-panics_two}
use logregator.Memtable.{append, was_appended, with_size_limit}
use logregator.Memtable.Tests.{rec}
use logregator.Bloom.{BloomFilter}
use logregator.Record.{Record, cmp}
use logregator.Record.Codec.{record_codec}
use logregator.Sst.RoundTrip.{key_codec}
use logregator.Sst.Writer.{HashedWriterState}
use logregator.Sst.Writer.Placed.{Placed}
use logregator.Sst.Writer.Tests.{onto, full_filter}
use logregator.Block
use logregator.Sst

abbrev make : ℕ → Option (List ℕ)
make id = some []

abbrev filter : ℕ → BloomFilter
filter n = full_filter

made : (sw : HashedWriterState (List ℕ)) × (file_writer make filter 1 none 2 ≡ ok sw)
unfolding file_writer Sst.Writer.new Block.Writer.new
made = (_, refl)

flush_memtable-panics_two_example :
    (was_appended (append (append (with_size_limit 1 100) (rec 2 1)).0 (rec 1 2)).1 ≡ true)
    × (flush_memtable make filter onto toy_crc length length record_codec key_codec
          (append (append (with_size_limit 1 100) (rec 2 1)).0 (rec 1 2)).0
          none
        ≡ panic)
unfolding cmp
flush_memtable-panics_two_example =
    flush_memtable-panics_two make filter onto toy_crc length length record_codec key_codec 1 100
      (rec 2 1) (rec 1 2) none made.0 refl (omega arith) made.1
