-- ===== src/Record/Codec.antt =====
-- `RecordCodec` as an implementation of `SpecCodec<Record>`.
use logregator.Codec.{SpecCodec}
use logregator.Record.{Record, wire_len}
use logregator.Record.Encode.{encode_record}
use logregator.Record.Decode.{decode_record}

abbrev pub record_codec : SpecCodec Record
record_codec = record { wire_len = wire_len; encode = encode_record; decode = decode_record }
