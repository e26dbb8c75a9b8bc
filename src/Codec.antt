-- ===== src/Codec.antt =====
-- logregator-tsdb/src/codec.rs: the codec errors, the `SpecCodec` trait, and the mutable byte slices
-- that encoders write to. The texts of error messages are not modelled.
pub mod Buffer
use logregator.Common.{ℕ, List, Option, Outcome}

-- `CodecError`, with the two sizes of `NotEnoughBytes` and the three of `InvalidSize` as arguments.
pub data CodecError : Type 0 where
  io : CodecError
  other : CodecError
  not_enough_bytes : (got want : ℕ) → CodecError
  invalid_payload_size : (got max min : ℕ) → CodecError

-- What an encoder does with its `dst`: a result, and the bytes of `dst` afterwards, which stay
-- changed when the result is an error.
abbrev pub Encoder : Type 0 → Type 0
Encoder A = List ℕ → Outcome CodecError A × List ℕ

abbrev pub Decoder : Type 0 → Type 0
Decoder A = List ℕ → Outcome CodecError (Option (A × ℕ))

-- The trait `SpecCodec<I>` with its bound `I: WireLen`.
pub record SpecCodec (I : Type 0) : Type 0 where
  pub wire_len : I → ℕ
  pub encode : I → Encoder ℕ
  pub decode : Decoder I
