-- ===== src/Framed.antt =====
-- logregator-tsdb/src/codec.rs: `FramedReader` and `FramedWriter`.
pub mod Fill
pub mod Records
pub mod RoundTrip
mod Tests
use logregator.Common.{
  ℕ, zero, suc, ◌+◌, ◌*◌, ◌-◌, Bool, true, false, Option, none, some, List, [], ◌∷◌, ◌++◌, Outcome,
  ok, err, panic, ◌>>=◌, ltb, ◌==◌, if◌then◌else◌, length, take, drop, slice, replicate, range,
}
use logregator.Codec.{CodecError, SpecCodec}

abbrev pub bufsize : ℕ
bufsize = 4 * 1024

-- The underlying `io::Read` is the list of the chunks that its calls will return, none of them empty;
-- a chunk that is longer than the space is returned in pieces. A read that fails is not modelled.
pub record FramedReader : Type 0 where
  pub stream : List (List ℕ)
  pub buf : List ℕ
  pub start : ℕ
  pub stop : ℕ

unfoldable pub new_reader : List (List ℕ) → FramedReader
new_reader stream = record { stream = stream; buf = replicate bufsize 0; start = 0; stop = 0 }

-- `read` of a buffer with room for `space` bytes.
unfoldable pub read : ℕ → List (List ℕ) → List ℕ × List (List ℕ)
read space [] = ([], [])
read space (chunk ∷ chunks) =
    (take space chunk, (if ltb space (length chunk) then drop space chunk ∷ chunks else chunks))

-- `copy_within(start..end, 0)`, when something was read from the front of the buffer.
unfoldable pub compact : FramedReader → FramedReader
compact r =
    if ltb 0 r.start
    then record {
      stream = r.stream;
      buf = slice r.buf r.start r.stop ++ drop (r.stop - r.start) r.buf;
      start = 0;
      stop = r.stop - r.start;
    }
    else r

unfoldable pub grow : FramedReader → FramedReader
grow r =
    if r.stop == length r.buf
    then record {
      stream = r.stream;
      buf = r.buf ++ replicate (length r.buf) 0;
      start = r.start;
      stop = r.stop;
    }
    else r

unfoldable pub make_room : FramedReader → FramedReader
make_room r = if r.stop == length r.buf then grow (compact r) else r

-- What is left to do once `read` has returned.
abbrev pub receive : FramedReader → List ℕ × List (List ℕ) → Bool × FramedReader
receive r (got, stream) =
    if length got == 0
    then (true, record { stream = stream; buf = r.buf; start = r.start; stop = r.stop })
    else (
      false,
      record {
        stream = stream;
        buf = take r.stop r.buf ++ got ++ drop (r.stop + length got) r.buf;
        start = r.start;
        stop = r.stop + length got;
      },
    )

unfoldable pub fill : FramedReader → Bool × FramedReader
fill r =
    receive (make_room r)
      (read (length (make_room r).buf - (make_room r).stop) (make_room r).stream)

pub data NextItem (I : Type 0) : Type 0 where
  item : I → NextItem I
  failed : CodecError → NextItem I
  finished : NextItem I
  panicked : NextItem I
  out_of_fuel : NextItem I

-- One turn of the loop of `next`; `again` is what the turns after it do.
abbrev pub turn :
    {I : Type 0}
    → FramedReader
    → Outcome CodecError (Option (I × ℕ))
    → Bool × FramedReader
    → NextItem I × FramedReader
    → NextItem I × FramedReader
turn r (ok (some (i, n))) filled again =
    (item i, record { stream = r.stream; buf = r.buf; start = r.start + n; stop = r.stop })
turn r (ok none) (true, r') again = (finished, r')
turn r (ok none) (false, r') again = again
turn r (err e) filled again = (failed e, r)
turn r panic filled again = (panicked, r)

-- The loop of `next`, on fuel.
unfoldable pub next : {I : Type 0} → SpecCodec I → ℕ → FramedReader → NextItem I × FramedReader
next codec zero r = (out_of_fuel, r)
next codec (suc fuel) r =
    turn r (range r.buf r.start r.stop >>= codec.decode) (fill r) (next codec fuel (fill r).1)

-- `FramedWriter` over a `Vec<u8>`, which takes every write.
pub record FramedWriter : Type 0 where
  pub inner : List ℕ
  pub bytes_written : ℕ

abbrev pub new_writer : FramedWriter
new_writer = record { inner = []; bytes_written = 0 }

abbrev pub send :
    FramedWriter → Outcome CodecError ℕ × List ℕ → Outcome CodecError (Unit {0}) × FramedWriter
send w (ok n, buf) = (ok tt, record { inner = w.inner ++ buf; bytes_written = w.bytes_written + n })
send w (err e, buf) = (err e, w)
send w (panic, buf) = (panic, w)

unfoldable pub write :
    {I : Type 0} → SpecCodec I → FramedWriter → I → Outcome CodecError (Unit {0}) × FramedWriter
write codec w i = send w (codec.encode i (replicate (codec.wire_len i) 0))
