-- ===== src/Framed/RoundTrip.antt =====
-- `FramedWriter` and `FramedReader` together.
use logregator.Common.{
  ℕ, zero, suc, ◌+◌, ◌≤◌, ◌<◌, ◌≡◌, refl, sym, ap, ◌∙◌, inl, inr, List, [], ◌∷◌, ◌++◌, map,
  append_assoc, append-nil, arith, none, ok, length, replicate, length-replicate, drop_all, All,
}
use logregator.Codec.{SpecCodec}
use logregator.Record.{Record, IsEncodable, wire_len}
use logregator.Record.Codec.{record_codec}
use logregator.Record.Encode.{record_bytes}
use logregator.Record.Decode.{decode_record}
use logregator.Record.RoundTrip.{encode_record_lem}
use logregator.Record.Sound.{decode_record_torn}
use logregator.Framed.{
  FramedReader, NextItem, FramedWriter, item, finished, next, fill, write, new_writer, new_reader,
}
use logregator.Block.Writer.Holds.{frames}
use logregator.Framed.Fill.{flatten, buffered, pending, IsValid, fill-HasFilled, fill-end}
use logregator.Framed.Records.{List-cases, Enough, next-fill, next-end, next-IsNext}

-- What is left of a frame that was cut off, perhaps nothing.
abbrev pub IsTorn : List ℕ → Type 0
IsTorn tail =
    (rec : Record) × (x : ℕ) × (back : List ℕ) × IsEncodable rec
    × (tail ++ (x ∷ back) ≡ record_bytes rec)

cons_of :
    (xs : List ℕ) (x : ℕ) (back : List ℕ)
    → (y : ℕ) × (rest : List ℕ) × (xs ++ (x ∷ back) ≡ y ∷ rest)
cons_of [] x back = (x, back, refl)
cons_of (y ∷ xs) x back = (y, xs ++ (x ∷ back), refl)

decode_record-front :
    (front more tail : List ℕ) → front ++ more ≡ tail → IsTorn tail → decode_record front ≡ ok none
decode_record-front front more tail e (rec, x, back, enc, t) =
    let (y, rest, c) = cons_of more x back in
    decode_record_torn rec front rest y enc (
      ap (λ z. front ++ z) (sym c)
      ∙ sym (append_assoc front more (x ∷ back))
      ∙ ap (λ z. z ++ (x ∷ back)) e
      ∙ t)

next-finished :
    (fuel : ℕ) (r : FramedReader) (tail : List ℕ)
    → IsValid r
    → Enough fuel r
    → pending r ≡ tail
    → IsTorn tail
    → (next record_codec fuel r).0 ≡ finished
next-finished zero r tail v more e t = absurd (omega arith)
next-finished (suc fuel) r tail v more e t =
    let torn = decode_record-front (buffered r) (flatten r.stream) tail e t in
    elim (List-cases r.stream) [
      | inl s ↦ next-end fuel r v torn (fill-end r v s)
      | inr (c, cs, s) ↦
          let (go_on, f) = fill-HasFilled r c cs v s in
          ap (λ t. t.0) (next-fill fuel r v torn go_on)
          ∙ next-finished fuel (fill r).1 tail f.valid (omega (arith, f.less, more)) (f.same ∙ e) t
    ]

-- The results of the next `n` calls of `next`, each with the same fuel.
abbrev pub items : SpecCodec Record → ℕ → ℕ → FramedReader → List (NextItem Record)
items codec fuel zero r = []
items codec fuel (suc n) r = (next codec fuel r).0 ∷ items codec fuel n (next codec fuel r).1

items-pending :
    (fuel : ℕ) (rs : List Record) (r : FramedReader) (tail : List ℕ)
    → IsValid r
    → Enough fuel r
    → All IsEncodable rs
    → pending r ≡ frames rs ++ tail
    → IsTorn tail
    → items record_codec fuel (suc (length rs)) r ≡ map item rs ++ (finished ∷ [])
items-pending fuel [] r tail v more enc e t =
    ap (λ x. x ∷ []) (next-finished fuel r tail v more e t)
items-pending fuel (rec ∷ rs) r tail v more (h, enc) e t =
    let n =
      next-IsNext fuel r rec (frames rs ++ tail) v h more
        (e ∙ append_assoc (record_bytes rec) (frames rs) tail) in
    ap (λ x. x ∷ items record_codec fuel (suc (length rs)) (next record_codec fuel r).1) n.shown
    ∙ ap (λ x. item rec ∷ x)
        (items-pending fuel rs (next record_codec fuel r).1 tail n.valid
          (omega (arith, n.less, more)) enc n.left t)

write_record :
    (w : FramedWriter) (rec : Record)
    → IsEncodable rec
    → write record_codec w rec ≡ (
      ok tt,
      record {
        inner = w.inner ++ record_bytes rec;
        bytes_written = w.bytes_written + wire_len rec;
      },
    )
unfolding write
write_record w rec v =
    let zeros = replicate (wire_len rec) 0 in
    let len : length zeros ≡ wire_len rec = length-replicate {A = ℕ} (wire_len rec) 0 in
    let long : wire_len rec ≤ length zeros = omega (arith, len) in
    let short : length zeros ≤ wire_len rec = omega (arith, len) in
    rw (
      encode_record_lem rec zeros v long,
      drop_all (wire_len rec) zeros short,
      append-nil (record_bytes rec),
    )

-- The writer after a list of records, errors passed over.
unfoldable pub write_all : FramedWriter → List Record → FramedWriter
write_all w [] = w
write_all w (rec ∷ rs) = write_all (write record_codec w rec).1 rs

write_all-frames :
    (w : FramedWriter) (rs : List Record)
    → All IsEncodable rs
    → (write_all w rs).inner ≡ w.inner ++ frames rs
unfolding write_all
write_all-frames w [] enc = sym (append-nil w.inner)
write_all-frames w (rec ∷ rs) (h, enc) =
    ap (λ t. (write_all t.1 rs).inner) (write_record w rec h)
    ∙ write_all-frames
        (record {
          inner = w.inner ++ record_bytes rec;
          bytes_written = w.bytes_written + wire_len rec;
        })
        rs enc
    ∙ append_assoc w.inner (record_bytes rec) (frames rs)

new_reader-IsValid :
    (stream : List (List ℕ)) → All (λ c. 1 ≤ length c) stream → IsValid (new_reader stream)
unfolding new_reader
new_reader-IsValid stream h = record {
  ordered = omega arith;
  inside = omega arith;
  some_room = omega (arith, length-replicate {A = ℕ} 4096 0);
  chunks = h;
}

-- Records that are written through a `FramedWriter` are read back by a `FramedReader`, in order and
-- then no more, whichever way the bytes are cut into reads, and also when the front of another frame
-- stands at the end. Fuel for one turn more than there are bytes in the stream is enough for each item.
pub items-write_all :
    (rs : List Record) (stream : List (List ℕ)) (tail : List ℕ) (fuel : ℕ)
    → All IsEncodable rs
    → All (λ c. 1 ≤ length c) stream
    → IsTorn tail
    → flatten stream ≡ (write_all new_writer rs).inner ++ tail
    → length (flatten stream) < fuel
    → items record_codec fuel (suc (length rs)) (new_reader stream) ≡ map item rs ++ (finished ∷ [])
items-write_all rs stream tail fuel enc chunks torn e more =
    items-pending fuel rs (new_reader stream) tail (new_reader-IsValid stream chunks)
      (unfold new_reader in more) enc
      (unfold new_reader buffered in e ∙ ap (λ t. t ++ tail) (write_all-frames new_writer rs enc))
      torn
