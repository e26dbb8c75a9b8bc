-- ===== src/Framed/Fill.antt =====
-- `FramedReader::fill`: the bytes of the stream and of the buffer, before and after.
use logregator.Common.{
  ℕ, ◌+◌, ◌-◌, ◌≤◌, ◌<◌, ◌≡◌, refl, sym, ap, ◌∙◌, true, false, Bool-cases, inl, inr, List, [], ◌∷◌,
  ◌++◌, append_assoc, arith, ltb, ltb→le, ltb→lt, ◌==◌, ne→==, length, take, drop, slice, replicate,
  length-append, length-take, length-drop, length-replicate, take-append, take-append-drop,
  take_all, slice-take, slice_last, slice-append-slice, slice_zero, All,
}
use logregator.Framed.{FramedReader, read, compact, grow, make_room, receive, fill}

abbrev pub flatten : List (List ℕ) → List ℕ
flatten [] = []
flatten (c ∷ cs) = c ++ flatten cs

unfoldable pub buffered : FramedReader → List ℕ
buffered r = slice r.buf r.start r.stop

-- What the codec is still to see.
abbrev pub pending : FramedReader → List ℕ
pending r = buffered r ++ flatten r.stream

pub record IsValid (r : FramedReader) : Type 0 where
  pub ordered : r.start ≤ r.stop
  pub inside : r.stop ≤ length r.buf
  pub some_room : 1 ≤ length r.buf
  pub chunks : All (λ c. 1 ≤ length c) r.stream

slice-append_left :
    (xs ys : List ℕ) (i j : ℕ) → i ≤ j → j ≤ length xs → slice (xs ++ ys) i j ≡ slice xs i j
slice-append_left xs ys i j h k =
    sym (slice-take (xs ++ ys) i j (length xs) h k)
    ∙ ap (λ t. slice t i j) (take-append xs ys (length xs) refl)

length-slice : (xs : List ℕ) (i j : ℕ) → i ≤ j → j ≤ length xs → length (slice xs i j) ≡ j - i
length-slice xs i j h k = omega (arith, length-take (j - i) (drop i xs), length-drop i xs)

pub length-buffered : (r : FramedReader) → IsValid r → length (buffered r) ≡ r.stop - r.start
unfolding buffered
length-buffered r v = length-slice r.buf r.start r.stop v.ordered v.inside

-- A reader after a step that keeps what is buffered and what is to come.
record Keeps (r r' : FramedReader) : Type 0 where
  valid : IsValid r'
  same_buffered : buffered r' ≡ buffered r
  same_stream : r'.stream ≡ r.stream

compact-Keeps : (r : FramedReader) → IsValid r → Keeps r (compact r)
unfolding compact buffered
compact-Keeps r v = elim (Bool-cases (ltb 0 r.start)) [
  | inr first ↦ rw first (record { valid = v; same_buffered = refl; same_stream = refl })
  | inl later ↦
      let old = slice r.buf r.start r.stop in
      let len = length-slice r.buf r.start r.stop v.ordered v.inside in
      let rest = drop (r.stop - r.start) r.buf in
      let total : length (old ++ rest) ≡ length r.buf = omega (
        arith,
        length-append old rest,
        len,
        length-drop (r.stop - r.start) r.buf,
        v.ordered,
        v.inside,
      ) in
      rw later (record {
        valid = record {
          ordered = omega arith;
          inside = omega (arith, total, v.inside);
          some_room = omega (arith, total, v.some_room);
          chunks = v.chunks;
        };
        same_buffered =
            slice_zero (old ++ rest) (r.stop - r.start)
            ∙ take-append old rest (r.stop - r.start) len;
        same_stream = refl;
      })
]

lt_of_ne : (a b : ℕ) → (a == b) ≡ false → a ≤ b → a < b
lt_of_ne a b h l = ground arith

grow-Keeps :
    (r : FramedReader) → IsValid r → Keeps r (grow r) × ((grow r).stop < length (grow r).buf)
unfolding grow buffered
grow-Keeps r v = elim (Bool-cases (r.stop == length r.buf)) [
  | inr room ↦ rw room (
    record { valid = v; same_buffered = refl; same_stream = refl },
    lt_of_ne r.stop (length r.buf) room v.inside,
  )
  | inl tight ↦
      let zeros = replicate (length r.buf) 0 in
      let total : length (r.buf ++ zeros) ≡ length r.buf + length r.buf =
        omega (arith, length-append r.buf zeros, length-replicate {A = ℕ} (length r.buf) 0) in
      rw tight (
        record {
          valid = record {
            ordered = v.ordered;
            inside = omega (arith, total, v.inside);
            some_room = omega (arith, total, v.some_room);
            chunks = v.chunks;
          };
          same_buffered = slice-append_left r.buf zeros r.start r.stop v.ordered v.inside;
          same_stream = refl;
        },
        omega (arith, total, v.some_room, v.inside),
      )
]

make_room-Keeps :
    (r : FramedReader)
    → IsValid r
    → Keeps r (make_room r) × ((make_room r).stop < length (make_room r).buf)
unfolding make_room
make_room-Keeps r v = elim (Bool-cases (r.stop == length r.buf)) [
  | inr room ↦ rw room (
    record { valid = v; same_buffered = refl; same_stream = refl },
    lt_of_ne r.stop (length r.buf) room v.inside,
  )
  | inl tight ↦
      let k = compact-Keeps r v in
      let (g, space) = grow-Keeps (compact r) k.valid in
      rw tight (
        record {
          valid = g.valid;
          same_buffered = g.same_buffered ∙ k.same_buffered;
          same_stream = g.same_stream ∙ k.same_stream;
        },
        space,
      )
]

-- A read into some space of a stream that has not ended returns some bytes of it, as many as fit.
record IsRead (space : ℕ) (stream : List (List ℕ)) (out : List ℕ × List (List ℕ)) : Type 0 where
  some_byte : 1 ≤ length out.0
  fits : length out.0 ≤ space
  same : out.0 ++ flatten out.1 ≡ flatten stream
  chunks : All (λ c. 1 ≤ length c) out.1

read-IsRead :
    (space : ℕ) (c : List ℕ) (cs : List (List ℕ))
    → 1 ≤ space
    → All (λ c. 1 ≤ length c) (c ∷ cs)
    → IsRead space (c ∷ cs) (read space (c ∷ cs))
unfolding read
read-IsRead space c cs h (hc, hcs) = elim (Bool-cases (ltb space (length c))) [
  | inl more ↦
      let long = ltb→lt space (length c) more in
      rw more (record {
        some_byte = omega (arith, length-take space c);
        fits = omega (arith, length-take space c);
        same =
            sym (append_assoc (take space c) (drop space c) (flatten cs))
            ∙ ap (λ t. t ++ flatten cs) (take-append-drop space c);
        chunks = (omega (arith, length-drop space c), hcs);
      })
  | inr whole ↦
      let short = ltb→le space (length c) whole in
      rw whole (record {
        some_byte = omega (arith, length-take space c);
        fits = omega (arith, length-take space c);
        same = ap (λ t. t ++ flatten cs) (take_all space c short);
        chunks = hcs;
      })
]

-- What stands behind `stop` is written over.
put-buffered :
    (buf got : List ℕ) (start stop : ℕ)
    → start ≤ stop
    → stop ≤ length buf
    → slice (take stop buf ++ got ++ drop (stop + length got) buf) start (stop + length got)
      ≡ slice buf start stop ++ got
put-buffered buf got start stop h k =
    let front = take stop buf in
    let len : length front ≡ stop = omega (arith, length-take stop buf) in
    slice-append_left (front ++ got) (drop (stop + length got) buf) start (stop + length got)
      (omega arith) (omega (arith, len, length-append front got))
    ∙ sym (slice-append-slice (front ++ got) start stop (stop + length got) h (omega arith))
    ∙ ap (λ t. t ++ slice (front ++ got) stop (stop + length got))
        (slice-append_left front got start stop h (omega (arith, len))
          ∙ slice-take buf start stop stop h (omega arith))
    ∙ ap (λ t. slice buf start stop ++ t) (slice_last front got stop (stop + length got) len refl)

-- `fill` before the end of the stream: it reads at least one byte, and nothing is lost.
pub record HasFilled (r r' : FramedReader) : Type 0 where
  pub valid : IsValid r'
  pub same : pending r' ≡ pending r
  pub less : length (flatten r'.stream) < length (flatten r.stream)

receive-HasFilled :
    (r : FramedReader) (out : List ℕ × List (List ℕ))
    → IsValid r
    → IsRead (length r.buf - r.stop) r.stream out
    → ((receive r out).0 ≡ false) × HasFilled r (receive r out).1
unfolding buffered
receive-HasFilled r (got, rest) v h =
    let len : length (take r.stop r.buf) ≡ r.stop =
      omega (arith, length-take r.stop r.buf, v.inside) in
    let total : length (take r.stop r.buf ++ got ++ drop (r.stop + length got) r.buf)
        ≡ length r.buf =
      omega (
        arith,
        len,
        length-append (take r.stop r.buf ++ got) (drop (r.stop + length got) r.buf),
        length-append (take r.stop r.buf) got,
        length-drop (r.stop + length got) r.buf,
        h.fits,
        v.inside,
      ) in
    rw (ne→== (length got) 0 (λ e. omega (arith, h.some_byte, e))) (
      refl,
      record {
        valid = record {
          ordered = omega (arith, v.ordered);
          inside = omega (arith, total, h.fits, v.inside);
          some_room = omega (arith, total, v.some_room);
          chunks = h.chunks;
        };
        same =
            ap (λ t. t ++ flatten rest) (put-buffered r.buf got r.start r.stop v.ordered v.inside)
            ∙ append_assoc (slice r.buf r.start r.stop) got (flatten rest)
            ∙ ap (λ t. slice r.buf r.start r.stop ++ t) h.same;
        less = omega (arith, ap length h.same, length-append got (flatten rest), h.some_byte);
      },
    )

pub fill-HasFilled :
    (r : FramedReader) (c : List ℕ) (cs : List (List ℕ))
    → IsValid r
    → r.stream ≡ c ∷ cs
    → ((fill r).0 ≡ false) × HasFilled r (fill r).1
unfolding fill
fill-HasFilled r c cs v e =
    let (k, space) = make_room-Keeps r v in
    let m = make_room r in
    let at : m.stream ≡ c ∷ cs = k.same_stream ∙ e in
    let reads : IsRead (length m.buf - m.stop) m.stream (read (length m.buf - m.stop) m.stream) =
      rw at (
        read-IsRead (length m.buf - m.stop) c cs (omega (arith, space))
          (rw at at k.valid.chunks)) in
    let (go_on, f) = receive-HasFilled m _ k.valid reads in
    (
      go_on,
      record {
        valid = f.valid;
        same =
            f.same
            ∙ ap (λ t. t ++ flatten m.stream) k.same_buffered
            ∙ ap (λ t. buffered r ++ flatten t) k.same_stream;
        less = omega (arith, f.less, ap (λ t. length (flatten t)) k.same_stream);
      },
    )

-- `fill` at the end of the stream.
pub fill-end : (r : FramedReader) → IsValid r → r.stream ≡ [] → (fill r).0 ≡ true
unfolding fill read
fill-end r v e = let (k, space) = make_room-Keeps r v in rw (k.same_stream ∙ e)
