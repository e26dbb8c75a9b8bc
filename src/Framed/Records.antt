-- ===== src/Framed/Records.antt =====
-- `FramedReader::next` on a stream of records.
use logregator.Common.{
  ℕ, zero, suc, ◌+◌, ◌-◌, ◌≤◌, ◌<◌, ◌≡◌, ◌⊎◌, refl, sym, ap, ◌∙◌, Bool, true, false, inl, inr, List,
  [], ◌∷◌, ◌++◌, arith, none, ok, length, slice, take, drop, drop-take, range-ok, length-append,
  drop-append, drop-drop,
}
use logregator.Record.{Record, IsEncodable, wire_len}
use logregator.Record.Codec.{record_codec}
use logregator.Record.Encode.{record_bytes}
use logregator.Record.Decode.{decode_record}
use logregator.Record.RoundTrip.{decode_record-record_bytes, length-record_bytes}
use logregator.Record.Sound.{decode_record_torn}
use logregator.Framed.{FramedReader, NextItem, item, finished, turn, next, fill}
use logregator.Framed.Fill.{flatten, buffered, pending, IsValid, length-buffered, fill-HasFilled}

head_tail : (x y : ℕ) (xs ys : List ℕ) → x ∷ xs ≡ y ∷ ys → (x ≡ y) × (xs ≡ ys)
head_tail x y xs ys e = (cc e, cc e)

-- Of two fronts of the same list, one is the front of the other.
split :
    (xs ys zs bs : List ℕ)
    → xs ++ ys ≡ zs ++ bs
    → ((m : List ℕ) × (xs ≡ zs ++ m) × (bs ≡ m ++ ys))
      ⊎ ((x : ℕ) × (m : List ℕ) × (zs ≡ xs ++ (x ∷ m)) × (ys ≡ (x ∷ m) ++ bs))
split xs ys [] bs e = inl (xs, refl, sym e)
split [] ys (a ∷ zs) bs e = inr (a, zs, refl, e)
split (x ∷ xs) ys (a ∷ zs) bs e =
    let (h, t) = head_tail x a (xs ++ ys) (zs ++ bs) e in
    elim (split xs ys zs bs t) [
      | inl (m, p, q) ↦ inl (m, cc (h, p), q)
      | inr (y, m, p, q) ↦ inr (y, m, cc (h, p), q)
    ]

pub List-cases :
    (cs : List (List ℕ)) → (cs ≡ []) ⊎ ((d : List ℕ) × (ds : List (List ℕ)) × (cs ≡ d ∷ ds))
List-cases [] = inl refl
List-cases (d ∷ ds) = inr (d, ds, refl)

-- What the stream's length says of the fuel.
abbrev pub Enough : ℕ → FramedReader → Type 0
Enough fuel r = length (flatten r.stream) < fuel

-- The loop goes on with what `fill` leaves.
pub next-fill :
    (fuel : ℕ) (r : FramedReader)
    → IsValid r
    → decode_record (buffered r) ≡ ok none
    → (fill r).0 ≡ false
    → next record_codec (suc fuel) r ≡ next record_codec fuel (fill r).1
unfolding next buffered
next-fill fuel r v e f =
    rw (range-ok r.buf r.start r.stop v.ordered v.inside, e)
      (turn-on r (fill r) (next record_codec fuel (fill r).1) f)
  where
    turn-on :
        (r : FramedReader) (filled : Bool × FramedReader) (again : NextItem Record × FramedReader)
        → filled.0 ≡ false
        → turn r (ok none) filled again ≡ again
    turn-on r (true, r') again f = cc f
    turn-on r (false, r') again f = refl

turn-end :
    (r : FramedReader) (filled : Bool × FramedReader) (again : NextItem Record × FramedReader)
    → filled.0 ≡ true
    → (turn r (ok none) filled again).0 ≡ finished
turn-end r (true, r') again f = refl
turn-end r (false, r') again f = cc f

pub next-end :
    (fuel : ℕ) (r : FramedReader)
    → IsValid r
    → decode_record (buffered r) ≡ ok none
    → (fill r).0 ≡ true
    → (next record_codec (suc fuel) r).0 ≡ finished
unfolding next buffered
next-end fuel r v e f =
    rw (range-ok r.buf r.start r.stop v.ordered v.inside, e)
      (turn-end r (fill r) (next record_codec fuel (fill r).1) f)

-- The next record is returned, and exactly its frame is consumed.
pub record IsNext (rec : Record) (rest : List ℕ) (r : FramedReader)
    (out : NextItem Record × FramedReader) : Type 0 where
  pub shown : out.0 ≡ item rec
  pub valid : IsValid out.1
  pub left : pending out.1 ≡ rest
  pub less : length (flatten out.1.stream) ≤ length (flatten r.stream)

next-IsNext_ready :
    (fuel : ℕ) (r : FramedReader) (rec : Record) (m : List ℕ)
    → IsValid r
    → IsEncodable rec
    → buffered r ≡ record_bytes rec ++ m
    → IsNext rec (m ++ flatten r.stream) r (next record_codec (suc fuel) r)
unfolding next
next-IsNext_ready fuel r rec m v enc e =
    let n = wire_len rec in
    let len : r.stop - r.start ≡ n + length m =
      sym (length-buffered r v)
      ∙ ap length e
      ∙ length-append (record_bytes rec) m
      ∙ ap (λ t. t + length m) (length-record_bytes rec) in
    let e' : slice r.buf r.start r.stop ≡ record_bytes rec ++ m = unfold buffered in e in
    let after : slice r.buf (r.start + n) r.stop ≡ m =
      ap (λ t. take (r.stop - (r.start + n)) t) (sym (drop-drop n r.start r.buf))
      ∙ ap (λ t. take t (drop n (drop r.start r.buf))) {y = r.stop - r.start - n} (omega arith)
      ∙ sym (drop-take n (r.stop - r.start) (drop r.start r.buf))
      ∙ ap (drop n) e'
      ∙ drop-append (record_bytes rec) m n (length-record_bytes rec) in
    rw (range-ok r.buf r.start r.stop v.ordered v.inside, e', decode_record-record_bytes rec m enc)
      (record {
        shown = refl;
        valid = record {
          ordered = omega (arith, len);
          inside = v.inside;
          some_room = v.some_room;
          chunks = v.chunks;
        };
        left = unfold buffered in ap (λ t. t ++ flatten r.stream) after;
        less = omega arith;
      })

-- However the stream is cut, the frame at its front is gathered and returned.
pub next-IsNext :
    (fuel : ℕ) (r : FramedReader) (rec : Record) (rest : List ℕ)
    → IsValid r
    → IsEncodable rec
    → Enough fuel r
    → pending r ≡ record_bytes rec ++ rest
    → IsNext rec rest r (next record_codec fuel r)
next-IsNext zero r rec rest v enc more e = absurd (omega arith)
next-IsNext (suc fuel) r rec rest v enc more e =
    elim (split (buffered r) (flatten r.stream) (record_bytes rec) rest e) [
      | inl (m, p, q) ↦ rw q (next-IsNext_ready fuel r rec m v enc p)
      | inr (x, m, p, q) ↦ elim (List-cases r.stream) [
        | inl s ↦ cc (q, ap flatten s)
        | inr (c, cs, s) ↦
            let (go_on, f) = fill-HasFilled r c cs v s in
            let torn = decode_record_torn rec (buffered r) m x enc (sym p) in
            let ih =
              next-IsNext fuel (fill r).1 rec rest f.valid enc (omega (arith, f.less, more))
                (f.same ∙ e) in
            rw (next-fill fuel r v torn go_on) (record {
              shown = ih.shown;
              valid = ih.valid;
              left = ih.left;
              less = omega (arith, ih.less, f.less);
            })
      ]
    ]
