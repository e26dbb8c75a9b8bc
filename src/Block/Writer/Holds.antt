-- ===== src/Block/Writer/Holds.antt =====
-- `BlockWriter` as a list of records: their frames in the buffer, and where each one starts.
use logregator.Common.{
  ℕ, suc, ◌+◌, ◌*◌, ◌-◌, ◌%◌, ◌^◌, ◌≤◌, ◌<◌, ◌≡◌, ◌⊎◌, inl, inr, refl, sym, ap, ◌∙◌, List, [], ◌∷◌,
  ◌++◌, append_assoc, append-nil, Option, none, some, Bool, true, false, not, ◌&&◌, Bool-cases, ok,
  arith, length, replicate, length-append, length-replicate, take-append, slice_last, drop_all, ltb,
  le→leb, ltb→lt, ltb→le, All, All-append,
}
use logregator.Codec.Buffer.{within}
use logregator.Record.{Key, Record, IsEncodable, wire_len}
use logregator.Record.Codec.{record_codec}
use logregator.Record.Encode.{record_bytes, encode_record}
use logregator.Record.RoundTrip.{encode_record_lem, length-record_bytes}
use logregator.Block.{max_block_size}
use logregator.Block.Writer.{
  BlockWriter, written, full, new, write, settle, is_empty, est_total_size, or_else,
}

abbrev pub frames : List Record → List ℕ
frames [] = []
frames (r ∷ rs) = record_bytes r ++ frames rs

abbrev pub starts : ℕ → List Record → List ℕ
starts at [] = []
starts at (r ∷ rs) = at ∷ starts (at + wire_len r) rs

abbrev pub first_key_of : List Record → Option Key
first_key_of [] = none
first_key_of (r ∷ rs) = some r.key

abbrev pub last_key_of : List Record → Option Key
last_key_of [] = none
last_key_of (r ∷ []) = some r.key
last_key_of (r ∷ s ∷ rs) = last_key_of (s ∷ rs)

pub record Holds (w : BlockWriter) (rs : List Record) : Type 0 where
  pub buffer : w.buffer ≡ frames rs
  pub offsets : w.offsets ≡ starts 0 rs
  pub size : w.size ≡ length (frames rs)
  pub record_count : w.record_count ≡ length rs
  pub first_key : w.first_key ≡ first_key_of rs
  pub last_key : w.last_key ≡ last_key_of rs
  pub encodable : All IsEncodable rs
  pub room : w.size + 2 * length rs + 2 ≤ 2 ^ 16 - 1

pub frames-snoc :
    (rs : List Record) (r : Record) → frames (rs ++ (r ∷ [])) ≡ frames rs ++ record_bytes r
frames-snoc [] r = append-nil (record_bytes r)
frames-snoc (s ∷ rs) r =
    ap (λ t. record_bytes s ++ t) (frames-snoc rs r)
    ∙ sym (append_assoc (record_bytes s) (frames rs) (record_bytes r))

pub length-frames-cons :
    (r : Record) (rs : List Record) → length (frames (r ∷ rs)) ≡ wire_len r + length (frames rs)
length-frames-cons r rs =
    omega (arith, length-append (record_bytes r) (frames rs), length-record_bytes r)

starts-snoc :
    (at : ℕ) (rs : List Record) (r : Record)
    → starts at (rs ++ (r ∷ [])) ≡ starts at rs ++ ((at + length (frames rs)) ∷ [])
starts-snoc at [] r = ap (λ t. t ∷ []) {y = at + 0} (omega arith)
starts-snoc at (s ∷ rs) r =
    ap (λ t. at ∷ t)
      (starts-snoc (at + wire_len s) rs r
        ∙ ap (λ t. starts (at + wire_len s) rs ++ (t ∷ []))
            {x = at + wire_len s + length (frames rs)} {y = at + length (frames (s ∷ rs))}
            (omega (arith, length-frames-cons s rs)))

pub length-starts : (at : ℕ) (rs : List Record) → length (starts at rs) ≡ length rs
length-starts at [] = refl
length-starts at (r ∷ rs) = ap suc (length-starts (at + wire_len r) rs)

last_key_of-snoc : (rs : List Record) (r : Record) → last_key_of (rs ++ (r ∷ [])) ≡ some r.key
last_key_of-snoc [] r = refl
last_key_of-snoc (s ∷ []) r = refl
last_key_of-snoc (s ∷ t ∷ rs) r = last_key_of-snoc (t ∷ rs) r

-- The codec writes the frame into the zeros that the buffer grew by.
grow :
    (buf : List ℕ) (rec : Record)
    → IsEncodable rec
    → within
        (length buf)
        (length buf + wire_len rec)
        (encode_record rec)
        (buf ++ replicate (wire_len rec) 0)
      ≡ (ok (wire_len rec), buf ++ record_bytes rec)
unfolding within
grow buf rec v =
    let n = wire_len rec in
    let zeros = replicate (wire_len rec) 0 in
    let len : length (buf ++ zeros) ≡ length buf + n =
      omega (arith, length-append buf zeros, length-replicate {A = ℕ} n 0) in
    rw (
      le→leb (length buf) (length buf + n) (omega arith),
      len,
      le→leb (length buf + n) (length buf + n) (omega arith),
      slice_last buf zeros (length buf) (length buf + n) refl
          (omega (arith, length-replicate {A = ℕ} n 0)),
      encode_record_lem rec zeros v (omega (arith, length-replicate {A = ℕ} n 0)),
      drop_all n zeros (omega (arith, length-replicate {A = ℕ} n 0)),
      take-append buf zeros (length buf) refl,
      drop_all (length buf + n) (buf ++ zeros) (omega (arith, len)),
      append-nil (record_bytes rec),
      append-nil (buf ++ record_bytes rec),
    )

-- A new writer holds nothing, and its limit is at most the largest block.
pub new-Holds :
    (block_size_limit : Option ℕ) (w : BlockWriter)
    → new block_size_limit ≡ ok w
    → Holds w [] × (w.limit ≤ max_block_size)
unfolding new
new-Holds none w e = ground arith
new-Holds (some l) w e = elim (Bool-cases (ltb max_block_size l)) [
  | inl over ↦ cc (rw over at e)
  | inr fits ↦ ground (arith, ltb→le max_block_size l fits)
]

-- The bytes of the block of the records, without its checksum: their frames, two bytes for each offset,
-- and two for their number.
abbrev pub encoded_size : List Record → ℕ
encoded_size rs = length (frames rs) + 2 * length rs + 2

-- When `write` takes a record: the block with it has room in the largest block, and within the limit
-- unless it is the first.
abbrev pub IsAccepted : BlockWriter → List Record → Record → Type 0
IsAccepted w rs rec =
    (encoded_size (rs ++ (rec ∷ [])) ≤ max_block_size)
    × ((rs ≡ []) ⊎ (encoded_size (rs ++ (rec ∷ [])) ≤ w.limit))

first_key_of-snoc :
    (rs : List Record) (r : Record)
    → first_key_of (rs ++ (r ∷ [])) ≡ some (or_else (first_key_of rs) r.key)
first_key_of-snoc [] r = refl
first_key_of-snoc (s ∷ rs) r = refl

is_empty-nil : (rs : List Record) → is_empty rs ≡ true → rs ≡ []
is_empty-nil [] e = refl
is_empty-nil (r ∷ rs) e = cc

both : (e : Bool) (a b : ℕ) → (not e && ltb a b) ≡ true → (e ≡ false) × (a < b)
both true a b t = cc
both false a b t = (refl, ltb→lt a b t)

either : (e : Bool) (a b : ℕ) → (not e && ltb a b) ≡ false → (e ≡ true) ⊎ (b ≤ a)
either true a b t = inl refl
either false a b t = inr (ltb→le a b t)

is_empty-starts : (rs : List Record) → is_empty (starts 0 rs) ≡ is_empty rs
is_empty-starts [] = refl
is_empty-starts (r ∷ rs) = refl

module _ (w : BlockWriter) (rs : List Record) (rec : Record) (h : Holds w rs)
    (v : IsEncodable rec) where
  est : ℕ
  est = est_total_size w (wire_len rec)

  est-encoded_size : est ≡ encoded_size (rs ++ (rec ∷ []))
  unfolding est
  est-encoded_size = omega (
    arith,
    h.size,
    ap length h.offsets,
    length-starts 0 rs,
    ap length (frames-snoc rs rec),
    length-append (frames rs) (record_bytes rec),
    length-record_bytes rec,
    length-append rs (rec ∷ []),
  )

  over_limit : Bool
  over_limit = not (is_empty w.offsets) && ltb w.limit est

  is_empty-offsets : is_empty w.offsets ≡ is_empty rs
  is_empty-offsets = ap is_empty h.offsets ∙ is_empty-starts rs

  over_limit-refuses : over_limit ≡ true → ¬ IsAccepted w rs rec
  unfolding over_limit est
  over_limit-refuses t (small, c) =
      let (nonempty, over) = both (is_empty w.offsets) _ _ t in
      elim c [
        | inl none_yet ↦ cc (nonempty, is_empty-offsets, ap is_empty none_yet)
        | inr within ↦ omega (arith, over, within, est-encoded_size)
      ]

  within_limit-accepts :
      over_limit ≡ false → (rs ≡ []) ⊎ (encoded_size (rs ++ (rec ∷ [])) ≤ w.limit)
  unfolding over_limit
  within_limit-accepts t = elim (either (is_empty w.offsets) _ _ t) [
    | inl none_yet ↦ inl (is_empty-nil rs (sym is_empty-offsets ∙ none_yet))
    | inr within ↦ inr (omega (arith, within, est-encoded_size))
  ]

  next : BlockWriter
  next = (settle w rec (wire_len rec) (ok (wire_len rec), w.buffer ++ record_bytes rec)).1

  next-Holds : est ≤ max_block_size → Holds next (rs ++ (rec ∷ []))
  unfolding next est
  next-Holds small =
      let count : length w.offsets ≡ length rs = ap length h.offsets ∙ length-starts 0 rs in
      let more : length (rs ++ (rec ∷ [])) ≡ length rs + 1 = length-append rs (rec ∷ []) in
      let at : w.size % 2 ^ 16 ≡ 0 + length (frames rs) = omega (arith, h.size, h.room) in
      record {
        buffer = ap (λ t. t ++ record_bytes rec) h.buffer ∙ sym (frames-snoc rs rec);
        offsets =
            ap (λ t. t ++ (w.size % 2 ^ 16 ∷ [])) h.offsets
            ∙ ap (λ t. starts 0 rs ++ (t ∷ [])) at
            ∙ sym (starts-snoc 0 rs rec);
        size = omega (
          arith,
          h.size,
          ap length (frames-snoc rs rec),
          length-append (frames rs) (record_bytes rec),
          length-record_bytes rec,
        );
        record_count = omega (arith, h.record_count, more);
        first_key = ap (λ t. some (or_else t rec.key)) h.first_key ∙ sym (first_key_of-snoc rs rec);
        last_key = sym (last_key_of-snoc rs rec);
        encodable = All-append IsEncodable rs (rec ∷ []) h.encodable (v, tt);
        room = omega (arith, count, more, small);
      }

  -- `write` of a record that the codec accepts never fails. It takes the record exactly when the bytes of
  -- the block with it, without the checksum, are at most those of the largest block and, unless it is
  -- the first record, within the limit: the writer then holds the record after the others, under the
  -- same limit. Otherwise it answers `Full` and is unchanged.
  pub write-Holds :
      (IsAccepted w rs rec
        × (w' : BlockWriter) × (write record_codec w rec ≡ (ok written, w'))
        × Holds w' (rs ++ (rec ∷ []))
        × (w'.limit ≡ w.limit))
      ⊎ ((¬ IsAccepted w rs rec) × (write record_codec w rec ≡ (ok full, w)))
  unfolding write
  write-Holds = elim (Bool-cases over_limit) [
    | inl over ↦ inr (over_limit-refuses over, unfold over_limit est in rw over)
    | inr within ↦ elim (Bool-cases (ltb max_block_size est)) [
      | inl over ↦ inr (
        (λ (small, c). omega (arith, small, ltb→lt max_block_size est over, est-encoded_size)),
        unfold over_limit est in rw (within, over),
      )
      | inr fits ↦
          let small = ltb→le max_block_size est fits in
          inl (
            (omega (arith, small, est-encoded_size), within_limit-accepts within),
            next,
            unfold over_limit est next in rw (within, fits, grow w.buffer rec v),
            next-Holds small,
            unfold next in refl,
          )
    ]
  ]
