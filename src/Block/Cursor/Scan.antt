-- ===== src/Block/Cursor/Scan.antt =====
-- `BlockCursor` over a block of records: what it shows at each position.
use logregator.Common.{
  ℕ, zero, suc, ◌+◌, ◌≤◌, ◌≡◌, refl, sym, ap, ◌∙◌, List, [], ◌∷◌, ◌++◌, append_assoc, append-nil,
  map, Option, none, some, ok, arith, All, All-append_split, get_elem?, length, length-append,
  slice-append, range-ok,
}
use logregator.Record.{Record, IsEncodable, wire_len}
use logregator.Record.Codec.{record_codec}
use logregator.Record.Encode.{record_bytes}
use logregator.Record.RoundTrip.{decode_record-record_bytes, length-record_bytes}
use logregator.Record.Decode.{decode_record}
use logregator.Codec.{SpecCodec}
use logregator.Block.{Block, offset_segment_start}
use logregator.Block.Writer.Holds.{frames, starts, length-frames-cons}
use logregator.Block.Cursor.{
  BlockCursor, new, current_record, end_offset, or_end, update_current, next, seek_to_first,
}

-- What the cursor shows at each of its next `n` positions.
abbrev pub scan : SpecCodec Record → ℕ → BlockCursor → List (Option Record)
scan codec zero c = []
scan codec (suc n) c = current_record c ∷ scan codec n (next codec c)

-- The frames of the records, and where each one starts.
pub record HasRecords (b : Block) (rs : List Record) : Type 0 where
  pub data_bytes : b.data_bytes ≡ frames rs
  pub offsets : b.offsets ≡ starts 0 rs
  pub encodable : All IsEncodable rs

frames-append : (xs ys : List Record) → frames (xs ++ ys) ≡ frames xs ++ frames ys
frames-append [] ys = refl
frames-append (x ∷ xs) ys =
    ap (λ t. record_bytes x ++ t) (frames-append xs ys)
    ∙ sym (append_assoc (record_bytes x) (frames xs) (frames ys))

get_elem?-starts :
    (at : ℕ) (front : List Record) (r : Record) (back : List Record)
    → get_elem? (starts at (front ++ (r ∷ back))) (length front) ≡ some (at + length (frames front))
get_elem?-starts at [] r back = ap some {x = at} {y = at + 0} (omega arith)
get_elem?-starts at (f ∷ front) r back =
    get_elem?-starts (at + wire_len f) front r back
    ∙ ap some {x = at + wire_len f + length (frames front)} {y = at + length (frames (f ∷ front))}
        (omega (arith, length-frames-cons f front))

pub get_elem?-end :
    (at : ℕ) (rs : List Record) (i : ℕ) → length rs ≤ i → get_elem? (starts at rs) i ≡ none
get_elem?-end at [] i h = refl
get_elem?-end at (r ∷ rs) zero h = absurd (omega arith)
get_elem?-end at (r ∷ rs) (suc i) h = get_elem?-end (at + wire_len r) rs i (omega arith)

length-frames-snoc :
    (front : List Record) (r : Record)
    → length (frames (front ++ (r ∷ []))) ≡ length (frames front) + wire_len r
length-frames-snoc front r = omega (
  arith,
  ap length (frames-append front (r ∷ [])),
  length-append (frames front) (frames (r ∷ [])),
  length-frames-cons r [],
)

end_offset-starts :
    (b : Block) (front : List Record) (r : Record) (back : List Record)
    → HasRecords b (front ++ (r ∷ back))
    → end_offset b (length front) ≡ length (frames front) + wire_len r
unfolding end_offset offset_segment_start
end_offset-starts b front r [] h =
    ap (λ t. or_end (length b.data_bytes) (get_elem? t (length front + 1))) h.offsets
    ∙ ap (or_end (length b.data_bytes)) (
        get_elem?-end 0 (front ++ (r ∷ [])) (length front + 1)
          (omega (arith, length-append front (r ∷ []))))
    ∙ ap length h.data_bytes
    ∙ length-frames-snoc front r
end_offset-starts b front r (s ∷ back) h =
    let at : get_elem? (starts 0 (front ++ (r ∷ s ∷ back))) (length front + 1)
        ≡ some (length (frames front) + wire_len r) =
      ap (λ t. get_elem? (starts 0 t) (length front + 1))
        (sym (append_assoc front (r ∷ []) (s ∷ back)))
      ∙ ap (get_elem? (starts 0 ((front ++ (r ∷ [])) ++ (s ∷ back)))) {x = length front + 1}
          {y = length (front ++ (r ∷ []))} (omega (arith, length-append front (r ∷ [])))
      ∙ get_elem?-starts 0 (front ++ (r ∷ [])) s back
      ∙ ap some {x = 0 + length (frames (front ++ (r ∷ [])))}
          {y = length (frames front) + wire_len r} (omega (arith, length-frames-snoc front r)) in
    ap (λ t. or_end (length b.data_bytes) (get_elem? t (length front + 1))) h.offsets
    ∙ ap (or_end (length b.data_bytes)) at

module _ (b : Block) where
  abbrev pub stop_at : ℕ → BlockCursor
  stop_at i = update_current record_codec (record { block = b; offset_idx = i; current = ok none })

  pub shows_record :
      (front : List Record) (r : Record) (back : List Record)
      → HasRecords b (front ++ (r ∷ back))
      → current_record (stop_at (length front)) ≡ some r
  unfolding current_record update_current
  shows_record front r back h =
      let start = length (frames front) in
      let v = (All-append_split IsEncodable front (r ∷ back) h.encodable).1 in
      let split : b.data_bytes ≡ frames front ++ (record_bytes r ++ frames back) =
        h.data_bytes ∙ frames-append front (r ∷ back) in
      let long : start + wire_len r ≤ length b.data_bytes = omega (
        arith,
        ap length split,
        length-append (frames front) (record_bytes r ++ frames back),
        length-append (record_bytes r) (frames back),
        length-record_bytes r,
      ) in
      let decode : decode_record (record_bytes r) ≡ ok (some (r, wire_len r)) =
        ap decode_record (sym (append-nil (record_bytes r)))
        ∙ decode_record-record_bytes r [] v.0 in
      rw (
        h.offsets,
        get_elem?-starts 0 front r back,
        end_offset-starts b front r back h,
        range-ok b.data_bytes (0 + start) (start + wire_len r) (omega arith) long,
        split,
        slice-append (frames front) (record_bytes r) (frames back) (0 + start) (start + wire_len r)
            (omega arith) (omega (arith, length-record_bytes r)),
        decode,
      )

  pub stop_at-end : (rs : List Record) → HasRecords b rs → (stop_at (length rs)).current ≡ ok none
  unfolding update_current
  stop_at-end rs h = rw (update_current, h.offsets, get_elem?-end 0 rs (length rs) (omega arith))

  shows_nothing : (rs : List Record) → HasRecords b rs → current_record (stop_at (length rs)) ≡ none
  unfolding current_record update_current
  shows_nothing rs h = rw (h.offsets, get_elem?-end 0 rs (length rs) (omega arith))

  scan-stop_at :
      (front rs : List Record)
      → HasRecords b (front ++ rs)
      → scan record_codec (suc (length rs)) (stop_at (length front)) ≡ map some rs ++ (none ∷ [])
  unfolding next update_current
  scan-stop_at front [] h =
      ap (λ t. t ∷ [])
        (ap (λ t. current_record (stop_at (length t))) (sym (append-nil front))
          ∙ shows_nothing (front ++ []) h)
  scan-stop_at front (r ∷ rs) h =
      ap (λ t. t ∷ scan record_codec (suc (length rs)) (stop_at (length front + 1)))
        (shows_record front r rs h)
      ∙ ap (λ t. some r ∷ scan record_codec (suc (length rs)) (stop_at t))
          {y = length (front ++ (r ∷ []))} (omega (arith, length-append front (r ∷ [])))
      ∙ ap (λ t. some r ∷ t)
          (scan-stop_at (front ++ (r ∷ [])) rs (rw (append_assoc front (r ∷ []) rs) h))

-- From the first record on, the cursor shows the records of the block in order, and then none.
pub scan-seek_to_first :
    (b : Block) (rs : List Record)
    → HasRecords b rs
    → scan record_codec (suc (length rs)) (seek_to_first record_codec (new b))
      ≡ map some rs ++ (none ∷ [])
unfolding seek_to_first new
scan-seek_to_first b rs h = scan-stop_at b [] rs h
