-- ===== src/Label/Codec/RoundTrip.antt =====
-- `LabelMapCodec`: label maps that `encode` accepts, and `decode` of what it writes.
use logregator.Common.{
  ℕ, suc, ◌+◌, ◌-◌, ◌%◌, ◌^◌, ◌≤◌, ◌<◌, ◌≡◌, refl, sym, ap, ◌∙◌, true, some, List, [], ◌∷◌, ◌++◌,
  append_assoc, append-nil, arith, Outcome, ok, Ordering, length, drop, length-append, All,
  All-append_split, le→leb, le→ltb, lt→ltb, to_be_bytes, length-to_be_bytes,
}
use logregator.Codec.{CodecError, Encoder}
use logregator.Codec.Buffer.{◌>>◌, return, copy, after, after_len, pass, copy-append}
use logregator.Label.{Str, Label, LabelMap}
use logregator.Label.Codec.{
  Nom, compare_str, insert, labels_wire_len, wire_len, check_labels, encode_labels,
  encode_label_map, take_lp_str, parse_labels, parse_label_map, decode_label_map,
}
use logregator.Label.Codec.Utf8.{is_utf8}

pub record IsStr (s : Str) : Type 0 where
  pub some_byte : 1 ≤ length s
  pub short : length s < 255
  pub utf8 : is_utf8 s ≡ true

-- The keys ascend.
abbrev pub IsSorted : List Label → Type 0
IsSorted [] = Unit
IsSorted (l ∷ m) = All (λ n. compare_str n.0 l.0 ≡ Ordering.gt) m × IsSorted m

-- A label map as `LabelMap::new` makes it, of at most 255 labels whose strings have 1 to 254 bytes.
pub record IsEncodable (hash : List Label → ℕ) (m : LabelMap) : Type 0 where
  pub strs : All (λ l. IsStr l.0 × IsStr l.1) m.inner
  pub count : length m.inner ≤ 255
  pub sorted : IsSorted m.inner
  pub fingerprint : m.fingerprint ≡ hash m.inner

unfoldable pub str_bytes : Str → List ℕ
str_bytes s = to_be_bytes 1 (length s % 2 ^ 8) ++ s

unfoldable pub labels_bytes : List Label → List ℕ
labels_bytes [] = []
labels_bytes ((k, v) ∷ m) = str_bytes k ++ (str_bytes v ++ labels_bytes m)

unfoldable pub label_map_bytes : LabelMap → List ℕ
label_map_bytes m = to_be_bytes 1 (length m.inner % 2 ^ 8) ++ labels_bytes m.inner

length-str_bytes : (s : Str) → length (str_bytes s) ≡ 1 + length s
unfolding str_bytes
length-str_bytes s = omega (
  arith,
  length-append (to_be_bytes 1 (length s % 2 ^ 8)) s,
  length-to_be_bytes 1 (length s % 2 ^ 8),
)

length-labels_bytes : (m : List Label) → length (labels_bytes m) ≡ labels_wire_len m
unfolding labels_bytes labels_wire_len
length-labels_bytes [] = refl
length-labels_bytes ((k, v) ∷ m) = omega (
  arith,
  length-append (str_bytes k) (str_bytes v ++ labels_bytes m),
  length-append (str_bytes v) (labels_bytes m),
  length-str_bytes k,
  length-str_bytes v,
  length-labels_bytes m,
)

check_labels_lem :
    (m : List Label) (dst : List ℕ)
    → All (λ l. IsStr l.0 × IsStr l.1) m
    → check_labels m dst ≡ (ok tt, dst)
unfolding check_labels return
check_labels_lem [] dst h = refl
check_labels_lem ((k, v) ∷ m) dst ((hk, hv), h) =
    pass _ _ _ (rw (le→leb 1 (length k) hk.some_byte, lt→ltb (length k) 255 hk.short)) (
      pass _ _ _ (rw (le→leb 1 (length v) hv.some_byte, lt→ltb (length v) 255 hv.short))
        (check_labels_lem m dst h))

-- A string is written behind what stands before it: its length, then its bytes.
copy_str :
    {B : Type 0} (written dst : List ℕ) (start end : ℕ) (s : Str) (rest : Encoder B)
    {out : Outcome CodecError B × List ℕ}
    → length written ≡ start
    → start + 1 + length s ≡ end
    → end ≤ length dst
    → rest (written ++ str_bytes s ++ drop end dst) ≡ out
    → (copy start (start + 1) (to_be_bytes 1 (length s % 2 ^ 8))
          >> (copy (start + 1) end s >> rest))
        (written ++ drop start dst)
      ≡ out
unfolding str_bytes
copy_str written dst start end s rest h j l e =
    let n = to_be_bytes 1 (length s % 2 ^ 8) in
    let one : length n ≡ 1 = length-to_be_bytes 1 (length s % 2 ^ 8) in
    after (copy start (start + 1) n) _
      (copy-append written dst start (start + 1) h (omega arith) (omega arith) n
        (omega (arith, one)))
      (after (copy (start + 1) end s) _
        (copy-append (written ++ n) dst (start + 1) end
          (omega (arith, h, one, length-append written n)) (omega arith) l s j)
        (ap (λ t. rest (t ++ drop end dst)) (append_assoc written n s) ∙ e))

pub encode_labels_lem :
    (m : List Label) (written dst : List ℕ) (start : ℕ)
    → length written ≡ start
    → start + labels_wire_len m ≤ length dst
    → encode_labels start m (written ++ drop start dst) ≡ (
      ok (start + labels_wire_len m),
      written ++ labels_bytes m ++ drop (start + labels_wire_len m) dst,
    )
unfolding encode_labels labels_bytes labels_wire_len return
encode_labels_lem [] written dst start h l =
    let e : start + 0 ≡ start = omega arith in rw (e, append-nil written)
encode_labels_lem ((k, v) ∷ m) written dst start h l =
    let mid = start + 1 + length k in
    let end = start + 1 + length k + 1 + length v in
    let total : start + (2 + (length k + length v) + labels_wire_len m) ≡ end + labels_wire_len m =
      omega arith in
    let ahead = written ++ str_bytes k ++ str_bytes v in
    copy_str written dst start mid k _ h refl (omega arith) (
      copy_str (written ++ str_bytes k) dst mid end v _
        (omega (arith, length-append written (str_bytes k), length-str_bytes k)) refl (omega arith)
        (encode_labels_lem m ahead dst end
            (omega (
              arith,
              length-append (written ++ str_bytes k) (str_bytes v),
              length-append written (str_bytes k),
              length-str_bytes k,
              length-str_bytes v,
            ))
            (omega arith)
          ∙ rw total (
              ap (λ t. (ok (end + labels_wire_len m), t ++ drop (end + labels_wire_len m) dst))
                (append_assoc (written ++ str_bytes k) (str_bytes v) (labels_bytes m)
                  ∙ append_assoc written (str_bytes k) (str_bytes v ++ labels_bytes m)))))

pub length-label_map_bytes : (m : LabelMap) → length (label_map_bytes m) ≡ wire_len m
unfolding label_map_bytes wire_len
length-label_map_bytes m = omega (
  arith,
  length-append (to_be_bytes 1 (length m.inner % 2 ^ 8)) (labels_bytes m.inner),
  length-to_be_bytes 1 (length m.inner % 2 ^ 8),
  length-labels_bytes m.inner,
)

pub encode_label_map_lem :
    (hash : List Label → ℕ) (m : LabelMap) (dst : List ℕ)
    → IsEncodable hash m
    → wire_len m ≤ length dst
    → encode_label_map m dst ≡ (ok (wire_len m), label_map_bytes m ++ drop (wire_len m) dst)
unfolding encode_label_map wire_len label_map_bytes
encode_label_map_lem hash m dst v h =
    let n = to_be_bytes 1 (length m.inner % 2 ^ 8) in
    let one : length n ≡ 1 = length-to_be_bytes 1 (length m.inner % 2 ^ 8) in
    pass _ _ _ (le→ltb 255 (length m.inner) v.count) (
      after (check_labels m.inner) _ (check_labels_lem m.inner dst v.strs) (
        after_len _ (
          pass _ _ _ (le→ltb (length dst) (1 + labels_wire_len m.inner) h) (
            after (copy 0 1 n) _
              (copy-append [] dst 0 1 refl (omega arith) (omega arith) n (omega (arith, one)))
              (encode_labels_lem m.inner n dst 1 one h)))))

-- Reading it back.
module _ (nom : Nom) (hash : List Label → ℕ) where
  take_lp_str-str_bytes :
      (s : Str) (rest : List ℕ)
      → IsStr s
      → take_lp_str nom hash (str_bytes s ++ rest) ≡ ok (rest, s)
  unfolding take_lp_str str_bytes to_be_bytes
  take_lp_str-str_bytes s rest v =
      let n : length s % 2 ^ 8 % 256 ≡ length s = omega (arith, v.short) in
      rw (nom.be_u8-cons (length s % 2 ^ 8 % 256) (s ++ rest), n, nom.take-append s rest, v.utf8)

  -- A key that is above all others is put at the end.
  insert-last :
      (k v : Str) (m : List Label)
      → All (λ l. compare_str k l.0 ≡ Ordering.gt) m
      → insert k v m ≡ m ++ ((k, v) ∷ [])
  unfolding insert
  insert-last k v [] h = refl
  insert-last k v ((k', v') ∷ m) (h, hs) = rw (h, insert-last k v m hs)

  above :
      (m : List Label) (l : Label) (rest : List Label)
      → IsSorted (m ++ (l ∷ rest))
      → All (λ n. compare_str l.0 n.0 ≡ Ordering.gt) m
  above [] l rest h = tt
  above (n ∷ m) l rest (hn, h) = (
    (All-append_split (λ x. compare_str x.0 n.0 ≡ Ordering.gt) m (l ∷ rest) hn).1.0,
    above m l rest h,
  )

  parse_labels-labels_bytes :
      (m acc : List Label) (rest : List ℕ)
      → All (λ l. IsStr l.0 × IsStr l.1) m
      → IsSorted (acc ++ m)
      → parse_labels nom hash (length m) (labels_bytes m ++ rest) acc ≡ ok (rest, acc ++ m)
  unfolding parse_labels labels_bytes
  parse_labels-labels_bytes [] acc rest h s = ap (λ t. ok (rest, t)) (sym (append-nil acc))
  parse_labels-labels_bytes ((k, v) ∷ m) acc rest ((hk, hv), h) s =
      rw
        (
          append_assoc (str_bytes k) (str_bytes v ++ labels_bytes m) rest,
          append_assoc (str_bytes v) (labels_bytes m) rest,
          take_lp_str-str_bytes k (str_bytes v ++ (labels_bytes m ++ rest)) hk,
          take_lp_str-str_bytes v (labels_bytes m ++ rest) hv,
          insert-last k v acc (above acc (k, v) m s),
        )
        (parse_labels-labels_bytes m (acc ++ ((k, v) ∷ [])) rest h
            (rw (append_assoc acc ((k, v) ∷ []) m) s)
          ∙ ap (λ t. ok (rest, t)) (append_assoc acc ((k, v) ∷ []) m))

  pub decode_label_map-bytes :
      (m : LabelMap) (rest : List ℕ)
      → IsEncodable hash m
      → decode_label_map nom hash (label_map_bytes m ++ rest) ≡ ok (some (m, wire_len m))
  unfolding decode_label_map parse_label_map label_map_bytes wire_len to_be_bytes
  decode_label_map-bytes m rest v =
      let n : length m.inner % 2 ^ 8 % 256 ≡ length m.inner = omega (arith, v.count) in
      let read : suc (length (labels_bytes m.inner ++ rest)) - length rest
          ≡ 1 + labels_wire_len m.inner =
        omega (arith, length-append (labels_bytes m.inner) rest, length-labels_bytes m.inner) in
      rw
        (
          nom.be_u8-cons (length m.inner % 2 ^ 8 % 256) (labels_bytes m.inner ++ rest),
          n,
          parse_labels-labels_bytes m.inner [] rest v.strs v.sorted,
          read,
        )
        (ap (λ t. ok (some (t, 1 + labels_wire_len m.inner))) (cc v.fingerprint))

-- Encoding and decoding a label map: `encode` succeeds in every `dst` that is long enough, and
-- `decode` of what it leaves there, with anything behind it, returns the label map and its length.
pub decode_label_map-encode_label_map :
    (nom : Nom) (hash : List Label → ℕ) (m : LabelMap) (dst rest : List ℕ)
    → IsEncodable hash m
    → wire_len m ≤ length dst
    → ((encode_label_map m dst).0 ≡ ok (wire_len m))
      × (decode_label_map nom hash ((encode_label_map m dst).1 ++ rest) ≡ ok (some (m, wire_len m)))
decode_label_map-encode_label_map nom hash m dst rest v h =
    rw (encode_label_map_lem hash m dst v h) (
      refl,
      rw (append_assoc (label_map_bytes m) (drop (wire_len m) dst) rest)
          (decode_label_map-bytes nom hash m (drop (wire_len m) dst ++ rest) v),
    )
