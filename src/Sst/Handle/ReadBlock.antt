-- ===== src/Sst/Handle/ReadBlock.antt =====
-- Reading a block of a file that a writer has written.
use mathlib.Core.Path.{subst}
use logregator.Common.{
  ℕ, suc, ◌+◌, ◌-◌, eq→==, ne→==, lt→ltb, le→leb, ltb→le, ◌≤◌, ◌≡◌, refl, ap, sym, ◌∙◌, inl, inr,
  Bool-cases, some, List, [], ◌∷◌, ◌++◌, append_assoc, length-append, slice-append, ok, arith, ltb,
  length, get_elem?,
}
use logregator.Block.{Block}
use logregator.Block.Format.{decode_block}
use logregator.Sst.{BlockMetadata}
use logregator.Sst.Finalize.{SstHandle}
use logregator.Sst.Handle.{block_end, read_block}
use logregator.Sst.Writer.Placed.{Placed, IsPlaced, Listed, bytes_of, block_of}

bytes_of-append : (xs ys : List Placed) → bytes_of (xs ++ ys) ≡ bytes_of xs ++ bytes_of ys
bytes_of-append [] ys = refl
bytes_of-append (x ∷ xs) ys =
    ap (λ t. x.bytes ++ t) (bytes_of-append xs ys)
    ∙ sym (append_assoc x.bytes (bytes_of xs) (bytes_of ys))

pub length-Listed :
    (at : ℕ) (ps : List Placed) (ms : List BlockMetadata) → Listed at ps ms → length ms ≡ length ps
length-Listed at [] [] l = refl
length-Listed at [] (m ∷ ms) l = absurd l
length-Listed at (p ∷ ps) [] l = absurd l
length-Listed at (p ∷ ps) (m ∷ ms) (a, b, c, l) =
    ap suc (length-Listed (at + length p.bytes) ps ms l)

pub offset_lem :
    (at : ℕ) (front : List Placed) (p : Placed) (back : List Placed) (ms : List BlockMetadata)
    → Listed at (front ++ (p ∷ back)) ms
    → (m : BlockMetadata) × (get_elem? ms (length front) ≡ some m)
      × (m.offset ≡ at + length (bytes_of front))
offset_lem at [] p back [] l = absurd l
offset_lem at [] p back (m ∷ ms) (o, f, k, l) = (m, refl, omega (arith, o))
offset_lem at (q ∷ front) p back [] l = absurd l
offset_lem at (q ∷ front) p back (m ∷ ms) (a, b, c, l) =
    let (n, e, o) = offset_lem (at + length q.bytes) front p back ms l in
    (n, e, omega (arith, o, length-append q.bytes (bytes_of front)))

-- A block is not empty.
some_byte :
    (crc : List ℕ → ℕ) (bytes : List ℕ) (b : Block)
    → decode_block crc bytes ≡ ok b
    → 4 ≤ length bytes
unfolding decode_block
some_byte crc bytes b e = elim (Bool-cases (ltb (length bytes) 4)) [
  | inl short ↦ cc (rw short at e)
  | inr enough ↦ ltb→le (length bytes) 4 enough
]

block_end_lem :
    (h : SstHandle (List ℕ)) (front : List Placed) (p : Placed) (back : List Placed)
    → Listed 0 (front ++ (p ∷ back)) h.block_metadata
    → h.block_metadata_start_offset ≡ length (bytes_of (front ++ (p ∷ back)))
    → block_end h (length front) ≡ ok (length (bytes_of front) + length p.bytes)
block_end_lem h front p [] l e =
    let count = length-Listed 0 (front ++ (p ∷ [])) h.block_metadata l in
    rw
      (eq→== (length front) (length h.block_metadata - 1)
        (omega (arith, count, length-append front (p ∷ []))))
      (ap ok (
        omega (
          arith,
          e,
          ap length (bytes_of-append front (p ∷ [])),
          length-append (bytes_of front) (p.bytes ++ []),
          length-append p.bytes [],
        )))
block_end_lem h front p (q ∷ back) l e =
    let count = length-Listed 0 (front ++ (p ∷ q ∷ back)) h.block_metadata l in
    let (n, found, o) = offset_lem 0 (front ++ (p ∷ [])) q back h.block_metadata (
      subst (λ ps. Listed 0 ps h.block_metadata) (sym (append_assoc front (p ∷ []) (q ∷ back)))
        l) in
    let at : length (front ++ (p ∷ [])) ≡ length front + 1 = length-append front (p ∷ []) in
    rw
      (
        ne→== (length front) (length h.block_metadata - 1)
            (λ same. omega (arith, same, count, length-append front (p ∷ q ∷ back))),
        sym at,
        found,
      )
      (ap ok (
        omega (
          arith,
          o,
          ap length (bytes_of-append front (p ∷ [])),
          length-append (bytes_of front) (p.bytes ++ []),
          length-append p.bytes [],
        )))

-- On a file that starts with the blocks that a writer has placed, with their metadata in the handle
-- and the end of the blocks where the metadata starts, reading a block by its index returns the block
-- of its records.
pub read_block_lem :
    (crc : List ℕ → ℕ) (h : SstHandle (List ℕ)) (front : List Placed) (p : Placed)
    (back : List Placed) (rest : List ℕ)
    → IsPlaced crc p
    → Listed 0 (front ++ (p ∷ back)) h.block_metadata
    → h.block_metadata_start_offset ≡ length (bytes_of (front ++ (p ∷ back)))
    → h.fh ≡ bytes_of (front ++ (p ∷ back)) ++ rest
    → read_block crc h (length front) ≡ ok (block_of p.records)
unfolding read_block
read_block_lem crc h front p back rest v l e file =
    let (m, found, o) = offset_lem 0 front p back h.block_metadata l in
    let start : m.offset ≡ length (bytes_of front) = omega (arith, o) in
    let parts : h.fh ≡ bytes_of front ++ (p.bytes ++ (bytes_of back ++ rest)) =
      file
      ∙ ap (λ t. t ++ rest) (bytes_of-append front (p ∷ back))
      ∙ append_assoc (bytes_of front) (p.bytes ++ bytes_of back) rest
      ∙ ap (λ t. bytes_of front ++ t) (append_assoc p.bytes (bytes_of back) rest) in
    let size : length (bytes_of front) + length p.bytes ≤ length h.fh = omega (
      arith,
      ap length parts,
      length-append (bytes_of front) (p.bytes ++ (bytes_of back ++ rest)),
      length-append p.bytes (bytes_of back ++ rest),
    ) in
    rw (
      found,
      block_end_lem h front p back l e,
      start,
      lt→ltb (length (bytes_of front)) (length (bytes_of front) + length p.bytes)
          (omega (arith, some_byte crc p.bytes (block_of p.records) v.decoded)),
      le→leb (length (bytes_of front) + length p.bytes) (length h.fh) size,
      parts,
      slice-append (bytes_of front) p.bytes (bytes_of back ++ rest) (length (bytes_of front))
          (length (bytes_of front) + length p.bytes) refl refl,
      v.decoded,
    )
