-- ===== src/Sst/Cursor/Reads.antt =====
-- What the steps on a cursor give, over a file that a writer has written.
use mathlib.Core.Path.{subst}
use logregator.Common.{
  ℕ, zero, suc, ◌+◌, ◌≤◌, ◌≡◌, ◌≢◌, refl, ap, sym, ◌∙◌, true, Option, none, some, List, [], ◌∷◌,
  ◌++◌, append_assoc, append-nil, length-append, Outcome, ok, ◌>>=◌, arith, map, length, get_elem?,
  All, All-append_split,
}
use logregator.Common.Bound.{Bound}
use logregator.Codec.{CodecError}
use logregator.Record.{Key, Record, IsEncodable}
use logregator.Block.Cursor.Scan.{stop_at, stop_at-end, shows_record, HasRecords}
use logregator.Memtable.Set.{before_end}
use logregator.Sst.{BlockMetadata}
use logregator.Sst.Cursor.{SstCursor}
use logregator.Sst.Cursor.Pull.{
  standing, step_of, current_of_record, pull-record, pull-block, pull-end,
}
use logregator.Sst.Finalize.{SstHandle}
use logregator.Sst.Handle.{read_block}
use logregator.Sst.Handle.ReadBlock.{length-Listed, offset_lem, read_block_lem}
use logregator.Sst.Writer.{SstError}
use logregator.Sst.Writer.Placed.{Placed, IsPlaced, Listed, all_of, bytes_of, block_of}

-- What `n` steps on a cursor give.
unfoldable pub steps : (List ℕ → ℕ) → ℕ → SstCursor → Outcome SstError (List (Option Record))
steps crc zero c = ok []
steps crc (suc n) c = do (o, c') ← step_of crc c; rest ← steps crc n c'; ok (o ∷ rest)

get_elem?-past : (ms : List BlockMetadata) (i : ℕ) → length ms ≤ i → get_elem? ms i ≡ none
get_elem?-past [] i h = refl
get_elem?-past (m ∷ ms) zero h = absurd (omega arith)
get_elem?-past (m ∷ ms) (suc i) h = get_elem?-past ms i (omega arith)

HasRecords-block_of : (rs : List Record) → All IsEncodable rs → HasRecords (block_of rs) rs
HasRecords-block_of rs v = record { data_bytes = refl; offsets = refl; encodable = v }

first_of : (rs : List Record) → rs ≢ [] → (r : Record) × (rest : List Record) × (rs ≡ r ∷ rest)
first_of [] h = absurd (h refl)
first_of (r ∷ rest) h = (r, rest, refl)

module _ (crc : List ℕ → ℕ) where
  -- The file starts with the blocks, the handle has their metadata, and every block begins before the
  -- end bound.
  pub record IsWritten (h : SstHandle (List ℕ)) (placed : List Placed) (end : Bound Key)
      : Type 0 where
    pub rest : List ℕ
    pub blocks : All (IsPlaced crc) placed
    pub encodable : All (λ q. All IsEncodable q.records) placed
    pub listed : Listed 0 placed h.block_metadata
    pub start : h.block_metadata_start_offset ≡ length (bytes_of placed)
    pub file : h.fh ≡ bytes_of placed ++ rest
    pub begins :
        (i : ℕ) (m : BlockMetadata)
        → get_elem? h.block_metadata i ≡ some m
        → before_end end m.first_key ≡ true

  -- The cursor stands on the last of the records `done` of the block `p`.
  pub record IsAt (c : SstCursor) (front : List Placed) (p : Placed) (back : List Placed)
      (done rest : List Record) : Type 0 where
    pub i : ℕ
    pub cur : Outcome CodecError (Option Record)
    pub cursor : c.block_cursor ≡ ok (standing (block_of p.records) i cur)
    pub split : p.records ≡ done ++ rest
    pub place : i + 1 ≡ length done
    pub idx : c.block_idx ≡ length front
    pub table : IsWritten c.sst (front ++ (p ∷ back)) c.end_bound

  next_record :
      (c : SstCursor) (front : List Placed) (p : Placed) (back : List Placed) (done : List Record)
      (r : Record) (rest : List Record)
      → IsAt c front p back done (r ∷ rest)
      → (c' : SstCursor) × (step_of crc c ≡ ok (some r, c'))
        × IsAt c' front p back (done ++ (r ∷ [])) rest
  next_record c front p back done r rest a =
      let v = (All-append_split _ front (p ∷ back) a.table.encodable).1.0 in
      let shown : (stop_at (block_of p.records) (a.i + 1)).current ≡ ok (some r) =
        ap (λ n. (stop_at (block_of p.records) n).current) a.place
        ∙ current_of_record _ r (
            shows_record (block_of p.records) done r rest (
              subst (HasRecords (block_of p.records)) a.split (HasRecords-block_of p.records v))) in
      (
        _,
        pull-record crc c (block_of p.records) a.i a.cur r a.cursor shown,
        record {
          i = a.i + 1;
          cur = ok none;
          cursor = refl;
          split = a.split ∙ sym (append_assoc done (r ∷ []) rest);
          place = omega (arith, a.place, length-append done (r ∷ []));
          idx = a.idx;
          table = a.table;
        },
      )

  at_end :
      (c : SstCursor) (front : List Placed) (p : Placed) (back : List Placed) (done : List Record)
      (a : IsAt c front p back done [])
      → (stop_at (block_of p.records) (a.i + 1)).current ≡ ok none
  at_end c front p back done a =
      let v = (All-append_split _ front (p ∷ back) a.table.encodable).1.0 in
      let whole : p.records ≡ done = a.split ∙ append-nil done in
      ap (λ n. (stop_at (block_of p.records) n).current) (a.place ∙ ap length (sym whole))
      ∙ stop_at-end (block_of p.records) p.records (HasRecords-block_of p.records v)

  next_block :
      (c : SstCursor) (front : List Placed) (p q : Placed) (back : List Placed) (done : List Record)
      (r : Record) (rest : List Record)
      → q.records ≡ r ∷ rest
      → IsAt c front p (q ∷ back) done []
      → (c' : SstCursor) × (step_of crc c ≡ ok (some r, c'))
        × IsAt c' (front ++ (p ∷ [])) q back (r ∷ []) rest
  next_block c front p q back done r rest e a =
      let table =
        subst (λ ps. IsWritten c.sst ps c.end_bound) (sym (append_assoc front (p ∷ []) (q ∷ back)))
          a.table in
      let one : c.block_idx + 1 ≡ length (front ++ (p ∷ [])) =
        omega (arith, a.idx, length-append front (p ∷ [])) in
      let (m, found, o) =
        offset_lem 0 (front ++ (p ∷ [])) q back c.sst.block_metadata table.listed in
      let vq = (All-append_split _ (front ++ (p ∷ [])) (q ∷ back) table.encodable).1.0 in
      let pq = (All-append_split _ (front ++ (p ∷ [])) (q ∷ back) table.blocks).1.0 in
      let first : (stop_at (block_of q.records) 0).current ≡ ok (some r) = current_of_record _ r (
        shows_record (block_of q.records) [] r rest
          (subst (HasRecords (block_of q.records)) e (HasRecords-block_of q.records vq))) in
      let count =
        length-Listed 0 ((front ++ (p ∷ [])) ++ (q ∷ back)) c.sst.block_metadata table.listed in
      (
        _,
        pull-block crc c (block_of p.records) (block_of q.records) a.i a.cur m r a.cursor
            (at_end c front p (q ∷ back) done a) (ap (get_elem? c.sst.block_metadata) one ∙ found)
            (table.begins _ m found)
            (omega (arith, count, one, length-append (front ++ (p ∷ [])) (q ∷ back)))
            (ap (read_block crc c.sst) one
              ∙ read_block_lem crc c.sst (front ++ (p ∷ [])) q back table.rest pq table.listed
                  table.start table.file)
            first,
        record {
          i = 0;
          cur = ok none;
          cursor = refl;
          split = e;
          place = omega arith;
          idx = one;
          table = table;
        },
      )

  exhausted :
      (c : SstCursor) (front : List Placed) (p : Placed) (done : List Record)
      → IsAt c front p [] done []
      → (c' : SstCursor) × (step_of crc c ≡ ok (none, c'))
  exhausted c front p done a =
      let count = length-Listed 0 (front ++ (p ∷ [])) c.sst.block_metadata a.table.listed in
      (
        _,
        pull-end crc c (block_of p.records) a.i a.cur a.cursor (at_end c front p [] done a) (
            get_elem?-past c.sst.block_metadata (c.block_idx + 1)
              (omega (arith, count, a.idx, length-append front (p ∷ [])))),
      )

  steps-suc :
      (n : ℕ) (c c' : SstCursor) (o : Option Record) (os : List (Option Record))
      → step_of crc c ≡ ok (o, c')
      → steps crc n c' ≡ ok os
      → steps crc (suc n) c ≡ ok (o ∷ os)
  unfolding steps
  steps-suc n c c' o os e h = rw (e, h)

  -- A cursor that stands on a record of a table, every block of which begins before the end bound, gives
  -- in steps of the merge iterator the records behind that one in its block, then those of the blocks
  -- behind it, and then none.
  pub steps-IsAt :
      (back : List Placed) (rest : List Record) (c : SstCursor) (front : List Placed) (p : Placed)
      (done : List Record)
      → IsAt c front p back done rest
      → steps crc (suc (length (rest ++ all_of back))) c
        ≡ ok (map some (rest ++ all_of back) ++ (none ∷ []))
  steps-IsAt back (r ∷ rest) c front p done a =
      let (c', e, a') = next_record c front p back done r rest a in
      steps-suc _ c c' (some r) _ e (steps-IsAt back rest c' front p (done ++ (r ∷ [])) a')
  steps-IsAt [] [] c front p done a =
      let (c', e) = exhausted c front p done a in steps-suc 0 c c' none [] e (unfold steps in refl)
  steps-IsAt (q ∷ back) [] c front p done a =
      let blocks = (All-append_split _ front (p ∷ q ∷ back) a.table.blocks).1 in
      let (r, rest, e) = first_of q.records blocks.1.0.some_record in
      let (c', stepped, a') = next_block c front p q back done r rest e a in
      subst
        (λ rs.
          steps crc (suc (length (rs ++ all_of back))) c
          ≡ ok (map some (rs ++ all_of back) ++ (none ∷ [])))
        (sym e)
        (steps-suc _ c c' (some r) _ stepped
          (steps-IsAt back rest c' (front ++ (p ∷ [])) q (r ∷ []) a'))
