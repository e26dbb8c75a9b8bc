-- ===== src/Sst/Writer/Write.antt =====
-- `HashedWriterState::write` of a record that the codec accepts.
use mathlib.Core.Path.{subst}
use logregator.Common.{
  ℕ, suc, ◌+◌, ◌≤◌, ◌<◌, ◌≡◌, ◌≢◌, refl, ap, sym, ◌∙◌, inl, inr, Bool, List, [], ◌∷◌, ◌++◌,
  append_assoc, length-append, All-append, ok, arith, length, All, IsU32,
}
use logregator.Record.{Record, IsEncodable, wire_len}
use logregator.Record.Codec.{record_codec}
use logregator.Record.RoundTrip.{length-record_bytes}
use logregator.Record.Encode.{record_bytes}
use logregator.Block.Writer
use logregator.Block.Writer.{BlockWriter, written, full, est_total_size}
use logregator.Block.Writer.Holds.{Holds, IsAccepted, write-Holds, frames, frames-snoc}
use logregator.Bloom.Contains.{may_contain-insert}
use logregator.Sst.Writer.{
  HashedWriterState, Left, max_sst_size, with_block_writer, with_bloom, wrote, write,
}
use logregator.Sst.Writer.Placed.{largest, Placed, all_of, all_of-snoc}
use logregator.Sst.Writer.Table.{
  IsTable, IsTotal, HasRoom, largest_data, leb-false, flush_blocks_lem,
}

All-map :
    {A : Type 0} (P Q : A → Type 0) → ((a : A) → P a → Q a) → (xs : List A) → All P xs → All Q xs
All-map P Q f [] h = tt
All-map P Q f (x ∷ xs) (hx, h) = (f x hx, All-map P Q f xs h)

-- An empty block takes every record.
IsAccepted-empty :
    (w : BlockWriter) (rec : Record) → Holds w [] → IsEncodable rec → IsAccepted w [] rec
IsAccepted-empty w rec h v = (
  omega (arith, v.longest, length-append (record_bytes rec) [], length-record_bytes rec),
  inl refl,
)

-- A block writer with a small limit stays small.
small_lem :
    (w w' : BlockWriter) (rs : List Record) (rec : Record)
    → Holds w rs
    → Holds w' (rs ++ (rec ∷ []))
    → IsEncodable rec
    → IsAccepted w rs rec
    → w.limit ≤ largest_data
    → w'.size ≤ largest_data
small_lem w w' rs rec h h' v (fits, why) small =
    let size : w'.size ≡ w.size + wire_len rec = omega (
      arith,
      h.size,
      h'.size,
      ap length (frames-snoc rs rec),
      length-append (frames rs) (record_bytes rec),
      length-record_bytes rec,
    ) in
    elim why [
      | inl none_yet ↦ omega (arith, size, h.size, ap (λ t. length (frames t)) none_yet, v.longest)
      | inr within ↦ omega (arith, size, within, small)
    ]

module _ {W : Type 0} (contents : W → List ℕ) (write_all : W → List ℕ → Bool × W)
    (crc hash_1 hash_2 : List ℕ → ℕ) (rec : Record) (v : IsEncodable rec) where
  abbrev Table : HashedWriterState W → List Placed → List Record → Type 0
  Table = IsTable contents write_all crc hash_1 hash_2

  -- What the block writer takes is in the table, and in the filter.
  taken :
      (again : HashedWriterState W → Left W) (s : HashedWriterState W) (placed : List Placed)
      (current : List Record) (w : BlockWriter)
      → Table s placed current
      → Writer.write record_codec s.state.block_writer rec ≡ (ok written, w)
      → Holds w (current ++ (rec ∷ []))
      → w.limit ≡ s.state.block_writer.limit
      → IsAccepted s.state.block_writer current rec
      → (s' : HashedWriterState W) × (wrote write_all crc hash_1 hash_2 record_codec again s rec
            (Writer.write record_codec s.state.block_writer rec)
          ≡ (ok tt, s'))
        × Table s' placed (current ++ (rec ∷ []))
        × (s'.state.block_bytes_written ≡ s.state.block_bytes_written)
  taken again s placed current w t e h l a =
      let (g, ins, valid, has, keeps) =
        may_contain-insert hash_1 hash_2 s.state.bloom rec.key.stream_id t.bloom in
      (
        with_bloom (with_block_writer s w) g,
        rw (e, ins),
        record {
          blocks = t.blocks;
          holds = h;
          on_disk = t.on_disk;
          integrity_hasher = t.integrity_hasher;
          block_bytes_written = t.block_bytes_written;
          block_meta = t.block_meta;
          record_count = t.record_count;
          first_key = t.first_key;
          last_key = t.last_key;
          limit = l ∙ t.limit;
          small_limit = t.small_limit;
          small_block =
              small_lem s.state.block_writer w current rec t.holds h v a
                (omega (arith, t.limit, t.small_limit));
          bloom = valid;
          in_bloom = subst (All _) (append_assoc (all_of placed) current (rec ∷ [])) (
              All-append _ (all_of placed ++ current) (rec ∷ [])
                (All-map _ _ (λ r. keeps r.key.stream_id) _ t.in_bloom) (has, tt));
        },
        refl,
      )

  -- One call that the block writer accepts, on any fuel.
  write-taken :
      (fuel : ℕ) (s : HashedWriterState W) (placed : List Placed) (current : List Record)
      → Table s placed current
      → s.state.block_bytes_written < max_sst_size
      → IsAccepted s.state.block_writer current rec
      → (s' : HashedWriterState W) × (write write_all crc hash_1 hash_2 record_codec
            (suc fuel)
            rec
            s
          ≡ (ok tt, s'))
        × Table s' placed (current ++ (rec ∷ []))
        × (s'.state.block_bytes_written ≡ s.state.block_bytes_written)
  unfolding write
  write-taken fuel s placed current t room a =
      elim (write-Holds s.state.block_writer current rec t.holds v) [
        | inl (acc, w, e, h, l) ↦
            let (s', eq, t', size) =
              taken (write write_all crc hash_1 hash_2 record_codec fuel rec) s placed current w t e
                h l a in
            (s', rw (leb-false max_sst_size s.state.block_bytes_written room) eq, t', size)
        | inr (refused, e) ↦ absurd (refused a)
      ]

  -- With room for one block more, a writer that always writes everything, and a record that the codec
  -- accepts, `write` succeeds after at most one recursive call: the blocks and the block writer hold
  -- what they held, and behind it the record; at most the largest block is written.
  pub write_lem :
      IsTotal contents write_all crc hash_1 hash_2
      → ((bs : List ℕ) → IsU32 (crc bs))
      → (s : HashedWriterState W) (placed : List Placed) (current : List Record)
      → Table s placed current
      → HasRoom contents write_all crc hash_1 hash_2 s
      → (s' : HashedWriterState W) × (placed' : List Placed) × (current' : List Record) × (write
            write_all crc hash_1 hash_2 record_codec 2 rec s
          ≡ (ok tt, s'))
        × Table s' placed' current'
        × (all_of placed' ++ current' ≡ (all_of placed ++ current) ++ (rec ∷ []))
        × (s'.state.block_bytes_written ≤ s.state.block_bytes_written + largest)
  unfolding write
  write_lem total fits s placed current t room =
      elim (write-Holds s.state.block_writer current rec t.holds v) [
        | inl (a, w, e, h, l) ↦
            let (s', eq, t', size) = write-taken 1 s placed current t (omega (arith, room)) a in
            (
              s',
              placed,
              current ++ (rec ∷ []),
              eq,
              t',
              sym (append_assoc (all_of placed) current (rec ∷ [])),
              omega (arith, size),
            )
        | inr (refused, e) ↦
            let some_record : current ≢ [] = λ none_yet. refused (
              subst (λ rs. IsAccepted s.state.block_writer rs rec) (sym none_yet)
                (IsAccepted-empty s.state.block_writer rec
                  (subst (Holds s.state.block_writer) none_yet t.holds) v)) in
            let (mid, flushed, bytes, t', near, same) =
              flush_blocks_lem contents write_all crc hash_1 hash_2 total fits s placed current t
                room some_record in
            let block : Placed = record { records = current; bytes = bytes } in
            let (s', eq, t'', size) =
              write-taken 0 mid (placed ++ (block ∷ [])) [] t' (omega (arith, near, room))
                (IsAccepted-empty mid.state.block_writer rec t'.holds v) in
            (
              s',
              placed ++ (block ∷ []),
              rec ∷ [],
              rw
                  (
                    leb-false max_sst_size s.state.block_bytes_written (omega (arith, room)),
                    e,
                    flushed,
                  )
                  eq,
              t'',
              ap (λ x. x ++ (rec ∷ [])) (all_of-snoc placed block),
              omega (arith, size, near),
            )
      ]
