-- ===== src/Manifest/Tests.antt =====
-- Two parts of a manifest, and the frame of a compaction.
use logregator.Common.{
  ◌≡◌, refl, List, [], ◌∷◌, ◌++◌, get, put, ok, err, some, arith, replicate, take,
}
use logregator.Manifest.{
  ManifestEntry, memtable_flush, compaction, live, from_manifest, merge, remove,
}
use logregator.Codec.{not_enough_bytes}
use logregator.Label.Tests.{toy_nom, toy_hash}
use logregator.Manifest.Codec.{wire_len, encode_entry, decode_entry}
use logregator.Manifest.Codec.Encode.{labels, entry_bytes}
use logregator.Manifest.Codec.RoundTrip.{as_read, decode_entry-encode_entry}
use logregator.Manifest.Codec.Cut.{decode_entry-cut}
use logregator.Manifest.Merge.{lookup, only_live, merge-from_manifest}

abbrev before : List ManifestEntry
before = memtable_flush 1 ∷ memtable_flush 2 ∷ []

abbrev later : List ManifestEntry
later = compaction (1 ∷ []) ∷ memtable_flush 3 ∷ []

merged :
    (merge (from_manifest before) (from_manifest later)).sstable_state ≡ (2, live) ∷ (3, live) ∷ []
unfolding merge from_manifest put get remove
merged = refl

merge-from_manifest_example :
    (only_live (lookup 1 (merge (from_manifest before) (from_manifest later)).sstable_state)
      ≡ only_live (lookup 1 (from_manifest (before ++ later)).sstable_state))
    × (lookup 1 (merge (from_manifest before) (from_manifest later)).labelmaps
        ≡ lookup 1 (from_manifest (before ++ later)).labelmaps)
merge-from_manifest_example = merge-from_manifest before later 1

abbrev removal : ManifestEntry
removal = compaction (7 ∷ 8 ∷ 9 ∷ [])

decode_entry-encode_entry_example :
    ((encode_entry (labels toy_nom toy_hash) removal (replicate 30 0)).0
      ≡ ok (wire_len (labels toy_nom toy_hash) removal))
    × (decode_entry
          (labels toy_nom toy_hash)
          ((encode_entry (labels toy_nom toy_hash) removal (replicate 30 0)).1 ++ (5 ∷ []))
        ≡ ok (some (as_read removal, wire_len (labels toy_nom toy_hash) removal)))
decode_entry-encode_entry_example =
    decode_entry-encode_entry toy_nom toy_hash removal (replicate 30 0) (5 ∷ [])
      ((omega arith, (omega arith, (omega arith, tt))), omega arith)
      (unfold wire_len in omega arith)

-- The ids 7, 8 and 9 come back as 7, 7 and 7.
ids_repeated : as_read removal ≡ compaction (7 ∷ 7 ∷ 7 ∷ [])
ids_repeated = refl

decode_entry-cut_example :
    decode_entry (labels toy_nom toy_hash) (take 11 (entry_bytes removal))
    ≡ err (not_enough_bytes 11 29)
decode_entry-cut_example =
    decode_entry-cut toy_nom toy_hash removal 11 tt
      ((omega arith, (omega arith, (omega arith, tt))), omega arith) (omega arith)
      (unfold wire_len in omega arith)
