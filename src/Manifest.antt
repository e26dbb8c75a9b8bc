-- ===== src/Manifest.antt =====
-- logregator-tsdb/src/manifest.rs: the entries of the manifest, and the snapshots that they add up to.
pub mod Codec
pub mod Merge
mod Tests
use logregator.Common.{ℕ, ◌==◌, Option, none, some, List, [], ◌∷◌, put, if◌then◌else◌}
use logregator.Label.{LabelMap}

pub data SstState : Type 0 where
  live : SstState
  removed : SstState

pub data ManifestEntry : Type 0 where
  memtable_flush : ℕ → ManifestEntry
  compaction : List ℕ → ManifestEntry
  stream_update : ℕ → LabelMap → ManifestEntry

pub record Snapshot : Type 0 where
  pub sstable_state : List (ℕ × SstState)
  pub labelmaps : List (ℕ × LabelMap)

abbrev pub empty : Snapshot
empty = record { sstable_state = []; labelmaps = [] }

-- The inner loop of `from_manifest`.
abbrev pub mark_removed : List ℕ → List (ℕ × SstState) → List (ℕ × SstState)
mark_removed [] ssts = ssts
mark_removed (id ∷ ids) ssts = mark_removed ids (put ◌==◌ id removed ssts)

abbrev pub enter : ManifestEntry → Snapshot → Snapshot
enter (memtable_flush id) s = record {
  sstable_state = put ◌==◌ id live s.sstable_state;
  labelmaps = s.labelmaps;
}
enter (compaction ids) s = record {
  sstable_state = mark_removed ids s.sstable_state;
  labelmaps = s.labelmaps;
}
enter (stream_update stream_id labelmap) s = record {
  sstable_state = s.sstable_state;
  labelmaps = put ◌==◌ stream_id labelmap s.labelmaps;
}

-- The loop of `from_manifest`, over the entries that the reader yields.
abbrev pub replay : List ManifestEntry → Snapshot → Snapshot
replay [] s = s
replay (e ∷ es) s = replay es (enter e s)

unfoldable pub from_manifest : List ManifestEntry → Snapshot
from_manifest entries = replay entries empty

-- `retain(|_, v| matches!(v, SstState::Live))`
abbrev pub retain_live : List (ℕ × SstState) → List (ℕ × SstState)
retain_live [] = []
retain_live ((id, live) ∷ m) = (id, live) ∷ retain_live m
retain_live ((id, removed) ∷ m) = retain_live m

-- `HashMap::remove`
unfoldable pub remove : ℕ → List (ℕ × SstState) → List (ℕ × SstState)
remove id [] = []
remove id ((id', v) ∷ m) = let rest = remove id m in if id == id' then rest else (id', v) ∷ rest

-- The two loops of `merge`, over the entries of the newer snapshot in the order of the iterator.
abbrev pub apply_states : List (ℕ × SstState) → List (ℕ × SstState) → List (ℕ × SstState)
apply_states [] ssts = ssts
apply_states ((id, live) ∷ delta) ssts = apply_states delta (put ◌==◌ id live ssts)
apply_states ((id, removed) ∷ delta) ssts = apply_states delta (remove id ssts)

abbrev pub apply_labelmaps : List (ℕ × LabelMap) → List (ℕ × LabelMap) → List (ℕ × LabelMap)
apply_labelmaps [] labelmaps = labelmaps
apply_labelmaps ((stream_id, labelmap) ∷ delta) labelmaps =
    apply_labelmaps delta (put ◌==◌ stream_id labelmap labelmaps)

unfoldable pub merge : Snapshot → Snapshot → Snapshot
merge older delta = record {
  sstable_state = apply_states delta.sstable_state (retain_live older.sstable_state);
  labelmaps = apply_labelmaps delta.labelmaps older.labelmaps;
}
