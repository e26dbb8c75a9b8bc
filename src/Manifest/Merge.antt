-- ===== src/Manifest/Merge.antt =====
-- `Snapshot::merge` of the snapshots of two parts of a manifest.
use logregator.Common.{
  ℕ, ◌==◌, ==_iff, ◌≡◌, refl, sym, ap, ◌∙◌, true, false, Bool-cases, inl, inr, Option, none, some,
  List, [], ◌∷◌, ◌++◌, get, put, get-put, arith, if◌then◌else◌,
}
use logregator.Label.{LabelMap}
use logregator.Manifest.{
  SstState, live, removed, ManifestEntry, memtable_flush, compaction, stream_update, Snapshot,
  empty, mark_removed, enter, replay, from_manifest, retain_live, remove, apply_states,
  apply_labelmaps, merge,
}

-- The newer of two answers.
abbrev or : {A : Type 0} → Option A → Option A → Option A
or (some x) older = some x
or none older = older

or_assoc : {A : Type 0} (a b c : Option A) → or a (or b c) ≡ or (or a b) c
or_assoc (some x) b c = refl
or_assoc none b c = refl

abbrev pub lookup : {V : Type 0} → ℕ → List (ℕ × V) → Option V
lookup k m = get ◌==◌ k m

lookup-put :
    {V : Type 0} (k j : ℕ) (v : V) (m : List (ℕ × V))
    → lookup j (put ◌==◌ k v m) ≡ or (lookup j (put ◌==◌ k v [])) (lookup j m)
unfolding get
lookup-put k j v m = get-put ◌==◌ ==_iff k j v m ∙ elim (Bool-cases (j == k)) [
  | inl e ↦ rw (get-put ◌==◌ ==_iff k j v [], e)
  | inr e ↦ rw (get-put ◌==◌ ==_iff k j v [], e)
]

mark_removed_or :
    (k : ℕ) (ids : List ℕ) (m : List (ℕ × SstState))
    → lookup k (mark_removed ids m) ≡ or (lookup k (mark_removed ids [])) (lookup k m)
unfolding get
mark_removed_or k [] m = refl
mark_removed_or k (id ∷ ids) m =
    mark_removed_or k ids (put ◌==◌ id removed m)
    ∙ ap (or (lookup k (mark_removed ids []))) (lookup-put id k removed m)
    ∙ or_assoc (lookup k (mark_removed ids [])) (lookup k (put ◌==◌ id removed [])) (lookup k m)
    ∙ ap (λ t. or t (lookup k m)) (sym (mark_removed_or k ids (put ◌==◌ id removed [])))

enter-states :
    (k : ℕ) (e : ManifestEntry) (s : Snapshot)
    → lookup k (enter e s).sstable_state
      ≡ or (lookup k (enter e empty).sstable_state) (lookup k s.sstable_state)
unfolding get
enter-states k (memtable_flush id) s = lookup-put id k live s.sstable_state
enter-states k (compaction ids) s = mark_removed_or k ids s.sstable_state
enter-states k (stream_update id m) s = refl

enter-labelmaps :
    (k : ℕ) (e : ManifestEntry) (s : Snapshot)
    → lookup k (enter e s).labelmaps
      ≡ or (lookup k (enter e empty).labelmaps) (lookup k s.labelmaps)
unfolding get
enter-labelmaps k (memtable_flush id) s = refl
enter-labelmaps k (compaction ids) s = refl
enter-labelmaps k (stream_update id m) s = lookup-put id k m s.labelmaps

replay-states :
    (k : ℕ) (es : List ManifestEntry) (s : Snapshot)
    → lookup k (replay es s).sstable_state
      ≡ or (lookup k (replay es empty).sstable_state) (lookup k s.sstable_state)
unfolding get
replay-states k [] s = refl
replay-states k (e ∷ es) s =
    let newer = lookup k (replay es empty).sstable_state in
    let first = lookup k (enter e empty).sstable_state in
    replay-states k es (enter e s)
    ∙ ap (or newer) (enter-states k e s)
    ∙ or_assoc newer first (lookup k s.sstable_state)
    ∙ ap (λ t. or t (lookup k s.sstable_state)) (sym (replay-states k es (enter e empty)))

replay-labelmaps :
    (k : ℕ) (es : List ManifestEntry) (s : Snapshot)
    → lookup k (replay es s).labelmaps
      ≡ or (lookup k (replay es empty).labelmaps) (lookup k s.labelmaps)
unfolding get
replay-labelmaps k [] s = refl
replay-labelmaps k (e ∷ es) s =
    let newer = lookup k (replay es empty).labelmaps in
    let first = lookup k (enter e empty).labelmaps in
    replay-labelmaps k es (enter e s)
    ∙ ap (or newer) (enter-labelmaps k e s)
    ∙ or_assoc newer first (lookup k s.labelmaps)
    ∙ ap (λ t. or t (lookup k s.labelmaps)) (sym (replay-labelmaps k es (enter e empty)))

-- No key stands twice in a map.
abbrev IsMap : {V : Type 0} → List (ℕ × V) → Type 0
IsMap [] = Unit
IsMap ((k, v) ∷ m) = (lookup k m ≡ none) × IsMap m

flip : (a b : ℕ) → (a == b) ≡ false → (b == a) ≡ false
flip a b h = ground arith

put-IsMap : {V : Type 0} (k : ℕ) (v : V) (m : List (ℕ × V)) → IsMap m → IsMap (put ◌==◌ k v m)
unfolding put get
put-IsMap k v [] h = (refl, tt)
put-IsMap k v ((k', v') ∷ m) (h, hs) = elim (Bool-cases (k == k')) [
  | inl e ↦ rw e (h, hs)
  | inr e ↦ rw e (get-put ◌==◌ ==_iff k k' v m ∙ rw (flip k k' e) h, put-IsMap k v m hs)
]

mark_removed-IsMap : (ids : List ℕ) (m : List (ℕ × SstState)) → IsMap m → IsMap (mark_removed ids m)
mark_removed-IsMap [] m h = h
mark_removed-IsMap (id ∷ ids) m h =
    mark_removed-IsMap ids (put ◌==◌ id removed m) (put-IsMap id removed m h)

-- Both maps of a snapshot are maps.
abbrev pub IsSnapshot : Snapshot → Type 0
IsSnapshot s = IsMap s.sstable_state × IsMap s.labelmaps

replay-IsSnapshot :
    (es : List ManifestEntry) (s : Snapshot) → IsSnapshot s → IsSnapshot (replay es s)
replay-IsSnapshot [] s h = h
replay-IsSnapshot (memtable_flush id ∷ es) s (h, l) =
    replay-IsSnapshot es _ (put-IsMap id live s.sstable_state h, l)
replay-IsSnapshot (compaction ids ∷ es) s (h, l) =
    replay-IsSnapshot es _ (mark_removed-IsMap ids s.sstable_state h, l)
replay-IsSnapshot (stream_update id m ∷ es) s (h, l) =
    replay-IsSnapshot es _ (h, put-IsMap id m s.labelmaps l)

abbrev pub only_live : Option SstState → Option SstState
only_live (some live) = some live
only_live (some removed) = none
only_live none = none

lookup-retain_live :
    (k : ℕ) (m : List (ℕ × SstState)) → IsMap m → lookup k (retain_live m) ≡ only_live (lookup k m)
unfolding get
lookup-retain_live k [] h = refl
lookup-retain_live k ((id, live) ∷ m) (h, hs) = elim (Bool-cases (k == id)) [
  | inl e ↦ rw e
  | inr e ↦ rw (e, lookup-retain_live k m hs)
]
lookup-retain_live k ((id, removed) ∷ m) (h, hs) = elim (Bool-cases (k == id)) [
  | inl e ↦
      rw e (lookup-retain_live k m hs ∙ ap only_live (ap (λ t. lookup t m) ((==_iff k id).0 e) ∙ h))
  | inr e ↦ rw e (lookup-retain_live k m hs)
]

lookup-remove :
    (id k : ℕ) (m : List (ℕ × SstState))
    → lookup k (remove id m) ≡ (if k == id then none else lookup k m)
unfolding get remove
lookup-remove id k [] = elim (Bool-cases (k == id)) [ inl e ↦ rw e | inr e ↦ rw e ]
lookup-remove id k ((id', v) ∷ m) =
    let ih = lookup-remove id k m in
    elim (Bool-cases (k == id)) [
      | inl e ↦
          let at : (k == id') ≡ (id == id') = ap (λ t. t == id') ((==_iff k id).0 e) in
          elim (Bool-cases (id == id')) [
            | inl d ↦ rw (d, e) (rw e at ih)
            | inr d ↦ rw (d, e, at ∙ d) (rw e at ih)
          ]
      | inr e ↦ elim (Bool-cases (id == id')) [
        | inl d ↦
            let at : (k == id') ≡ false = ap (λ t. k == t) (sym ((==_iff id id').0 d)) ∙ e in
            rw (d, e, at) (rw e at ih)
        | inr d ↦ elim (Bool-cases (k == id')) [
          | inl c ↦ rw (d, e, c)
          | inr c ↦ rw (d, e, c) (rw e at ih)
        ]
      ]
    ]

-- A key that stands at the front of a map does not stand behind it.
absent :
    {V : Type 0} (k id : ℕ) (m : List (ℕ × V))
    → (k == id) ≡ true
    → lookup id m ≡ none
    → lookup k m ≡ none
absent k id m e h = ap (λ t. lookup t m) ((==_iff k id).0 e) ∙ h

-- What the newer snapshot says of a table, on top of what the older one says.
abbrev state_after : Option SstState → Option SstState → Option SstState
state_after none older = older
state_after (some live) older = some live
state_after (some removed) older = none

lookup-apply_states :
    (k : ℕ) (delta m : List (ℕ × SstState))
    → IsMap delta
    → lookup k (apply_states delta m) ≡ state_after (lookup k delta) (lookup k m)
unfolding get
lookup-apply_states k [] m h = refl
lookup-apply_states k ((id, live) ∷ delta) m (h, hs) =
    lookup-apply_states k delta (put ◌==◌ id live m) hs
    ∙ ap (state_after (lookup k delta)) (get-put ◌==◌ ==_iff id k live m)
    ∙ elim (Bool-cases (k == id)) [ inl e ↦ rw (e, absent k id delta e h) | inr e ↦ rw e ]
lookup-apply_states k ((id, removed) ∷ delta) m (h, hs) =
    lookup-apply_states k delta (remove id m) hs
    ∙ ap (state_after (lookup k delta)) (lookup-remove id k m)
    ∙ elim (Bool-cases (k == id)) [ inl e ↦ rw (e, absent k id delta e h) | inr e ↦ rw e ]

lookup-apply_labelmaps :
    (k : ℕ) (delta m : List (ℕ × LabelMap))
    → IsMap delta
    → lookup k (apply_labelmaps delta m) ≡ or (lookup k delta) (lookup k m)
unfolding get
lookup-apply_labelmaps k [] m h = refl
lookup-apply_labelmaps k ((id, v) ∷ delta) m (h, hs) =
    lookup-apply_labelmaps k delta (put ◌==◌ id v m) hs
    ∙ ap (or (lookup k delta)) (get-put ◌==◌ ==_iff id k v m)
    ∙ elim (Bool-cases (k == id)) [ inl e ↦ rw (e, absent k id delta e h) | inr e ↦ rw e ]

replay-append :
    (es fs : List ManifestEntry) (s : Snapshot) → replay (es ++ fs) s ≡ replay fs (replay es s)
replay-append [] fs s = refl
replay-append (e ∷ es) fs s = replay-append es fs (enter e s)

only_live-or :
    (a b : Option SstState) → only_live (state_after a (only_live b)) ≡ only_live (or a b)
only_live-or none none = refl
only_live-or none (some live) = refl
only_live-or none (some removed) = refl
only_live-or (some live) b = refl
only_live-or (some removed) b = refl

-- The snapshot of the first entries, merged with that of the entries after them, has the same live
-- tables and the same label maps as the snapshot of all the entries.
pub merge-from_manifest :
    (es fs : List ManifestEntry) (k : ℕ)
    → (only_live (lookup k (merge (from_manifest es) (from_manifest fs)).sstable_state)
        ≡ only_live (lookup k (from_manifest (es ++ fs)).sstable_state))
      × (lookup k (merge (from_manifest es) (from_manifest fs)).labelmaps
          ≡ lookup k (from_manifest (es ++ fs)).labelmaps)
unfolding merge from_manifest
merge-from_manifest es fs k =
    let older = replay es empty in
    let delta = replay fs empty in
    let (hs, hl) = replay-IsSnapshot fs empty (tt, tt) in
    let (os, ol) = replay-IsSnapshot es empty (tt, tt) in
    (
      ap only_live (lookup-apply_states k delta.sstable_state (retain_live older.sstable_state) hs)
          ∙ ap (λ t. only_live (state_after (lookup k delta.sstable_state) t))
              (lookup-retain_live k older.sstable_state os)
          ∙ only_live-or (lookup k delta.sstable_state) (lookup k older.sstable_state)
          ∙ ap only_live (sym (replay-states k fs older))
          ∙ ap (λ t. only_live (lookup k t.sstable_state)) (sym (replay-append es fs empty)),
      lookup-apply_labelmaps k delta.labelmaps older.labelmaps hl
          ∙ sym (replay-labelmaps k fs older)
          ∙ ap (λ t. lookup k t.labelmaps) (sym (replay-append es fs empty)),
    )
