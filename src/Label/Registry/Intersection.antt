-- ===== src/Label/Registry/Intersection.antt =====
-- `label_intersection` against its description: the streams that stand in the set of every known label.
use logregator.Common.{
  ℕ, ◌==◌, ==_iff, ◌≡◌, refl, sym, ap, ◌∙◌, inl, inr, Bool, true, false, ◌&&◌, ◌||◌, Bool-cases,
  Option, none, some, arith, List, [], ◌∷◌, contains, ltb, length,
}
use logregator.Label.{Label}
use logregator.Label.Registry.{
  StreamRegistry, known_sets, insert_by_len, sort_by_len, retain, is_empty, intersect_all,
  intersect_sorted, intersect_sets, label_intersection, get_streams_by_kv,
}

-- In all of the sets.
abbrev pub in_all : ℕ → List (List ℕ) → Bool
in_all id [] = true
in_all id (s ∷ ss) = contains ◌==◌ id s && in_all id ss

abbrev pub in_every : ℕ → List (List ℕ) → Bool
in_every id [] = false
in_every id (s ∷ ss) = in_all id (s ∷ ss)

and_swap : (a b c : Bool) → (a && (b && c)) ≡ (b && (a && c))
and_swap true true c = refl
and_swap true false c = refl
and_swap false true c = refl
and_swap false false c = refl

in_all-insert_by_len :
    (id : ℕ) (s : List ℕ) (ss : List (List ℕ)) → in_all id (insert_by_len s ss) ≡ in_all id (s ∷ ss)
unfolding insert_by_len
in_all-insert_by_len id s [] = refl
in_all-insert_by_len id s (t ∷ ts) = elim (Bool-cases (ltb (length t) (length s))) [
  | inl e ↦
      rw (e, in_all-insert_by_len id s ts)
        (and_swap (contains ◌==◌ id t) (contains ◌==◌ id s) (in_all id ts))
  | inr e ↦ rw e
]

in_every-insert_by_len :
    (id : ℕ) (s : List ℕ) (ss : List (List ℕ))
    → in_every id (insert_by_len s ss) ≡ in_all id (insert_by_len s ss)
unfolding insert_by_len
in_every-insert_by_len id s [] = refl
in_every-insert_by_len id s (t ∷ ts) = elim (Bool-cases (ltb (length t) (length s))) [
  | inl e ↦ rw e
  | inr e ↦ rw e
]

nil_of_empty : (ids : List ℕ) → is_empty ids ≡ true → ids ≡ []
nil_of_empty [] e = refl
nil_of_empty (id ∷ ids) e = cc

in_all-sort_by_len : (id : ℕ) (ss : List (List ℕ)) → in_all id (sort_by_len ss) ≡ in_all id ss
in_all-sort_by_len id [] = refl
in_all-sort_by_len id (s ∷ ss) =
    in_all-insert_by_len id s (sort_by_len ss)
    ∙ ap (λ t. contains ◌==◌ id s && t) (in_all-sort_by_len id ss)

same_contains : (id x : ℕ) (s : List ℕ) → (id == x) ≡ true → contains ◌==◌ id s ≡ contains ◌==◌ x s
same_contains id x s d = ap (λ t. contains ◌==◌ t s) ((==_iff id x).0 d)

and_false : (b : Bool) → (b && false) ≡ false
and_false true = refl
and_false false = refl

and_true : (b : Bool) → (b && true) ≡ b
and_true true = refl
and_true false = refl

contains-retain :
    (id : ℕ) (s acc : List ℕ)
    → contains ◌==◌ id (retain s acc) ≡ (contains ◌==◌ id acc && contains ◌==◌ id s)
unfolding contains retain
contains-retain id s [] = refl
contains-retain id s (x ∷ acc) = elim (Bool-cases (contains ◌==◌ x s)) [
  | inl e ↦ elim (Bool-cases (id == x)) [
    | inl d ↦ rw (e, d, same_contains id x s d ∙ e)
    | inr d ↦ rw (e, d, contains-retain id s acc)
  ]
  | inr e ↦ elim (Bool-cases (id == x)) [
    | inl d ↦
        rw (e, d)
          (contains-retain id s acc
            ∙ rw (same_contains id x s d, e) (and_false (contains ◌==◌ id acc)))
    | inr d ↦ rw (e, d, contains-retain id s acc)
  ]
]

and_assoc : (a b c : Bool) → ((a && b) && c) ≡ (a && (b && c))
and_assoc true b c = refl
and_assoc false b c = refl

contains-intersect_all :
    (id : ℕ) (acc : List ℕ) (ss : List (List ℕ))
    → contains ◌==◌ id (intersect_all acc ss) ≡ (contains ◌==◌ id acc && in_all id ss)
unfolding contains
contains-intersect_all id acc [] = sym (and_true (contains ◌==◌ id acc))
contains-intersect_all id acc (s ∷ ss) =
    let left : (contains ◌==◌ id (retain s acc) && in_all id ss)
        ≡ (contains ◌==◌ id acc && in_all id (s ∷ ss)) =
      ap (λ t. t && in_all id ss) (contains-retain id s acc)
      ∙ and_assoc (contains ◌==◌ id acc) (contains ◌==◌ id s) (in_all id ss) in
    elim (Bool-cases (is_empty (retain s acc))) [
      | inl none_left ↦ rw none_left (
          ap (λ t. contains ◌==◌ id t && in_all id ss) (sym (nil_of_empty (retain s acc) none_left))
          ∙ left)
      | inr some_left ↦ rw some_left (contains-intersect_all id (retain s acc) ss ∙ left)
    ]

contains-intersect_sorted :
    (id : ℕ) (ss : List (List ℕ)) → contains ◌==◌ id (intersect_sorted ss) ≡ in_every id ss
unfolding contains
contains-intersect_sorted id [] = refl
contains-intersect_sorted id (s ∷ ss) = contains-intersect_all id s ss

in_every-sort_by_len :
    (id : ℕ) (s : List ℕ) (ss : List (List ℕ))
    → in_every id (sort_by_len (s ∷ ss)) ≡ in_all id (s ∷ ss)
in_every-sort_by_len id s ss =
    in_every-insert_by_len id s (sort_by_len ss) ∙ in_all-sort_by_len id (s ∷ ss)

contains-intersect_sets :
    (id : ℕ) (ss : List (List ℕ)) → contains ◌==◌ id (intersect_sets ss) ≡ in_every id ss
unfolding contains
contains-intersect_sets id [] = refl
contains-intersect_sets id (s ∷ []) = sym (and_true (contains ◌==◌ id s))
contains-intersect_sets id (s ∷ t ∷ ss) =
    contains-intersect_sorted id (sort_by_len (s ∷ t ∷ ss)) ∙ in_every-sort_by_len id s (t ∷ ss)

-- A label that the index knows.
abbrev pub is_known : Option (List ℕ) → Bool
is_known (some ids) = true
is_known none = false

-- A label that the index does not know, or one that the stream has.
abbrev pub unless_missing : ℕ → Option (List ℕ) → Bool
unless_missing id (some ids) = contains ◌==◌ id ids
unless_missing id none = true

abbrev pub any_known : StreamRegistry → List Label → Bool
any_known r [] = false
any_known r (l ∷ ls) = is_known (get_streams_by_kv r l) || any_known r ls

abbrev pub misses_none : StreamRegistry → ℕ → List Label → Bool
misses_none r id [] = true
misses_none r id (l ∷ ls) = unless_missing id (get_streams_by_kv r l) && misses_none r id ls

in_all-known_sets :
    (r : StreamRegistry) (labels : List Label) (id : ℕ)
    → in_all id (known_sets r labels) ≡ misses_none r id labels
unfolding get_streams_by_kv
in_all-known_sets r [] id = refl
in_all-known_sets r (l ∷ ls) id = ground (arith, in_all-known_sets r ls id)

in_every-known_sets :
    (r : StreamRegistry) (labels : List Label) (id : ℕ)
    → in_every id (known_sets r labels) ≡ (any_known r labels && misses_none r id labels)
unfolding get_streams_by_kv
in_every-known_sets r [] id = refl
in_every-known_sets r (l ∷ ls) id =
    ground (arith, in_every-known_sets r ls id, in_all-known_sets r ls id)

-- A stream is in the result of `label_intersection` exactly when the index knows one of the labels at
-- least, and the stream stands in the set of each of the labels that the index knows.
pub contains-label_intersection :
    (r : StreamRegistry) (labels : List Label) (id : ℕ)
    → contains ◌==◌ id (label_intersection r labels)
      ≡ (any_known r labels && misses_none r id labels)
unfolding label_intersection
contains-label_intersection r labels id =
    contains-intersect_sets id (known_sets r labels) ∙ in_every-known_sets r labels id
