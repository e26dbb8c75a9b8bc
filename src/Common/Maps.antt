-- ===== src/Common/Maps.antt =====
-- `HashMap` and `HashSet` as lists without repetition, for a Boolean test of equality.
use mathlib.Core.Path.{◌≡◌, refl, sym, ap, ◌∙◌}
use mathlib.Core.Logic.{◌↔◌, inl, inr}
use mathlib.Core.Bool.{Bool, true, false, ◌||◌}
use mathlib.Core.Option.{Option, none, some}
use mathlib.Core.List.{List, [], ◌∷◌, ◌++◌}
use logregator.Common.Tests.{if◌then◌else◌, Bool-cases}

-- The test decides equality.
abbrev pub Decides : {A : Type 0} → (A → A → Bool) → Type 0
Decides same = (a b : _) → (same a b ≡ true) ↔ (a ≡ b)

module _ {K V : Type 0} (same : K → K → Bool) where
  unfoldable pub get : K → List (K × V) → Option V
  get k [] = none
  get k ((k', v) ∷ m) = let rest = get k m in if same k k' then some v else rest

  unfoldable pub put : K → V → List (K × V) → List (K × V)
  put k v [] = (k, v) ∷ []
  put k v ((k', v') ∷ m) =
      let rest = put k v m in if same k k' then (k', v) ∷ m else (k', v') ∷ rest

  -- A key that is new is put at the end.
  pub put-fresh :
      (k : K) (v : V) (m : List (K × V)) → get k m ≡ none → put k v m ≡ m ++ ((k, v) ∷ [])
  unfolding get put
  put-fresh k v [] h = refl
  put-fresh k v ((k', v') ∷ m) h = elim (Bool-cases (same k k')) [
    | inl e ↦ cc (rw e at h)
    | inr e ↦ rw (e, put-fresh k v m (rw e at h))
  ]

  module _ (dec : Decides same) where
    pub get-put :
        (k j : K) (v : V) (m : List (K × V))
        → get j (put k v m) ≡ (if same j k then some v else get j m)
    unfolding get put
    get-put k j v [] = refl
    get-put k j v ((k', v') ∷ m) = elim (Bool-cases (same k k')) [
      | inl e ↦
          let at : same j k ≡ same j k' = ap (same j) ((dec k k').0 e) in
          elim (Bool-cases (same j k')) [ inl c ↦ rw (e, at, c) | inr c ↦ rw (e, at, c) ]
      | inr e ↦ elim (Bool-cases (same j k')) [
        | inl c ↦
            let away : same j k ≡ false = elim (Bool-cases (same j k)) [
              | inl d ↦ cc (e, (dec k k').1 (sym ((dec j k).0 d) ∙ (dec j k').0 c))
              | inr d ↦ d
            ] in
            rw (e, c, away)
        | inr c ↦ rw (e, c, get-put k j v m)
      ]
    ]

module _ {A : Type 0} (same : A → A → Bool) where
  unfoldable pub contains : A → List A → Bool
  contains a [] = false
  contains a (x ∷ xs) = same a x || contains a xs

  -- `HashSet::insert`
  unfoldable pub add : A → List A → List A
  add a xs = if contains a xs then xs else xs ++ (a ∷ [])

  contains-snoc :
      (b a : A) (xs : List A) → contains b (xs ++ (a ∷ [])) ≡ (contains b xs || same b a)
  unfolding contains
  contains-snoc b a [] = elim (Bool-cases (same b a)) [ inl e ↦ rw e | inr e ↦ rw e ]
  contains-snoc b a (x ∷ xs) = elim (Bool-cases (same b x)) [
    | inl e ↦ rw e
    | inr e ↦ rw (e, contains-snoc b a xs)
  ]

  pub contains-add :
      Decides same → (a b : A) (xs : List A) → contains b (add a xs) ≡ (contains b xs || same b a)
  unfolding add
  contains-add dec a b xs = elim (Bool-cases (contains a xs)) [
    | inl e ↦ elim (Bool-cases (same b a)) [
      | inl d ↦
          let there : contains b xs ≡ true = ap (λ t. contains t xs) ((dec b a).0 d) ∙ e in
          rw (e, d, there)
      | inr d ↦ elim (Bool-cases (contains b xs)) [ inl c ↦ rw (e, d, c) | inr c ↦ rw (e, d, c) ]
    ]
    | inr e ↦ rw e (contains-snoc b a xs)
  ]
