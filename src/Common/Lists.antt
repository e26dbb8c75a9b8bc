-- ===== src/Common/Lists.antt =====
-- Lists measured and indexed by native numbers, and the half-open slices `xs[i..j]` of the source.
use Prim.Native.Nat.{ℕ, zero, suc, ◌+◌, ◌-◌, ◌≤◌, ◌<◌, min}
use mathlib.Core.Path.{◌≡◌, refl, sym, ap, ◌∙◌}
use mathlib.Core.List.{List, [], ◌∷◌, ◌++◌, map}
use mathlib.Core.Option.{Option, none, some}
use native.Mathlib.Omega.{arith}

module _ {ℓ} {A : Type ℓ} where
  abbrev pub length : List A → ℕ
  length [] = 0
  length (x ∷ xs) = suc (length xs)

  abbrev pub get_elem? : List A → ℕ → Option A
  get_elem? [] i = none
  get_elem? (x ∷ xs) zero = some x
  get_elem? (x ∷ xs) (suc i) = get_elem? xs i

  -- `xs[i] = a`; an index out of range changes nothing.
  abbrev pub set : List A → ℕ → A → List A
  set [] i a = []
  set (x ∷ xs) zero a = a ∷ xs
  set (x ∷ xs) (suc i) a = x ∷ set xs i a

  abbrev pub take : ℕ → List A → List A
  take zero xs = []
  take (suc n) [] = []
  take (suc n) (x ∷ xs) = x ∷ take n xs

  abbrev pub drop : ℕ → List A → List A
  drop zero xs = xs
  drop (suc n) [] = []
  drop (suc n) (x ∷ xs) = drop n xs

  abbrev pub replicate : ℕ → A → List A
  replicate zero a = []
  replicate (suc n) a = a ∷ replicate n a

  abbrev pub All {κ} : (A → Type κ) → List A → Type κ
  All P [] = Unit {κ}
  All P (x ∷ xs) = P x × All P xs

  pub length-append : (xs ys : List A) → length (xs ++ ys) ≡ length xs + length ys
  length-append [] ys = omega arith
  length-append (x ∷ xs) ys = omega (arith, length-append xs ys)

  pub length-take : (n : ℕ) (xs : List A) → length (take n xs) ≡ min n (length xs)
  length-take zero xs = omega arith
  length-take (suc n) [] = omega arith
  length-take (suc n) (x ∷ xs) = omega (arith, length-take n xs)

  pub length-drop : (n : ℕ) (xs : List A) → length (drop n xs) ≡ length xs - n
  length-drop zero xs = omega arith
  length-drop (suc n) [] = omega arith
  length-drop (suc n) (x ∷ xs) = omega (arith, length-drop n xs)

  pub length-replicate : (n : ℕ) (a : A) → length (replicate n a) ≡ n
  length-replicate zero a = refl
  length-replicate (suc n) a = ap suc (length-replicate n a)

  pub take-append-drop : (n : ℕ) (xs : List A) → take n xs ++ drop n xs ≡ xs
  take-append-drop zero xs = refl
  take-append-drop (suc n) [] = refl
  take-append-drop (suc n) (x ∷ xs) = ap (λ t. x ∷ t) (take-append-drop n xs)

  pub take-append : (xs ys : List A) (n : ℕ) → length xs ≡ n → take n (xs ++ ys) ≡ xs
  take-append [] ys zero h = refl
  take-append [] ys (suc n) h = absurd (omega arith)
  take-append (x ∷ xs) ys zero h = absurd (omega arith)
  take-append (x ∷ xs) ys (suc n) h = ap (λ t. x ∷ t) (take-append xs ys n (omega arith))

  pub drop-append : (xs ys : List A) (n : ℕ) → length xs ≡ n → drop n (xs ++ ys) ≡ ys
  drop-append [] ys zero h = refl
  drop-append [] ys (suc n) h = absurd (omega arith)
  drop-append (x ∷ xs) ys zero h = absurd (omega arith)
  drop-append (x ∷ xs) ys (suc n) h = drop-append xs ys n (omega arith)

  -- `xs[i..j]`, where the source has checked `i ≤ j ≤ xs.len()`.
  abbrev pub slice : List A → ℕ → ℕ → List A
  slice xs i j = take (j - i) (drop i xs)

  pub slice-append :
      (front mid back : List A) (i j : ℕ)
      → length front ≡ i
      → i + length mid ≡ j
      → slice (front ++ (mid ++ back)) i j ≡ mid
  slice-append front mid back i j h k =
      ap (take (j - i)) (drop-append front (mid ++ back) i h)
      ∙ take-append mid back (j - i) (omega arith)

  pub drop-append_le :
      (xs ys : List A) (n k : ℕ) → length xs ≡ n → n ≤ k → drop k (xs ++ ys) ≡ drop (k - n) ys
  drop-append_le [] ys zero k h l = ap (λ t. drop t ys) (omega arith)
  drop-append_le [] ys (suc n) k h l = absurd (omega arith)
  drop-append_le (x ∷ xs) ys zero k h l = absurd (omega arith)
  drop-append_le (x ∷ xs) ys (suc n) zero h l = absurd (omega arith)
  drop-append_le (x ∷ xs) ys (suc n) (suc k) h l =
      drop-append_le xs ys n k (omega arith) (omega arith) ∙ ap (λ t. drop t ys) (omega arith)

  drop-nil : (n : ℕ) → drop n [] ≡ []
  drop-nil zero = refl
  drop-nil (suc n) = refl

  pub drop_all : (n : ℕ) (xs : List A) → length xs ≤ n → drop n xs ≡ []
  drop_all n [] h = drop-nil n
  drop_all zero (x ∷ xs) h = absurd (omega arith)
  drop_all (suc n) (x ∷ xs) h = drop_all n xs (omega arith)

  pub take_all : (n : ℕ) (xs : List A) → length xs ≤ n → take n xs ≡ xs
  take_all zero [] h = refl
  take_all (suc n) [] h = refl
  take_all zero (x ∷ xs) h = absurd (omega arith)
  take_all (suc n) (x ∷ xs) h = ap (λ t. x ∷ t) (take_all n xs (omega arith))

  pub drop-drop : (n m : ℕ) (xs : List A) → drop n (drop m xs) ≡ drop (m + n) xs
  drop-drop n zero xs = ap (λ t. drop t xs) (omega arith)
  drop-drop n (suc m) [] = drop-nil n ∙ sym (drop-nil (suc m + n))
  drop-drop n (suc m) (x ∷ xs) =
      let e : suc (m + n) ≡ suc m + n = omega arith in
      drop-drop n m xs ∙ ap (λ t. drop t (x ∷ xs)) e

  take_nil : (n : ℕ) → take n [] ≡ []
  take_nil zero = refl
  take_nil (suc n) = refl

  pub take-take : (m n : ℕ) (xs : List A) → m ≤ n → take m (take n xs) ≡ take m xs
  take-take zero n xs h = refl
  take-take (suc m) zero xs h = absurd (omega arith)
  take-take (suc m) (suc n) [] h = refl
  take-take (suc m) (suc n) (x ∷ xs) h = ap (λ t. x ∷ t) (take-take m n xs (omega arith))

  pub drop-take : (i n : ℕ) (xs : List A) → drop i (take n xs) ≡ take (n - i) (drop i xs)
  drop-take zero n xs = ap (λ t. take t xs) (omega arith)
  drop-take (suc i) zero xs = ap (λ t. take t (drop (suc i) xs)) {x = zero} (omega arith)
  drop-take (suc i) (suc n) [] = sym (take_nil (suc n - suc i))
  drop-take (suc i) (suc n) (x ∷ xs) = drop-take i n xs ∙ ap (λ t. take t (drop i xs)) (omega arith)

  pub slice_zero : (xs : List A) (n : ℕ) → slice xs 0 n ≡ take n xs
  slice_zero xs n = ap (λ t. take t xs) (omega arith)

  take-append-take : (m n : ℕ) (xs : List A) → take m xs ++ take n (drop m xs) ≡ take (m + n) xs
  take-append-take zero n xs = ap (λ t. take t xs) (omega arith)
  take-append-take (suc m) n [] = take_nil n ∙ sym (take_nil (suc m + n))
  take-append-take (suc m) n (x ∷ xs) =
      let e : suc (m + n) ≡ suc m + n = omega arith in
      ap (λ t. x ∷ t) (take-append-take m n xs) ∙ ap (λ t. take t (x ∷ xs)) e

  pub slice_last :
      (front mid : List A) (i j : ℕ)
      → length front ≡ i
      → i + length mid ≡ j
      → slice (front ++ mid) i j ≡ mid
  slice_last front mid i j h k =
      ap (take (j - i)) (drop-append front mid i h) ∙ take_all (j - i) mid (omega arith)

  -- Two slices that meet.
  pub slice-append-slice :
      (xs : List A) (i j k : ℕ) → i ≤ j → j ≤ k → slice xs i j ++ slice xs j k ≡ slice xs i k
  slice-append-slice xs i j k h l =
      let e : drop j xs ≡ drop (j - i) (drop i xs) =
        ap (λ t. drop t xs) (omega arith) ∙ sym (drop-drop (j - i) i xs) in
      ap (λ t. slice xs i j ++ take (k - j) t) e
      ∙ take-append-take (j - i) (k - j) (drop i xs)
      ∙ ap (λ t. take t (drop i xs)) (omega arith)

  -- A slice of a prefix that reaches far enough is a slice of the whole.
  pub slice-take : (xs : List A) (i j n : ℕ) → i ≤ j → j ≤ n → slice (take n xs) i j ≡ slice xs i j
  slice-take xs i j n h k =
      ap (take (j - i)) (drop-take i n xs) ∙ take-take (j - i) (n - i) (drop i xs) (omega arith)

  pub All-append {κ} : (P : A → Type κ) (xs ys : List A) → All P xs → All P ys → All P (xs ++ ys)
  All-append P [] ys front back = back
  All-append P (x ∷ xs) ys (h, front) back = (h, All-append P xs ys front back)

  pub All-append_split {κ} :
      (P : A → Type κ) (xs ys : List A) → All P (xs ++ ys) → All P xs × All P ys
  All-append_split P [] ys h = (tt, h)
  All-append_split P (x ∷ xs) ys (hx, h) =
      let (front, back) = All-append_split P xs ys h in ((hx, front), back)

  -- A list that is not empty ends in an element.
  pub snoc-cases :
      (n : ℕ) (l : List A)
      → length l ≡ suc n
      → (xs : List A) × (x : A) × (l ≡ xs ++ (x ∷ [])) × (length xs ≡ n)
  snoc-cases n [] h = absurd (omega arith)
  snoc-cases zero (x ∷ []) h = ([], x, refl, refl)
  snoc-cases zero (x ∷ y ∷ l) h = absurd (omega arith)
  snoc-cases (suc n) (x ∷ l) h =
      let (xs, y, e, k) = snoc-cases n l (omega arith) in (x ∷ xs, y, ap (λ t. x ∷ t) e, ap suc k)

  pub All-slice {κ} : (P : A → Type κ) (xs : List A) (i j : ℕ) → All P xs → All P (slice xs i j)
  All-slice P xs i j h =
      let tail = (All-append_split P (take i xs) (drop i xs) (rw take-append-drop h)).1 in
      (All-append_split P (slice xs i j) (drop (j - i) (drop i xs)) (rw take-append-drop tail)).0

  pub length-set : (xs : List A) (i : ℕ) (a : A) → length (set xs i a) ≡ length xs
  length-set [] i a = refl
  length-set (x ∷ xs) zero a = refl
  length-set (x ∷ xs) (suc i) a = ap suc (length-set xs i a)

  pub set_same : (xs : List A) (i : ℕ) (a : A) → get_elem? xs i ≡ some a → set xs i a ≡ xs
  set_same [] i a h = refl
  set_same (x ∷ xs) zero a h = ground arith
  set_same (x ∷ xs) (suc i) a h = ap (λ t. x ∷ t) (set_same xs i a h)

  pub get_elem?-append_left :
      (xs ys : List A) (i : ℕ) → i < length xs → get_elem? (xs ++ ys) i ≡ get_elem? xs i
  get_elem?-append_left [] ys i h = absurd (omega arith)
  get_elem?-append_left (x ∷ xs) ys zero h = refl
  get_elem?-append_left (x ∷ xs) ys (suc i) h = get_elem?-append_left xs ys i (omega arith)

  pub get_elem?-append_right :
      (xs ys : List A) (n i : ℕ) → n ≡ length xs + i → get_elem? (xs ++ ys) n ≡ get_elem? ys i
  get_elem?-append_right [] ys n i h = ap (get_elem? ys) (omega arith)
  get_elem?-append_right (x ∷ xs) ys zero i h = absurd (omega arith)
  get_elem?-append_right (x ∷ xs) ys (suc n) i h = get_elem?-append_right xs ys n i (omega arith)

  pub set-append_left :
      (xs ys : List A) (i : ℕ) (a : A) → i < length xs → set (xs ++ ys) i a ≡ set xs i a ++ ys
  set-append_left [] ys i a h = absurd (omega arith)
  set-append_left (x ∷ xs) ys zero a h = refl
  set-append_left (x ∷ xs) ys (suc i) a h =
      ap (λ t. x ∷ t) (set-append_left xs ys i a (omega arith))

  pub set-append_right :
      (xs ys : List A) (n i : ℕ) (a : A) → n ≡ length xs + i → set (xs ++ ys) n a ≡ xs ++ set ys i a
  set-append_right [] ys n i a h = ap (λ t. set ys t a) (omega arith)
  set-append_right (x ∷ xs) ys zero i a h = absurd (omega arith)
  set-append_right (x ∷ xs) ys (suc n) i a h =
      ap (λ t. x ∷ t) (set-append_right xs ys n i a (omega arith))

  pub get_elem?_exists : (xs : List A) (i : ℕ) → i < length xs → (a : A) × (get_elem? xs i ≡ some a)
  get_elem?_exists [] i h = absurd (omega arith)
  get_elem?_exists (x ∷ xs) zero h = (x, refl)
  get_elem?_exists (x ∷ xs) (suc i) h = get_elem?_exists xs i (omega arith)

pub length-map {ℓ κ} :
    {A : Type ℓ} {B : Type κ} (f : A → B) (xs : List A) → length (map f xs) ≡ length xs
length-map f [] = refl
length-map f (x ∷ xs) = ap suc (length-map f xs)
