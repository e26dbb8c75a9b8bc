-- ===== src/Common/Perm.antt =====
-- Permutations of lists that are measured by native numbers.
use mathlib.Core.List
use mathlib.Core.List.Perm
use logregator.Common.Lists.{length}
use mathlib.Core.Path.{◌≡◌, refl, ap}
use Prim.Native.Nat.{suc}
use mathlib.Core.List.{List, [], ◌∷◌, Perm}

module _ {ℓ} {A : Type ℓ} where
  length_eq : (xs ys : List A) → List.length xs ≡ List.length ys → length xs ≡ length ys
  length_eq [] [] h = refl
  length_eq [] (y ∷ ys) h = cc
  length_eq (x ∷ xs) [] h = cc
  length_eq (x ∷ xs) (y ∷ ys) h = ap suc (length_eq xs ys cc)

  pub length-perm : {xs ys : List A} → Perm xs ys → length xs ≡ length ys
  length-perm {xs} {ys} p = length_eq xs ys (Perm.length-eq p)
