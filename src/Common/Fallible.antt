-- ===== src/Common/Fallible.antt =====
-- What a call of a fallible Rust function does: it returns `Ok`, it returns `Err`, or it panics
-- (an index or slice out of range, `copy_from_slice` of another length, `todo!`, `unwrap`).
use Prim.Native.Nat.{ℕ, ◌≤◌}
use mathlib.Core.Path.{◌≡◌}
use mathlib.Core.Bool.{◌&&◌}
use mathlib.Core.List.{List}
use logregator.Common.Tests.{leb, le→leb, if◌then◌else◌}
use logregator.Common.Lists.{length, slice}

pub data Outcome {ε ℓ} (E : Type ε) (A : Type ℓ) : Type (ε ⊔ ℓ) where
  ok : A → Outcome E A
  err : E → Outcome E A
  panic : Outcome E A

-- The `?` operator.
infixl 5 ◌>>=◌ ◌>>◌
abbrev pub ◌>>=◌ {ε ℓ κ} :
    {E : Type ε} {A : Type ℓ} {B : Type κ} → Outcome E A → (A → Outcome E B) → Outcome E B
ok a >>= f = f a
err e >>= f = err e
panic >>= f = panic

abbrev pub ◌>>◌ {ε ℓ κ} :
    {E : Type ε} {A : Type ℓ} {B : Type κ} → Outcome E A → Outcome E B → Outcome E B
m >> k = m >>= λ _. k

-- `map_err(f)`, and the conversion that `?` makes of an error.
abbrev pub map_err {ε φ ℓ} :
    {E : Type ε} {F : Type φ} {A : Type ℓ} → (E → F) → Outcome E A → Outcome F A
map_err f (ok a) = ok a
map_err f (err e) = err (f e)
map_err f panic = panic

-- `&xs[i..j]`
unfoldable pub range {ε ℓ} : {E : Type ε} {A : Type ℓ} → List A → ℕ → ℕ → Outcome E (List A)
range xs i j = if leb i j && leb j (length xs) then ok (slice xs i j) else panic

module _ {ε ℓ} {E : Type ε} {A : Type ℓ} where
  pub range-ok :
      (xs : List A) (i j : ℕ) → i ≤ j → j ≤ length xs → range {E = E} xs i j ≡ ok (slice xs i j)
  unfolding range
  range-ok xs i j h k = rw (le→leb i j h, le→leb j (length xs) k)
