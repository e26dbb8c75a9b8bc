-- ===== src/Common/Bytes.antt =====
-- `to_be_bytes` and `from_be_bytes` of the unsigned integers: big-endian bytes at a width.
use Prim.Native.Nat.{ℕ, zero, suc, ◌+◌, ◌*◌, ◌/◌, ◌%◌, ◌^◌, ◌<◌}
use mathlib.Core.Path.{◌≡◌, refl, sym, ap, ◌∙◌}
use mathlib.Core.List.{List, [], ◌∷◌, ◌++◌, foldl, foldl-append}
use native.Mathlib.Nat.{pow-suc}
use native.Mathlib.Omega.{arith}
use logregator.Common.Lists.{length, length-append, All, All-append, All-append_split, snoc-cases}

abbrev pub IsByte : ℕ → Type 0
IsByte b = b < 256

abbrev pub IsU16 : ℕ → Type 0
IsU16 v = v < 2 ^ 16

abbrev pub IsU32 : ℕ → Type 0
IsU32 v = v < 2 ^ 32

abbrev pub IsU64 : ℕ → Type 0
IsU64 v = v < 2 ^ 64

-- `v.to_be_bytes()` of an integer `w` bytes wide.
unfoldable pub to_be_bytes : ℕ → ℕ → List ℕ
to_be_bytes zero v = []
to_be_bytes (suc w) v = to_be_bytes w (v / 256) ++ (v % 256 ∷ [])

abbrev push_byte : ℕ → ℕ → ℕ
push_byte acc b = acc * 256 + b

-- `uN::from_be_bytes(bs)`.
unfoldable pub from_be_bytes : List ℕ → ℕ
from_be_bytes = foldl push_byte 0

pub length-to_be_bytes : (w v : ℕ) → length (to_be_bytes w v) ≡ w
unfolding to_be_bytes
length-to_be_bytes zero v = refl
length-to_be_bytes (suc w) v =
    omega (
      arith,
      length-to_be_bytes w (v / 256),
      length-append (to_be_bytes w (v / 256)) (v % 256 ∷ []),
    )

pub to_be_bytes-IsByte : (w v : ℕ) → All IsByte (to_be_bytes w v)
unfolding to_be_bytes
to_be_bytes-IsByte zero v = tt
to_be_bytes-IsByte (suc w) v =
    All-append IsByte (to_be_bytes w (v / 256)) _ (to_be_bytes-IsByte w (v / 256)) (omega arith)

from_be_bytes-snoc :
    (bs : List ℕ) (b : ℕ) → from_be_bytes (bs ++ (b ∷ [])) ≡ from_be_bytes bs * 256 + b
unfolding from_be_bytes
from_be_bytes-snoc bs b = rw foldl-append

-- Reading back what was written, for a value that fits the width.
pub from_be_bytes-to_be_bytes : (w v : ℕ) → v < 256 ^ w → from_be_bytes (to_be_bytes w v) ≡ v
unfolding to_be_bytes
from_be_bytes-to_be_bytes zero v h = unfold from_be_bytes in omega arith
from_be_bytes-to_be_bytes (suc w) v h =
    from_be_bytes-snoc (to_be_bytes w (v / 256)) (v % 256)
    ∙ omega (arith, from_be_bytes-to_be_bytes w (v / 256) (omega (arith, pow-suc 256 w)))

-- Writing back what was read, for a list of bytes.
pub to_be_bytes-from_be_bytes :
    (n : ℕ) (bs : List ℕ) → length bs ≡ n → All IsByte bs → to_be_bytes n (from_be_bytes bs) ≡ bs
unfolding to_be_bytes
to_be_bytes-from_be_bytes zero [] h b = refl
to_be_bytes-from_be_bytes zero (x ∷ bs) h b = absurd (omega arith)
to_be_bytes-from_be_bytes (suc n) bs h b =
    let (xs, x, e, k) = snoc-cases n bs h in
    let (front, last) = All-append_split IsByte xs (x ∷ []) (rw e at b) in
    let sum : from_be_bytes bs ≡ from_be_bytes xs * 256 + x =
      ap from_be_bytes e ∙ from_be_bytes-snoc xs x in
    let high : from_be_bytes bs / 256 ≡ from_be_bytes xs = omega (arith, last) in
    let low : from_be_bytes bs % 256 ≡ x = omega (arith, last) in
    ap (λ v. to_be_bytes n v ++ (from_be_bytes bs % 256 ∷ [])) high
    ∙ ap (λ b. to_be_bytes n (from_be_bytes xs) ++ (b ∷ [])) low
    ∙ ap (λ t. t ++ (x ∷ [])) (to_be_bytes-from_be_bytes n xs k front)
    ∙ sym e

pub from_be_bytes-lt :
    (n : ℕ) (bs : List ℕ) → length bs ≡ n → All IsByte bs → from_be_bytes bs < 256 ^ n
from_be_bytes-lt zero [] h b = unfold from_be_bytes in omega arith
from_be_bytes-lt zero (x ∷ bs) h b = absurd (omega arith)
from_be_bytes-lt (suc n) bs h b =
    let (xs, x, e, k) = snoc-cases n bs h in
    let (front, last) = All-append_split IsByte xs (x ∷ []) (rw e at b) in
    rw (e, from_be_bytes-snoc) (omega (arith, last, from_be_bytes-lt n xs k front, pow-suc 256 n))
