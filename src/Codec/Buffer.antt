-- ===== src/Codec/Buffer.antt =====
-- Writing to a `&mut [u8]`: the steps that the encoders of the crate are made of.
use logregator.Common.{
  ℕ, ◌+◌, ◌-◌, ◌≤◌, ◌≡◌, refl, ap, ◌∙◌, Bool, true, false, ◌&&◌, List, ◌++◌, arith, Outcome, ok,
  err, panic, leb, le→leb, ◌==◌, eq→==, if◌then◌else◌, length, take, drop, slice, take-append,
  drop-append, drop-append_le, drop-drop, length-drop, length-append,
}
use logregator.Codec.{CodecError, Encoder}

-- What follows a statement: `?` ends the function on an error, a panic ends everything.
abbrev pub resume :
    {A B : Type 0} → (A → Encoder B) → Outcome CodecError A × List ℕ → Outcome CodecError B × List ℕ
resume f (ok a, dst) = f a dst
resume f (err e, dst) = (err e, dst)
resume f (panic, dst) = (panic, dst)

infixl 5 ◌>>=◌ ◌>>◌
unfoldable pub ◌>>=◌ : {A B : Type 0} → Encoder A → (A → Encoder B) → Encoder B
◌>>=◌ m f dst = resume f (m dst)

abbrev pub ◌>>◌ : {A B : Type 0} → Encoder A → Encoder B → Encoder B
m >> k = m >>= λ _. k

unfoldable pub return : {A : Type 0} → A → Encoder A
return a dst = (ok a, dst)

-- `dst.len()`
unfoldable pub len : Encoder ℕ
len dst = (ok (length dst), dst)

-- `if test { return Err(e) }`
unfoldable pub fail_if : Bool → CodecError → Encoder (Unit {0})
fail_if true e dst = (err e, dst)
fail_if false e dst = (ok tt, dst)

-- `dst[i..j].copy_from_slice(src)`
unfoldable pub copy : ℕ → ℕ → List ℕ → Encoder (Unit {0})
copy i j src dst =
    if leb i j && leb j (length dst) && (length src == j - i)
    then (ok tt, take i dst ++ src ++ drop j dst)
    else (panic, dst)

-- A call on `&mut dst[i..j]`.
unfoldable pub within : {A : Type 0} → ℕ → ℕ → Encoder A → Encoder A
within i j m dst =
    if leb i j && leb j (length dst)
    then (let (r, mid) = m (slice dst i j) in (r, take i dst ++ mid ++ drop j dst))
    else (panic, dst)

-- A run of an encoder, one statement at a time.
module _ {B : Type 0} {dst : List ℕ} {out : Outcome CodecError B × List ℕ} where
  pub after :
      {A : Type 0} (m : Encoder A) (k : A → Encoder B) {dst' : List ℕ} {a : A}
      → m dst ≡ (ok a, dst')
      → k a dst' ≡ out
      → (m >>= k) dst ≡ out
  unfolding ◌>>=◌
  after m k e h = ap (resume k) e ∙ h

  pub after_len : (k : ℕ → Encoder B) → k (length dst) dst ≡ out → (len >>= k) dst ≡ out
  unfolding len
  after_len k h = after (λ d. (ok (length d), d)) k refl h

  pub pass :
      (test : Bool) (e : CodecError) (k : Unit {0} → Encoder B)
      → test ≡ false
      → k tt dst ≡ out
      → (fail_if test e >>= k) dst ≡ out
  unfolding fail_if
  pass test e k t h = after (fail_if test e) k (rw t) h

pub refuse :
    {B : Type 0} (test : Bool) (e : CodecError) (k : Unit {0} → Encoder B) {dst : List ℕ}
    → test ≡ true
    → (fail_if test e >>= k) dst ≡ (err e, dst)
unfolding fail_if ◌>>=◌
refuse test e k t = rw t

-- Encoders write from left to right: what is written up to `i`, then what is left of `dst`.
module _ (written dst : List ℕ) (i j : ℕ) (h : length written ≡ i) (p : i ≤ j)
    (l : j ≤ length dst) where
  length-written : length (written ++ drop i dst) ≡ length dst
  length-written = omega (arith, length-append written (drop i dst), length-drop i dst)

  drop-written : drop j (written ++ drop i dst) ≡ drop j dst
  drop-written =
      drop-append_le written (drop i dst) i j h p
      ∙ drop-drop (j - i) i dst
      ∙ ap (λ t. drop t dst) (omega arith)

  pub copy-append :
      (src : List ℕ)
      → i + length src ≡ j
      → copy i j src (written ++ drop i dst) ≡ (ok tt, written ++ src ++ drop j dst)
  unfolding copy
  copy-append src k = rw (
    le→leb i j p,
    length-written,
    le→leb j (length dst) l,
    eq→== (length src) (j - i) (omega arith),
    take-append written (drop i dst) i h,
    drop-written,
  )

  pub within-append :
      {A : Type 0} (m : Encoder A) {r : Outcome CodecError A} {mid : List ℕ}
      → m (slice dst i j) ≡ (r, mid)
      → within i j m (written ++ drop i dst) ≡ (r, written ++ mid ++ drop j dst)
  unfolding within
  within-append m e = rw (
    le→leb i j p,
    length-written,
    le→leb j (length dst) l,
    take-append written (drop i dst) i h,
    drop-append written (drop i dst) i h,
    drop-written,
    e,
  )
