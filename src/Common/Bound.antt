-- ===== src/Common/Bound.antt =====
-- `std::ops::Bound`.
pub data Bound {ℓ} (K : Type ℓ) : Type ℓ where
  included : K → Bound K
  excluded : K → Bound K
  unbounded : Bound K
