-- ===== src/Record/Order.antt =====
-- The derived `Ord` of keys.
use logregator.Common.{◌≡◌, ◌≢◌, arith, Ordering}
use logregator.Record.{Key, cmp}

infix 50 ◌≺◌
abbrev pub ◌≺◌ : Key → Key → Type 0
a ≺ b = cmp a b ≡ Ordering.lt

pub cmp_refl : (a : Key) → cmp a a ≡ Ordering.eq
unfolding cmp
cmp_refl a = ground arith

pub eq_of_cmp : (a b : Key) → cmp a b ≡ Ordering.eq → a ≡ b
unfolding cmp
eq_of_cmp a b h = ground arith

pub lt_of_gt : (a b : Key) → cmp a b ≡ Ordering.gt → b ≺ a
unfolding cmp
lt_of_gt a b h = ground arith

pub gt_of_lt : (a b : Key) → a ≺ b → cmp b a ≡ Ordering.gt
unfolding cmp
gt_of_lt a b h = ground arith

pub lt_trans : (a b c : Key) → a ≺ b → b ≺ c → a ≺ c
unfolding cmp
lt_trans a b c h k = ground arith

infix 50 ◌≼◌
abbrev pub ◌≼◌ : Key → Key → Type 0
a ≼ b = cmp a b ≢ Ordering.gt

pub le_refl : (a : Key) → a ≼ a
unfolding cmp
le_refl a = ground arith

pub le_trans : (a b c : Key) → a ≼ b → b ≼ c → a ≼ c
unfolding cmp
le_trans a b c h k = ground arith

pub le_of_lt : (a b : Key) → a ≺ b → a ≼ b
unfolding cmp
le_of_lt a b h = ground arith

-- Keys that are not less one way are in order the other way.
pub le_of_not_lt : (a b : Key) → cmp a b ≢ Ordering.lt → b ≼ a
unfolding cmp
le_of_not_lt a b h = ground arith
