-- ===== src/Counter.antt =====
-- logregator-tsdb/src/counter.rs: the counter of sequence numbers.
mod Tests
use logregator.Common.{
  ℕ, zero, suc, ◌+◌, ◌%◌, ◌^◌, ◌<◌, ◌≡◌, ap, ◌∙◌, IsU64, Option, some, List, [], ◌∷◌, arith,
  get_elem?,
}

pub record Counter : Type 0 where
  pub current : ℕ

unfoldable pub inc_and_get : Counter → ℕ × Counter
inc_and_get c = (c.current, record { current = (c.current + 1) % 2 ^ 64 })

-- The results of the next `n` calls.
abbrev pub issued : ℕ → Counter → List ℕ
issued zero c = []
issued (suc n) c = (inc_and_get c).0 ∷ issued n (inc_and_get c).1

-- Of successive calls of `inc_and_get`, the one after `i` others returns the number that the counter
-- began with plus `i`, wrapped around at 2^64.
pub get_elem?-issued :
    (n i : ℕ) (c : Counter)
    → IsU64 c.current
    → i < n
    → get_elem? (issued n c) i ≡ some ((c.current + i) % 2 ^ 64)
unfolding inc_and_get
get_elem?-issued zero i c v h = absurd (omega arith)
get_elem?-issued (suc n) zero c v h = ap some (omega arith)
get_elem?-issued (suc n) (suc i) c v h =
    get_elem?-issued n i (record { current = (c.current + 1) % 2 ^ 64 }) (omega arith) (omega arith)
    ∙ ap some {x = ((c.current + 1) % 2 ^ 64 + i) % 2 ^ 64} (omega arith)
