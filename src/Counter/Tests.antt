-- ===== src/Counter/Tests.antt =====
-- The counter at the end of its range.
use logregator.Common.{◌≡◌, some, get_elem?, arith}
use logregator.Counter.{Counter, issued, get_elem?-issued}

abbrev last_number : Counter
last_number = record { current = 18446744073709551615 }

get_elem?-issued_example : get_elem? (issued 3 last_number) 2 ≡ some 1
get_elem?-issued_example = get_elem?-issued 3 2 last_number (omega arith) (omega arith)
