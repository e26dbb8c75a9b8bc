-- ===== src/Memtable/Tests.antt =====
-- Runs of the memtable, and its theorems at concrete inputs.
use logregator.Common.{ℕ, ◌≡◌, refl, [], ◌∷◌, some, false, if◌then◌else◌}
use logregator.Record.{Record, cmp}
use logregator.Memtable.{Memtable, full, append, was_appended, with_size_limit}
use logregator.Memtable.Set.{insert}
use logregator.Memtable.Size.{IsValid, with_size_limit-IsValid, append-IsValid}
use logregator.Memtable.Contents.{contents, put, append-contents}

-- A record of 50 bytes in stream `s` at time `t`.
abbrev pub rec : ℕ → ℕ → Record
rec s t = record {
  key = record { stream_id = s; timestamp = t; sequence_num = t; source_id = 0 };
  payload = 0 ∷ 7 ∷ [];
}

abbrev empty : Memtable
empty = with_size_limit 1 100

two : Memtable
unfolding append with_size_limit insert cmp
two = (append (append empty (rec 1 1)).0 (rec 1 2)).0

two_set : two.set ≡ rec 1 1 ∷ rec 1 2 ∷ []
unfolding two
two_set = refl

third_rejected : append two (rec 1 3) ≡ (two, full (some (rec 1 3)))
unfolding two append
third_rejected = refl

two-IsValid : IsValid two
unfolding two
two-IsValid =
    append-IsValid _ (rec 1 2) (append-IsValid _ (rec 1 1) (with_size_limit-IsValid 1 100))

append-IsValid_example : IsValid (append two (rec 1 3)).0
append-IsValid_example = append-IsValid two (rec 1 3) two-IsValid

append-contents_example :
    (contents (append two (rec 1 3)).0 ≡ (
      if was_appended (append two (rec 1 3)).1 then put (rec 1 3) (contents two) else contents two))
    × (was_appended (append two (rec 1 3)).1 ≡ false
        → append two (rec 1 3) ≡ (two, full (some (rec 1 3))))
append-contents_example = append-contents two (rec 1 3) two-IsValid
