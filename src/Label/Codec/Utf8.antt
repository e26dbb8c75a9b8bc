-- ===== src/Label/Codec/Utf8.antt =====
-- `std::str::from_utf8`: whether bytes are well-formed UTF-8, by the table of the Unicode standard.
use logregator.Common.{ℕ, Bool, true, ◌&&◌, ◌||◌, ◌==◌, leb, List, [], ◌∷◌}

abbrev between : ℕ → ℕ → ℕ → Bool
between a b x = leb a x && leb x b

abbrev tail : ℕ → Bool
tail = between 128 191

-- The second byte of three and of four, after the first.
abbrev second_of_three : ℕ → ℕ → Bool
second_of_three a b =
    ((a == 224) && between 160 191 b)
    || (between 225 236 a && tail b)
    || ((a == 237) && between 128 159 b)
    || (between 238 239 a && tail b)

abbrev second_of_four : ℕ → ℕ → Bool
second_of_four a b =
    ((a == 240) && between 144 191 b)
    || (between 241 243 a && tail b)
    || ((a == 244) && between 128 143 b)

unfoldable pub is_utf8 : List ℕ → Bool
is_utf8 [] = true
is_utf8 (a ∷ []) = leb a 127
is_utf8 (a ∷ b ∷ []) = (leb a 127 && is_utf8 (b ∷ [])) || (between 194 223 a && tail b)
is_utf8 (a ∷ b ∷ c ∷ []) =
    (leb a 127 && is_utf8 (b ∷ c ∷ []))
    || (between 194 223 a && tail b && is_utf8 (c ∷ []))
    || (second_of_three a b && tail c)
is_utf8 (a ∷ b ∷ c ∷ d ∷ rest) =
    (leb a 127 && is_utf8 (b ∷ c ∷ d ∷ rest))
    || (between 194 223 a && tail b && is_utf8 (c ∷ d ∷ rest))
    || (second_of_three a b && tail c && is_utf8 (d ∷ rest))
    || (second_of_four a b && tail c && tail d && is_utf8 rest)
