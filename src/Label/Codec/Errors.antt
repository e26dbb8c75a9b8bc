-- ===== src/Label/Codec/Errors.antt =====
-- What `encode` does with any label map and any `dst`.
use logregator.Common.{Bool, true, ◌&&◌, List, [], ◌∷◌, length}
use logregator.Label.{Label}
use logregator.Label.Codec.{valid_str_size}

-- The strings of every label have a length that the codec accepts.
abbrev pub valid_labels : List Label → Bool
valid_labels [] = true
valid_labels ((k, v) ∷ m) =
    valid_str_size (length k) && (valid_str_size (length v) && valid_labels m)
