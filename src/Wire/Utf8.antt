-- ===== src/Wire/Utf8.antt =====
-- `core::str::from_utf8`: the well-formed byte sequences of Unicode (RFC 3629, table of section 4).
pub mod Encoded
use correlation_engine.Prelude.{
  ℕ, Bool, true, false, ◌&&◌, Option, none, some, List, [], ◌∷◌, leb, if◌then◌else◌,
}

abbrev within : ℕ → ℕ → ℕ → Bool
within lo hi b = leb lo b && leb b hi

-- the ranges that the bytes after a lead byte must lie in
trail : ℕ → Option (List (ℕ × ℕ))
trail b =
    if leb b 0x7f
    then some []
    else if within 0xc2 0xdf b
    then some ((0x80, 0xbf) ∷ [])
    else if within 0xe0 0xe0 b
    then some ((0xa0, 0xbf) ∷ (0x80, 0xbf) ∷ [])
    else if within 0xed 0xed b
    then some ((0x80, 0x9f) ∷ (0x80, 0xbf) ∷ [])
    else if within 0xe1 0xef b
    then some ((0x80, 0xbf) ∷ (0x80, 0xbf) ∷ [])
    else if within 0xf0 0xf0 b
    then some ((0x90, 0xbf) ∷ (0x80, 0xbf) ∷ (0x80, 0xbf) ∷ [])
    else if within 0xf1 0xf3 b
    then some ((0x80, 0xbf) ∷ (0x80, 0xbf) ∷ (0x80, 0xbf) ∷ [])
    else if within 0xf4 0xf4 b
    then some ((0x80, 0x8f) ∷ (0x80, 0xbf) ∷ (0x80, 0xbf) ∷ [])
    else none

scan : List (ℕ × ℕ) → List ℕ → Bool
scan [] [] = true
scan (r ∷ rs) [] = false
scan ((lo, hi) ∷ rs) (b ∷ bs) = within lo hi b && scan rs bs
scan [] (b ∷ bs) = elim (trail b) [ none ↦ false | some rs ↦ scan rs bs ]

unfoldable pub is_utf8 : List ℕ → Bool
unfolding scan trail
is_utf8 bs = scan [] bs
