-- ===== src/Prelude/Texts.antt =====
-- Text as a list of code points, and what `str` of the Rust standard library does with it.
use Prim.Native.Char.{code}
use Prim.Native.String.{String}
use Prim.Native.Nat.{ℕ, ◌+◌, ◌-◌, ◌*◌, ◌/◌, ◌%◌}
use mathlib.Core.Bool.{Bool, true, false, ◌&&◌, ◌||◌}
use mathlib.Core.Option.{Option, none, some}
use mathlib.Core.List.{List, [], ◌∷◌, ◌++◌}
use correlation_engine.Prelude.Tests.{ltb, leb, ◌==◌, if◌then◌else◌}

-- the code points of a literal
abbrev pub codes : String → List ℕ
codes String.[] = []
codes (String.◌∷◌ c s) = code c ∷ codes s

unfoldable pub equal : List ℕ → List ℕ → Bool
equal [] [] = true
equal (a ∷ as') (b ∷ bs) = a == b && equal as' bs
equal _ _ = false

abbrev pub is_nil : List ℕ → Bool
is_nil [] = true
is_nil (c ∷ cs) = false

-- `char::is_whitespace`: the code points with the property `White_Space`
unfoldable pub is_whitespace : ℕ → Bool
is_whitespace c =
    (leb 9 c && leb c 13)
    || c == 32
    || c == 0x85
    || c == 0xa0
    || c == 0x1680
    || (leb 0x2000 c && leb c 0x200a)
    || c == 0x2028
    || c == 0x2029
    || c == 0x202f
    || c == 0x205f
    || c == 0x3000

unfoldable pub has_whitespace : List ℕ → Bool
has_whitespace [] = false
has_whitespace (c ∷ cs) = is_whitespace c || has_whitespace cs

unfoldable pub trim_start : List ℕ → List ℕ
trim_start [] = []
trim_start (c ∷ cs) = let rest = trim_start cs in if is_whitespace c then rest else c ∷ cs

unfoldable pub trim_end : List ℕ → List ℕ
trim_end [] = []
trim_end (c ∷ cs) =
    let rest = trim_end cs in if is_whitespace c && is_nil rest then [] else c ∷ rest

unfoldable pub trim : List ℕ → List ℕ
trim s = trim_end (trim_start s)

-- a character before the first of the pieces
abbrev pub onto_first : ℕ → List (List ℕ) → List (List ℕ)
onto_first c [] = (c ∷ []) ∷ []
onto_first c (p ∷ ps) = (c ∷ p) ∷ ps

-- `split(sep)`: one piece more than there are separators
unfoldable pub split : ℕ → List ℕ → List (List ℕ)
split sep [] = [] ∷ []
split sep (c ∷ cs) = let rest = split sep cs in if c == sep then [] ∷ rest else onto_first c rest

unfoldable pub pieces : List ℕ → List (List ℕ)
pieces [] = [] ∷ []
pieces (c ∷ cs) = let rest = pieces cs in if is_whitespace c then [] ∷ rest else onto_first c rest

unfoldable pub non_empty : List (List ℕ) → List (List ℕ)
non_empty [] = []
non_empty (p ∷ ps) = let rest = non_empty ps in if is_nil p then rest else p ∷ rest

unfoldable pub split_whitespace : List ℕ → List (List ℕ)
split_whitespace s = non_empty (pieces s)

unfoldable pub split_once : ℕ → List ℕ → Option (List ℕ × List ℕ)
split_once sep [] = none
split_once sep (c ∷ cs) =
    let rest = split_once sep cs in
    if c == sep then some ([], cs) else elim rest [ none ↦ none | some (k, v) ↦ some (c ∷ k, v) ]

unfoldable pub strip_prefix : List ℕ → List ℕ → Option (List ℕ)
strip_prefix [] s = some s
strip_prefix (p ∷ ps) [] = none
strip_prefix (p ∷ ps) (c ∷ cs) = let rest = strip_prefix ps cs in if p == c then rest else none

-- `strip_suffix` of one character
unfoldable pub strip_last : ℕ → List ℕ → Option (List ℕ)
strip_last last [] = none
strip_last last (c ∷ []) = if c == last then some [] else none
strip_last last (c ∷ d ∷ cs) = elim (strip_last last (d ∷ cs)) [
  | none ↦ none
  | some s ↦ some (c ∷ s)
]

unfoldable pub starts_with : ℕ → List ℕ → Bool
starts_with p [] = false
starts_with p (c ∷ cs) = c == p

-- a line that ends in `\n` loses one `\r` before it
abbrev pub without_return : List ℕ → List ℕ
without_return s = elim (strip_last 13 s) [ none ↦ s | some r ↦ r ]

unfoldable pub lines_of : List (List ℕ) → List (List ℕ)
lines_of [] = []
lines_of (last ∷ []) = if is_nil last then [] else last ∷ []
lines_of (l ∷ m ∷ ls) = without_return l ∷ lines_of (m ∷ ls)

unfoldable pub lines : List ℕ → List (List ℕ)
lines s = lines_of (split 10 s)

-- the value of decimal digits behind `acc`, with no value past `most` (`checked_mul`, `checked_add`)
unfoldable pub digits_from : ℕ → ℕ → List ℕ → Option ℕ
digits_from most acc [] = some acc
digits_from most acc (c ∷ cs) =
    let n = acc * 10 + (c - 48) in
    let rest = digits_from most n cs in if leb 48 c && leb c 57 && leb n most then rest else none

-- `parse` of an unsigned integer type whose greatest value is `most`
unfoldable pub parse_uint : ℕ → List ℕ → Option ℕ
parse_uint most [] = none
parse_uint most (c ∷ []) = if c == 43 then none else digits_from most 0 (c ∷ [])
parse_uint most (c ∷ d ∷ cs) = digits_from most 0 (if c == 43 then d ∷ cs else c ∷ d ∷ cs)

-- the UTF-8 bytes of a code point, and of a text
unfoldable pub utf8_char : ℕ → List ℕ
utf8_char c =
    if ltb c 0x80
    then c ∷ []
    else if ltb c 0x800
    then (0xc0 + c / 64) ∷ (0x80 + c % 64) ∷ []
    else if ltb c 0x10000
    then (0xe0 + c / 4096) ∷ (0x80 + c / 64 % 64) ∷ (0x80 + c % 64) ∷ []
    else (0xf0 + c / 262144) ∷ (0x80 + c / 4096 % 64) ∷ (0x80 + c / 64 % 64) ∷ (0x80 + c % 64) ∷ []

unfoldable pub utf8 : List ℕ → List ℕ
utf8 [] = []
utf8 (c ∷ cs) = utf8_char c ++ utf8 cs
