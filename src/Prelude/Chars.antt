-- ===== src/Prelude/Chars.antt =====
-- The parts that `str` methods cut from a text are of the text's characters, and the UTF-8 bytes of a
-- text are well formed.
use Prim.Native.Nat.{ℕ, zero, suc, ◌≤◌, ◌<◌}
use mathlib.Core.Logic.{◌⊎◌}
use mathlib.Core.Bool.{Bool, true, false, ◌&&◌}
use mathlib.Core.Option.{Option, none, some}
use mathlib.Core.List.{List, [], ◌∷◌}
use correlation_engine.Prelude.Tests.{◌==◌, if◌then◌else◌}
use correlation_engine.Prelude.Lists.{All, drop}
use correlation_engine.Prelude.Texts.{
  is_nil, is_whitespace, trim_start, trim_end, trim, onto_first, split, strip_last, without_return,
  lines_of, lines,
}

-- the values of a Rust `char`
abbrev pub IsScalar : ℕ → Type 0
IsScalar c = (c < 0xd800) ⊎ (0xe000 ≤ c) × (c < 0x110000)

-- a `str`, as its characters
abbrev pub IsText : List ℕ → Type 0
IsText s = All IsScalar s

All-if {ℓ} : {A : Type ℓ} (P : A → Type 0) (b : Bool) (x y : A) → P x → P y → P (if b then x else y)
All-if P true x y p q = p
All-if P false x y p q = q

trim_start-IsText : (s : List ℕ) → IsText s → IsText (trim_start s)
unfolding trim_start
trim_start-IsText [] h = tt
trim_start-IsText (c ∷ cs) h =
    All-if IsText (is_whitespace c) (trim_start cs) (c ∷ cs) (trim_start-IsText cs h.1) h

trim_end-IsText : (s : List ℕ) → IsText s → IsText (trim_end s)
unfolding trim_end
trim_end-IsText [] h = tt
trim_end-IsText (c ∷ cs) h =
    All-if IsText (is_whitespace c && is_nil (trim_end cs)) [] (c ∷ trim_end cs) tt
      (h.0, trim_end-IsText cs h.1)

pub trim-IsText : (s : List ℕ) → IsText s → IsText (trim s)
unfolding trim
trim-IsText s h = trim_end-IsText (trim_start s) (trim_start-IsText s h)

pub drop-IsText : (n : ℕ) (s : List ℕ) → IsText s → IsText (drop n s)
drop-IsText zero s h = h
drop-IsText (suc n) [] h = tt
drop-IsText (suc n) (c ∷ cs) h = drop-IsText n cs h.1

onto_first-IsText :
    (c : ℕ) (ps : List (List ℕ)) → IsScalar c → All IsText ps → All IsText (onto_first c ps)
onto_first-IsText c [] h hs = ((h, tt), tt)
onto_first-IsText c (p ∷ ps) h hs = ((h, hs.0), hs.1)

split-IsText : (sep : ℕ) (s : List ℕ) → IsText s → All IsText (split sep s)
unfolding split
split-IsText sep [] h = (tt, tt)
split-IsText sep (c ∷ cs) h =
    All-if (All IsText) (c == sep) ([] ∷ split sep cs) (onto_first c (split sep cs))
      (tt, split-IsText sep cs h.1)
      (onto_first-IsText c (split sep cs) h.0 (split-IsText sep cs h.1))

abbrev OrNone : Option (List ℕ) → Type 0
OrNone none = Unit {0}
OrNone (some s) = IsText s

OrNone-cons :
    (c : ℕ) (o : Option (List ℕ))
    → IsScalar c
    → OrNone o
    → OrNone (elim o [ none ↦ none | some s ↦ some (c ∷ s) ])
OrNone-cons c none h k = tt
OrNone-cons c (some s) h k = (h, k)

strip_last-IsText : (last : ℕ) (s : List ℕ) → IsText s → OrNone (strip_last last s)
unfolding strip_last
strip_last-IsText last [] h = tt
strip_last-IsText last (c ∷ []) h = All-if OrNone (c == last) (some []) none tt tt
strip_last-IsText last (c ∷ d ∷ cs) h =
    OrNone-cons c (strip_last last (d ∷ cs)) h.0 (strip_last-IsText last (d ∷ cs) h.1)

or_else-IsText :
    (s : List ℕ) (o : Option (List ℕ))
    → IsText s
    → OrNone o
    → IsText (elim o [ none ↦ s | some r ↦ r ])
or_else-IsText s none h k = h
or_else-IsText s (some r) h k = k

without_return-IsText : (s : List ℕ) → IsText s → IsText (without_return s)
without_return-IsText s h = or_else-IsText s (strip_last 13 s) h (strip_last-IsText 13 s h)

lines_of-IsText : (ps : List (List ℕ)) → All IsText ps → All IsText (lines_of ps)
unfolding lines_of
lines_of-IsText [] h = tt
lines_of-IsText (p ∷ []) h = All-if (All IsText) (is_nil p) [] (p ∷ []) tt h
lines_of-IsText (l ∷ m ∷ ls) h = (without_return-IsText l h.0, lines_of-IsText (m ∷ ls) h.1)

pub lines-IsText : (s : List ℕ) → IsText s → All IsText (lines s)
unfolding lines
lines-IsText s h = lines_of-IsText (split 10 s) (split-IsText 10 s h)
