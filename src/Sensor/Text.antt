-- ===== src/Sensor/Text.antt =====
-- The strings of endpoint_service/src/sensor.rs as code points, and UTF-16 as the standard library
-- decodes (`String::from_utf16_lossy`) and encodes (`str::encode_utf16`) it.
use correlation_engine.Prelude.{
  ℕ, ◌+◌, ◌-◌, ◌*◌, ◌/◌, ◌%◌, Bool, ◌&&◌, Option, none, some, List, [], ◌∷◌, ◌++◌, leb, ltb,
  if◌then◌else◌,
}
use correlation_engine.Wire.Primitives.{le_bytes}

-- the pairs of `chunks_exact(2)`
unfoldable pub units : List ℕ → List ℕ
units (a ∷ b ∷ bs) = (a + 256 * b) ∷ units bs
units _ = []

abbrev is_lead : ℕ → Bool
is_lead u = leb 0xd800 u && ltb u 0xdc00

abbrev is_trail : ℕ → Bool
is_trail u = leb 0xdc00 u && ltb u 0xe000

abbrev replacement : ℕ
replacement = 0xfffd

-- the code points that one unit completes, and the lead surrogate that then waits
unfoldable pub feed_fresh : ℕ → List ℕ × Option ℕ
feed_fresh u =
    if is_lead u
    then ([], some u)
    else if is_trail u
    then (replacement ∷ [], none)
    else (u ∷ [], none)

unfoldable pub feed : Option ℕ → ℕ → List ℕ × Option ℕ
unfolding feed_fresh
feed none u = feed_fresh u
feed (some lead) u =
    if is_trail u
    then ((0x10000 + (lead - 0xd800) * 0x400 + (u - 0xdc00)) ∷ [], none)
    else let (out, wait) = feed_fresh u in (replacement ∷ out, wait)

unfoldable pub scan : Option ℕ → List ℕ → List ℕ
unfolding feed
scan none [] = []
scan (some lead) [] = replacement ∷ []
scan wait (u ∷ us) = let (out, wait') = feed wait u in out ++ scan wait' us

unfoldable pub from_utf16_lossy : List ℕ → List ℕ
unfolding scan
from_utf16_lossy us = scan none us

unfoldable pub encode_utf16 : List ℕ → List ℕ
encode_utf16 [] = []
encode_utf16 (c ∷ cs) =
    (if ltb c 0x10000
      then c ∷ []
      else (0xd800 + (c - 0x10000) / 0x400) ∷ (0xdc00 + (c - 0x10000) % 0x400) ∷ [])
    ++ encode_utf16 cs

unfoldable pub unit_bytes : List ℕ → List ℕ
unit_bytes [] = []
unit_bytes (u ∷ us) = le_bytes 2 u ++ unit_bytes us
