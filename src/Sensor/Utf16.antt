-- ===== src/Sensor/Utf16.antt =====
-- What `encode_utf16` writes, `from_utf16_lossy` reads back: the strings of
-- endpoint_service/src/sensor.rs.
use correlation_engine.Prelude.{
  ℕ, ◌+◌, ◌-◌, ◌*◌, ◌/◌, ◌%◌, ◌^◌, ◌<◌, ◌≤◌, ◌≡◌, refl, ap, ◌∙◌, inl, inr, true, false, ◌&&◌, none,
  List, [], ◌∷◌, ltb, leb, arith, Bool-cases,
}
use correlation_engine.Prelude.Lists.{length, All}
use correlation_engine.Prelude.Chars.{IsScalar, IsText}
use correlation_engine.Wire.Primitives.{le_bytes}
use correlation_engine.Sensor.Text.{
  units, from_utf16_lossy, encode_utf16, unit_bytes, scan, feed, feed_fresh,
}

units-unit_bytes : (us : List ℕ) → All (λ (u : ℕ). u < 2 ^ 16) us → units (unit_bytes us) ≡ us
unfolding units unit_bytes le_bytes
units-unit_bytes [] h = refl
units-unit_bytes (u ∷ us) h =
    let word : u % 256 + 256 * (u / 256 % 256) ≡ u = omega arith in
    rw (word, units-unit_bytes us h.1)

pub length-unit_bytes_even : (us : List ℕ) → length (unit_bytes us) % 2 ≡ 0
unfolding unit_bytes le_bytes
length-unit_bytes_even [] = omega arith
length-unit_bytes_even (u ∷ us) = omega (arith, length-unit_bytes_even us)

one_unit :
    (c : ℕ) (rest : List ℕ) → IsScalar c → c < 0x10000 → scan none (c ∷ rest) ≡ c ∷ scan none rest
unfolding scan feed feed_fresh
one_unit c rest (inl low) small =
    let a : (leb 0xd800 c && ltb c 0xdc00) ≡ false = ground arith in
    let b : (leb 0xdc00 c && ltb c 0xe000) ≡ false = ground arith in rw (a, b)
one_unit c rest (inr high) small =
    let a : (leb 0xd800 c && ltb c 0xdc00) ≡ false = ground arith in
    let b : (leb 0xdc00 c && ltb c 0xe000) ≡ false = ground arith in rw (a, b)

two_units :
    (x : ℕ) (rest : List ℕ)
    → x < 0x100000
    → scan none ((0xd800 + x / 0x400) ∷ (0xdc00 + x % 0x400) ∷ rest)
      ≡ (0x10000 + x) ∷ scan none rest
unfolding scan feed feed_fresh
two_units x rest h =
    let l = 0xd800 + x / 0x400 in
    let t = 0xdc00 + x % 0x400 in
    let a : (leb 0xd800 l && ltb l 0xdc00) ≡ true = ground arith in
    let b : (leb 0xdc00 t && ltb t 0xe000) ≡ true = ground arith in
    let sum : 0x10000 + (l - 0xd800) * 0x400 + (t - 0xdc00) ≡ 0x10000 + x = omega arith in
    rw (a, b) (rw sum)

scan-encode_utf16 : (s : List ℕ) → IsText s → scan none (encode_utf16 s) ≡ s
unfolding encode_utf16
scan-encode_utf16 [] h = unfold scan in refl
scan-encode_utf16 (c ∷ cs) h = elim (Bool-cases (ltb c 0x10000)) [
  | inl small ↦ rw small (
      one_unit c (encode_utf16 cs) h.0 (ground arith)
      ∙ ap (λ (t : List ℕ). c ∷ t) (scan-encode_utf16 cs h.1))
  | inr big ↦
      let x = c - 0x10000 in
      let at_least : 0x10000 ≤ c = ground arith in
      let whole : 0x10000 + x ≡ c = omega arith in
      rw big (
        two_units x (encode_utf16 cs) (below c h.0)
        ∙ ap (λ (t : List ℕ). (0x10000 + x) ∷ t) (scan-encode_utf16 cs h.1)
        ∙ ap (λ (y : ℕ). y ∷ cs) whole)
]
  where
    below : (y : ℕ) → IsScalar y → y - 0x10000 < 0x100000
    below y (inl low) = omega arith
    below y (inr high) = omega arith

encode_utf16-lt : (s : List ℕ) → IsText s → All (λ (u : ℕ). u < 2 ^ 16) (encode_utf16 s)
unfolding encode_utf16
encode_utf16-lt [] h = tt
encode_utf16-lt (c ∷ cs) h = elim (Bool-cases (ltb c 0x10000)) [
  | inl small ↦ rw small (ground arith, encode_utf16-lt cs h.1)
  | inr big ↦ rw big (below c h.0, (omega arith, encode_utf16-lt cs h.1))
]
  where
    below : (y : ℕ) → IsScalar y → 0xd800 + (y - 0x10000) / 0x400 < 2 ^ 16
    below y (inl low) = omega arith
    below y (inr high) = omega arith

-- A text comes back from its UTF-16 bytes.
pub from_utf16_lossy-encode_utf16 :
    (s : List ℕ) → IsText s → from_utf16_lossy (units (unit_bytes (encode_utf16 s))) ≡ s
unfolding from_utf16_lossy
from_utf16_lossy-encode_utf16 s h =
    ap (scan none) (units-unit_bytes (encode_utf16 s) (encode_utf16-lt s h)) ∙ scan-encode_utf16 s h
