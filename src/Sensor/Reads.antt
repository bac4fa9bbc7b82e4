-- ===== src/Sensor/Reads.antt =====
-- Reads at offsets, in endpoint_service/src/sensor.rs, of what stands there.
use correlation_engine.Prelude.{
  ℕ, ◌+◌, ◌%◌, ◌^◌, ◌<◌, ◌≡◌, sym, ap, ◌∙◌, true, false, List, ◌++◌, ltb, ◌==◌, arith,
}
use mathlib.Core.List.{append_assoc}
use correlation_engine.Prelude.Lists.{
  length, length-append, take, drop, take-length-append, drop-length-append,
}
use correlation_engine.Prelude.Chars.{IsText}
use correlation_engine.Wire.Primitives.{le_bytes, length-le_bytes, from_le-le_bytes}
use correlation_engine.Sensor.{string_at, wstr_at}
use correlation_engine.Sensor.Outcomes.{Outcome, ok, slice, number_at, u16_at}
use correlation_engine.Sensor.Text.{units, from_utf16_lossy, encode_utf16, unit_bytes}
use correlation_engine.Sensor.Utf16.{from_utf16_lossy-encode_utf16, length-unit_bytes_even}
use correlation_engine.Sensor.Encode.{push_wstr}

-- what follows `pre` in `pre ++ (mid ++ post)`
pub slice-append :
    (pre mid post : List ℕ) (off n : ℕ)
    → off ≡ length pre
    → n ≡ length mid
    → slice off n (pre ++ (mid ++ post)) ≡ ok mid
unfolding slice
slice-append pre mid post off n at size =
    let inside : ltb (length (pre ++ (mid ++ post))) (off + n) ≡ false =
      ground (arith, length-append pre (mid ++ post), length-append mid post) in
    let dropped : drop off (pre ++ (mid ++ post)) ≡ mid ++ post =
      ap (λ (k : ℕ). drop k (pre ++ (mid ++ post))) at ∙ drop-length-append pre (mid ++ post) in
    let taken : take n (mid ++ post) ≡ mid =
      ap (λ (k : ℕ). take k (mid ++ post)) size ∙ take-length-append mid post in
    rw inside (rw dropped (rw taken))

pub number_at-append :
    (n : ℕ) (pre post : List ℕ) (off x : ℕ)
    → off ≡ length pre
    → x < 256 ^ n
    → number_at n (pre ++ (le_bytes n x ++ post)) off ≡ ok x
unfolding number_at
number_at-append n pre post off x at small =
    rw (slice-append pre (le_bytes n x) post off n at (sym (length-le_bytes n x)))
      (ap ok (from_le-le_bytes n x small))

string_at-append :
    (pre w post : List ℕ) (off : ℕ)
    → off + 2 ≡ length pre
    → length w % 2 ≡ 0
    → string_at (pre ++ (w ++ post)) off (length w)
      ≡ ok (from_utf16_lossy (units w), off + 2 + length w)
unfolding string_at
string_at-append pre w post off at even =
    let is_even : (length w % 2 == 0) ≡ true = ground arith in
    let inside : ltb (length (pre ++ (w ++ post))) (off + 2 + length w) ≡ false =
      ground (arith, length-append pre (w ++ post), length-append w post) in
    let dropped : drop (off + 2) (pre ++ (w ++ post)) ≡ w ++ post =
      ap (λ (k : ℕ). drop k (pre ++ (w ++ post))) at ∙ drop-length-append pre (w ++ post) in
    rw (is_even, inside) (rw dropped (rw (take-length-append w post)))

wstr_at-append :
    (pre w post : List ℕ) (off : ℕ)
    → off ≡ length pre
    → length w % 2 ≡ 0
    → length w < 2 ^ 16
    → wstr_at (pre ++ (le_bytes 2 (length w) ++ (w ++ post))) off
      ≡ ok (from_utf16_lossy (units w), off + 2 + length w)
unfolding wstr_at u16_at
wstr_at-append pre w post off at even small =
    let two : length (le_bytes 2 (length w)) ≡ 2 = length-le_bytes 2 (length w) in
    let inside : ltb (length (pre ++ (le_bytes 2 (length w) ++ (w ++ post)))) (off + 2) ≡ false =
      ground (
        arith,
        length-append pre (le_bytes 2 (length w) ++ (w ++ post)),
        length-append (le_bytes 2 (length w)) (w ++ post),
      ) in
    rw inside (
      rw (number_at-append 2 pre (w ++ post) off (length w) at (omega arith)) (
        rw (sym (append_assoc pre (le_bytes 2 (length w)) (w ++ post))) (
          string_at-append (pre ++ le_bytes 2 (length w)) w post off
            (omega (arith, length-append pre (le_bytes 2 (length w)))) even)))

-- A string comes back from where it was pushed, with the offset behind it.
pub wstr_at-push_wstr :
    (pre s post : List ℕ) (off : ℕ)
    → off ≡ length pre
    → IsText s
    → length (unit_bytes (encode_utf16 s)) < 2 ^ 16
    → wstr_at (pre ++ (push_wstr s ++ post)) off ≡ ok (s, off + length (push_wstr s))
unfolding push_wstr
wstr_at-push_wstr pre s post off at text small =
    let w = unit_bytes (encode_utf16 s) in
    let n : length w % 2 ^ 16 ≡ length w = omega arith in
    let sum : off + 2 + length w ≡ off + length (le_bytes 2 (length w) ++ w) =
      omega (arith, length-append (le_bytes 2 (length w)) w, length-le_bytes 2 (length w)) in
    let both : List ℕ → ℕ → Outcome (List ℕ × ℕ) = λ t k. ok (t, k) in
    rw n (
      ap (λ (t : List ℕ). wstr_at (pre ++ t) off) (append_assoc (le_bytes 2 (length w)) w post)
      ∙ wstr_at-append pre w post off at (length-unit_bytes_even (encode_utf16 s)) small
      ∙ ap (λ (t : List ℕ). both t (off + 2 + length w)) (from_utf16_lossy-encode_utf16 s text)
      ∙ ap (both s) sum)
