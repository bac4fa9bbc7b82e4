-- ===== src/Sensor/Reply.antt =====
-- The reply flag of a frame in endpoint_service/src/sensor.rs.
use correlation_engine.Prelude.{
  ℕ, suc, ◌+◌, ◌*◌, ◌/◌, ◌%◌, ◌^◌, ◌≡◌, ◌∙◌, ap, Bool, true, false, not, List, ◌∷◌, bit_and, bit_or,
  ltb, ◌==◌, if◌then◌else◌, arith,
}
use correlation_engine.Prelude.Bits.{
  testb, testb-bit_and, testb-bit_or, testb-two_pow, and-two_pow_eq_zero,
}
use correlation_engine.Prelude.Lists.{length}
use correlation_engine.Wire.Primitives.{le_bytes, from_le}
use correlation_engine.Sensor.{expects_reply}
use correlation_engine.Sensor.Outcomes.{ok, slice, number_at, u16_at}
use correlation_engine.Sensor.Encode.{concat, build_frame}

-- the top digit of a 16-bit number
top_digit : (c : ℕ) → testb 15 (c % 256 + 256 * (c / 256 % 256 + 256 * 0)) ≡ testb 15 c
unfolding testb
top_digit c = ap (λ x. x == 1) (omega arith)

count_flag :
    (n : ℕ) (reply : Bool)
    → testb 15 (if reply then bit_or (bit_and n 0x7fff) 0x8000 else bit_and n 0x7fff) ≡ reply
count_flag n true = testb-bit_or 15 (bit_and n 0x7fff) 0x8000 ∙ ground (arith, testb-two_pow 15 15)
count_flag n false = testb-bit_and 15 n 0x7fff ∙ unfold testb in ground arith

reads_flag :
    (b0 b1 b2 b3 b4 b5 c : ℕ) (rest : List ℕ)
    → expects_reply (b0 ∷ b1 ∷ b2 ∷ b3 ∷ b4 ∷ b5 ∷ c % 256 ∷ c / 256 % 256 ∷ rest) ≡ ok (testb 15 c)
unfolding expects_reply u16_at number_at slice from_le
reads_flag b0 b1 b2 b3 b4 b5 c rest =
    let word = c % 256 + 256 * (c / 256 % 256 + 256 * 0) in
    rw (eight (length rest)) (ap ok (flag word ∙ top_digit c))
  where
    eight : (n : ℕ) → ltb (suc (suc (suc (suc (suc (suc (suc (suc n)))))))) 8 ≡ false
    eight n = ground arith

    flag : (x : ℕ) → not (bit_and x 0x8000 == 0) ≡ testb 15 x
    flag x = ground (arith, and-two_pow_eq_zero x 15)

-- A frame asks for a reply exactly when it was built for one, whatever its records and their number.
pub expects_reply-build_frame :
    (events : List (List ℕ)) (reply : Bool) → expects_reply (build_frame events reply) ≡ ok reply
unfolding expects_reply build_frame u16_at number_at slice le_bytes from_le
expects_reply-build_frame events reply =
    let n = length events % 2 ^ 16 in
    let t = (8 + length (concat events)) % 2 ^ 32 in
    reads_flag (t % 256) (t / 256 % 256) (t / 256 / 256 % 256) (t / 256 / 256 / 256 % 256) 2 0
      (if reply then bit_or (bit_and n 0x7fff) 0x8000 else bit_and n 0x7fff) (concat events)
    ∙ ap ok (count_flag n reply)
