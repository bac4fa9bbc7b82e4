-- ===== src/Prelude/Bits.antt =====
-- The binary digits of a number, and the bitwise operations digit by digit.
use Prim.Native.Nat.{
  ℕ, zero, suc, ◌+◌, ◌*◌, ◌/◌, ◌%◌, ◌^◌, ◌≤◌, ◌<◌, min, max, bit_and, bit_or, digits, bitwise,
  bit_and-bitwise, bit_or-bitwise,
}
use mathlib.Core.Path.{◌≡◌, refl, sym, ◌∙◌, ap}
use mathlib.Core.Logic.{inl, inr}
use mathlib.Core.Bool.{Bool, true, false, not, ◌&&◌, ◌||◌}
use native.Mathlib.Nat.{pow-suc, mul_assoc}
use native.Mathlib.Omega.{arith}
use correlation_engine.Prelude.Tests.{◌==◌, ==_iff, Bool-cases}

-- the digit of weight 2 ^ i
unfoldable pub testb : ℕ → ℕ → Bool
testb zero a = a % 2 == 1
testb (suc i) a = testb i (a / 2)

module _ (skip : ℕ → ℕ) (f : ℕ → ℕ → ℕ) where
  -- fuel past the first number changes nothing
  digits_enough : (n a b : ℕ) → a ≤ n → (m : ℕ) → a ≤ m → digits skip f n a b ≡ digits skip f m a b
  digits_enough zero zero b p zero q = refl
  digits_enough zero zero b p (suc m) q = refl
  digits_enough zero (suc a) b p m q = elim p [ ]
  digits_enough (suc n) zero b p zero q = refl
  digits_enough (suc n) zero b p (suc m) q = refl
  digits_enough (suc n) (suc a) b p zero q = elim q [ ]
  digits_enough (suc n) (suc a) b p (suc m) q =
      rw (digits_enough n (suc a / 2) (b / 2) (omega arith) m (omega arith))

  bitwise_lowest :
      (a b : ℕ)
      → bitwise skip f (suc a) b ≡ bitwise skip f (suc a / 2) (b / 2) * 2 + f (suc a % 2) (b % 2)
  bitwise_lowest a b =
      omega (arith, digits_enough a (suc a / 2) (b / 2) (omega arith) (suc a / 2) (omega arith))

and_lowest : (a b : ℕ) → bit_and a b ≡ bit_and (a / 2) (b / 2) * 2 + min (a % 2) (b % 2)
and_lowest zero b = simp bit_and-bitwise (omega arith)
and_lowest (suc a) b = simp bit_and-bitwise (bitwise_lowest (λ y. 0) min a b)

or_lowest : (a b : ℕ) → bit_or a b ≡ bit_or (a / 2) (b / 2) * 2 + max (a % 2) (b % 2)
or_lowest zero b = simp bit_or-bitwise (omega arith)
or_lowest (suc a) b = simp bit_or-bitwise (bitwise_lowest (λ y. y) max a b)

pub testb-bit_and : (i a b : ℕ) → testb i (bit_and a b) ≡ (testb i a && testb i b)
unfolding testb
testb-bit_and zero a b = ground (arith, and_lowest a b)
testb-bit_and (suc i) a b =
    let half : bit_and a b / 2 ≡ bit_and (a / 2) (b / 2) = omega (arith, and_lowest a b) in
    ap (testb i) half ∙ testb-bit_and i (a / 2) (b / 2)

pub testb-bit_or : (i a b : ℕ) → testb i (bit_or a b) ≡ (testb i a || testb i b)
unfolding testb
testb-bit_or zero a b = ground (arith, or_lowest a b)
testb-bit_or (suc i) a b =
    let half : bit_or a b / 2 ≡ bit_or (a / 2) (b / 2) = omega (arith, or_lowest a b) in
    ap (testb i) half ∙ testb-bit_or i (a / 2) (b / 2)

pub testb-zero : (i : ℕ) → testb i 0 ≡ false
unfolding testb
testb-zero zero = refl
testb-zero (suc i) = testb-zero i

testb-one_shifted : (j : ℕ) → 2 ^ suc j / 2 ≡ 2 ^ j
testb-one_shifted j = omega (arith, pow-suc 2 j)

pub testb-two_pow : (i j : ℕ) → testb i (2 ^ j) ≡ (i == j)
unfolding testb
testb-two_pow zero zero = refl
testb-two_pow zero (suc j) = ground (arith, pow-suc 2 j)
testb-two_pow (suc i) zero = testb-zero i ∙ ground arith
testb-two_pow (suc i) (suc j) =
    ap (testb i) (testb-one_shifted j) ∙ testb-two_pow i j ∙ ground arith

-- Numbers with the same digits are equal.
testb-ext_fuel : (n a b : ℕ) → a ≤ n → b ≤ n → ((i : ℕ) → testb i a ≡ testb i b) → a ≡ b
unfolding testb
testb-ext_fuel zero a b p q h = omega arith
testb-ext_fuel (suc n) a b p q h =
    ground
      (arith, h 0, testb-ext_fuel n (a / 2) (b / 2) (omega arith) (omega arith) (λ i. h (suc i)))

pub testb-ext : (a b : ℕ) → ((i : ℕ) → testb i a ≡ testb i b) → a ≡ b
testb-ext a b h = testb-ext_fuel (a + b) a b (omega arith) (omega arith) h

-- The test `a & (1 << j) != 0` of the program.
pub and-two_pow_eq_zero : (a j : ℕ) → (bit_and a (2 ^ j) == 0) ≡ not (testb j a)
and-two_pow_eq_zero a j = elim (Bool-cases (bit_and a (2 ^ j) == 0)) [
  | inl e ↦ ground (
    arith,
    testb-zero j,
    ap (testb j) ((==_iff (bit_and a (2 ^ j)) 0).0 e),
    testb-bit_and j a (2 ^ j),
    testb-two_pow j j,
  )
  | inr e ↦ elim (Bool-cases (testb j a)) [
    | inl t ↦ rw (e, t)
    | inr t ↦ absurd (ground (arith, testb-ext (bit_and a (2 ^ j)) 0 (clear t)))
  ]
]
  where
    clear : testb j a ≡ false → (i : ℕ) → testb i (bit_and a (2 ^ j)) ≡ testb i 0
    clear t i = elim (Bool-cases (i == j)) [
      | inl e ↦ ground (
        arith,
        testb-bit_and i a (2 ^ j),
        testb-zero i,
        ap (λ (k : ℕ). testb k a) ((==_iff i j).0 e),
      )
      | inr e ↦ ground (arith, testb-bit_and i a (2 ^ j), testb-two_pow i j, testb-zero i)
    ]

-- Every digit of `p` is a digit of `d`.
abbrev pub Subset : ℕ → ℕ → Type 0
Subset p d = (i : ℕ) → testb i p ≡ true → testb i d ≡ true

-- The test `p & d == p` of the program.
pub and_eq_self→Subset : (p d : ℕ) → bit_and p d ≡ p → Subset p d
and_eq_self→Subset p d e i h = ground (arith, ap (testb i) e, testb-bit_and i p d)

pub Subset→and_eq_self : (p d : ℕ) → Subset p d → bit_and p d ≡ p
Subset→and_eq_self p d s = testb-ext (bit_and p d) p λ i. elim (Bool-cases (testb i p)) [
  | inl t ↦ ground (arith, testb-bit_and i p d, s i t)
  | inr t ↦ ground (arith, testb-bit_and i p d)
]

pub Subset-refl : (a : ℕ) → Subset a a
Subset-refl a i h = h

pub Subset-trans : (a b c : ℕ) → Subset a b → Subset b c → Subset a c
Subset-trans a b c p q i h = q i (p i h)

pub Subset-bit_or_left : (a b : ℕ) → Subset a (bit_or a b)
Subset-bit_or_left a b i h = ground (arith, testb-bit_or i a b)

pub Subset-bit_or_right : (a b : ℕ) → Subset b (bit_or a b)
Subset-bit_or_right a b i h = elim (Bool-cases (testb i a)) [
  | inl t ↦ ground (arith, testb-bit_or i a b)
  | inr t ↦ ground (arith, testb-bit_or i a b)
]

below : (n a b : ℕ) → a ≤ n → bit_and a b ≤ b
below n zero b h = simp bit_and-bitwise (omega arith)
below zero (suc a) b h = absurd (omega arith)
below (suc n) (suc a) b h =
    omega (arith, and_lowest (suc a) b, below n (suc a / 2) (b / 2) (omega arith))

-- A mask bounds what it masks.
pub bit_and_le_right : (a b : ℕ) → bit_and a b ≤ b
bit_and_le_right a b = below a a b (omega arith)

even_half : (a b : ℕ) → a % 2 ≡ 0 → bit_and a b ≡ bit_and (a / 2) (b / 2) * 2
even_half a b h = omega (arith, and_lowest a b)

-- Masking keeps a number a multiple of 8.
pub bit_and_mod_eight : (a b : ℕ) → a % 8 ≡ 0 → bit_and a b % 8 ≡ 0
bit_and_mod_eight a b h = omega (
  arith,
  even_half a b (omega arith),
  even_half (a / 2) (b / 2) (omega arith),
  even_half (a / 2 / 2) (b / 2 / 2) (omega arith),
)

pub two_pow_pos : (k : ℕ) → 0 < 2 ^ k
two_pow_pos zero = omega arith
two_pow_pos (suc k) = omega (arith, pow-suc 2 k, two_pow_pos k)

pub two_pow_lt : (i k : ℕ) → i < k → 2 ^ i < 2 ^ k
two_pow_lt i zero h = elim h [ ]
two_pow_lt zero (suc k) h = omega (arith, pow-suc 2 k, two_pow_pos k)
two_pow_lt (suc i) (suc k) h = omega (arith, pow-suc 2 k, pow-suc 2 i, two_pow_lt i k (omega arith))

-- A union of two sets of digits below `k` has its digits below `k`.
pub bit_or_lt : (k a b : ℕ) → a < 2 ^ k → b < 2 ^ k → bit_or a b < 2 ^ k
bit_or_lt zero a b p q =
    let a_is : a ≡ 0 = omega arith in
    let b_is : b ≡ 0 = omega arith in rw (a_is, b_is) (omega arith)
bit_or_lt (suc k) a b p q = omega (
  arith,
  pow-suc 2 k,
  or_lowest a b,
  bit_or_lt k (a / 2) (b / 2) (omega (arith, pow-suc 2 k)) (omega (arith, pow-suc 2 k)),
)

or_pos : (n a b : ℕ) → 0 < b → b ≤ n → 0 < bit_or a b
or_pos zero a b p q = absurd (omega arith)
or_pos (suc n) a b p q = elim (Bool-cases (b / 2 == 0)) [
  | inl e ↦ ground (arith, or_lowest a b)
  | inr ne ↦ ground (arith, or_lowest a b, or_pos n (a / 2) (b / 2))
]

pub bit_or_pos : (a b : ℕ) → 0 < b → 0 < bit_or a b
bit_or_pos a b h = or_pos b a b h (omega arith)

or_zero : (a : ℕ) → bit_or a 0 ≡ a
or_zero a = testb-ext (bit_or a 0) a λ i. ground (arith, testb-bit_or i a 0, testb-zero i)

-- The union of a number's high part and its low part is their sum.
pub bit_or_add : (k a b : ℕ) → b < 2 ^ k → bit_or (a * 2 ^ k) b ≡ a * 2 ^ k + b
bit_or_add zero a b h =
    let b_is : b ≡ 0 = omega arith in rw b_is (omega (arith, or_zero (a * 2 ^ 0)))
bit_or_add (suc k) a b h =
    let twice : a * 2 ^ suc k ≡ (a * 2 ^ k) * 2 =
      ap (λ (x : ℕ). a * x) (pow-suc 2 k) ∙ sym (mul_assoc a (2 ^ k) 2) in
    let rest = bit_or_add k a (b / 2) (omega (arith, pow-suc 2 k)) in
    let half : (a * 2 ^ k) * 2 / 2 ≡ a * 2 ^ k = omega arith in
    rw twice (or_lowest ((a * 2 ^ k) * 2) b ∙ (rw half (rw rest (omega arith))))
