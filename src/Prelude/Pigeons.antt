-- ===== src/Prelude/Pigeons.antt =====
-- A list of distinct numbers below a bound is no longer than the bound.
use Prim.Native.Nat.{ℕ, zero, suc, ◌≤◌, ◌<◌}
use mathlib.Core.Path.{◌≡◌, sym, ◌∙◌}
use mathlib.Core.Logic.{◌≢◌, inl, inr}
use mathlib.Core.List.{List, [], ◌∷◌}
use native.Mathlib.Omega.{arith}
use correlation_engine.Prelude.Tests.{◌==◌, ==_iff, if◌then◌else◌, Bool-cases}
use correlation_engine.Prelude.Lists.{length, All, Distinct}

module _ {ℓ} {A : Type ℓ} (key : A → ℕ) where
  -- the list without its first element of key `n`
  without : ℕ → List A → List A
  without n [] = []
  without n (x ∷ xs) = let rest = without n xs in if key x == n then xs else x ∷ rest

  length-without : (n : ℕ) (xs : List A) → length xs ≤ suc (length (without n xs))
  unfolding without
  length-without n [] = omega arith
  length-without n (x ∷ xs) = elim (Bool-cases (key x == n)) [
    | inl e ↦ rw e (omega arith)
    | inr ne ↦ rw ne (omega (arith, length-without n xs))
  ]

  All-without {κ} : (P : A → Type κ) (n : ℕ) (xs : List A) → All P xs → All P (without n xs)
  unfolding without
  All-without P n [] h = tt
  All-without P n (x ∷ xs) h = elim (Bool-cases (key x == n)) [
    | inl e ↦ rw e h.1
    | inr ne ↦ rw ne (h.0, All-without P n xs h.1)
  ]

  Distinct-without : (n : ℕ) (xs : List A) → Distinct key xs → Distinct key (without n xs)
  unfolding without
  Distinct-without n [] h = tt
  Distinct-without n (x ∷ xs) h = elim (Bool-cases (key x == n)) [
    | inl e ↦ rw e h.1
    | inr ne ↦ rw ne (All-without (λ y. key x ≢ key y) n xs h.0, Distinct-without n xs h.1)
  ]

  narrowed :
      (n k : ℕ) (xs : List A)
      → k ≡ n
      → All (λ y. k ≢ key y) xs
      → All (λ y. key y < suc n) xs
      → All (λ y. key y < n) xs
  narrowed n k [] e h b = tt
  narrowed n k (x ∷ xs) e h b = (
    elim (Bool-cases (key x == n)) [
      | inl same ↦ absurd (h.0 (e ∙ sym ((==_iff (key x) n).0 same)))
      | inr other ↦ ground arith
    ],
    narrowed n k xs e h.1 b.1,
  )

  without-lt :
      (n : ℕ) (xs : List A)
      → Distinct key xs
      → All (λ y. key y < suc n) xs
      → All (λ y. key y < n) (without n xs)
  unfolding without
  without-lt n [] d b = tt
  without-lt n (x ∷ xs) d b = elim (Bool-cases (key x == n)) [
    | inl e ↦ rw e (narrowed n (key x) xs ((==_iff (key x) n).0 e) d.0 b.1)
    | inr ne ↦ let small : key x < n = ground arith in rw ne (small, without-lt n xs d.1 b.1)
  ]

  pub length-le_bound :
      (n : ℕ) (xs : List A) → Distinct key xs → All (λ y. key y < n) xs → length xs ≤ n
  length-le_bound zero [] d b = omega arith
  length-le_bound zero (x ∷ xs) d b = absurd (omega arith)
  length-le_bound (suc n) xs d b = omega (
    arith,
    length-without n xs,
    length-le_bound n (without n xs) (Distinct-without n xs d) (without-lt n xs d b),
  )
