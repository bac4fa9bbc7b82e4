-- ===== src/Compile/Fuel.antt =====
-- The fixpoint loop of `validate_dag` in engine_rules/src/lib.rs ends within its fuel, and at its end no
-- step is left that could be reached.
use correlation_engine.Prelude.{
  ℕ, zero, suc, ◌+◌, ◌%◌, ◌^◌, ◌≤◌, ◌<◌, ◌≡◌, ◌⊎◌, refl, sym, ◌∙◌, ap, Bool, true, false, some,
  List, [], ◌∷◌, bit_and, bit_or, ◌==◌, if◌then◌else◌, arith, Bool-cases, some_inj, inl, inr,
}
use mathlib.Core.Path.{subst}
use correlation_engine.Prelude.Lists.{length, get_elem?}
use correlation_engine.Prelude.Bits.{testb-bit_or, testb-two_pow, and-two_pow_eq_zero}
use correlation_engine.Rules.{DagStep, bit_mask}
use correlation_engine.Compile.{opens, round, reach}

-- the steps whose bit is not in the mask
missing : List DagStep → ℕ → ℕ
missing [] r = 0
missing (s ∷ ss) r = (if bit_and r (bit_mask s) == 0 then 1 else 0) + missing ss r

absent_or :
    (r b : ℕ) (s : DagStep)
    → (bit_and (bit_or r b) (bit_mask s) == 0) ≡ true
    → (bit_and r (bit_mask s) == 0) ≡ true
unfolding bit_mask
absent_or r b s h = ground (
  arith,
  and-two_pow_eq_zero (bit_or r b) (s.bit % 64),
  and-two_pow_eq_zero r (s.bit % 64),
  testb-bit_or (s.bit % 64) r b,
)

present : (r : ℕ) (s : DagStep) → (bit_and (bit_or r (bit_mask s)) (bit_mask s) == 0) ≡ false
unfolding bit_mask
present r s = ground (
  arith,
  and-two_pow_eq_zero (bit_or r (2 ^ (s.bit % 64))) (s.bit % 64),
  testb-bit_or (s.bit % 64) r (2 ^ (s.bit % 64)),
  testb-two_pow (s.bit % 64) (s.bit % 64),
)

missing-or : (steps : List DagStep) (r b : ℕ) → missing steps (bit_or r b) ≤ missing steps r
unfolding missing
missing-or [] r b = omega arith
missing-or (s ∷ ss) r b = ground (arith, missing-or ss r b, absent_or r b s)

-- Setting the bit of a step that was missing leaves fewer.
missing-set :
    (steps : List DagStep) (k r : ℕ) (s : DagStep)
    → get_elem? steps k ≡ some s
    → (bit_and r (bit_mask s) == 0) ≡ true
    → missing steps (bit_or r (bit_mask s)) < missing steps r
unfolding missing
missing-set [] k r s at h = cc
missing-set (x ∷ ss) zero r s at h =
    let same : x ≡ s = some_inj at in
    let now : (bit_and (bit_or r (bit_mask s)) (bit_mask x) == 0) ≡ false =
      ap (λ (y : DagStep). bit_and (bit_or r (bit_mask s)) (bit_mask y) == 0) same ∙ present r s in
    let before : (bit_and r (bit_mask x) == 0) ≡ true =
      ap (λ (y : DagStep). bit_and r (bit_mask y) == 0) same ∙ h in
    ground (arith, missing-or ss r (bit_mask s))
missing-set (x ∷ ss) (suc k) r s at h =
    ground (arith, missing-set ss k r s at h, absent_or r (bit_mask s) x)

abbrev Within : List DagStep → List DagStep → Type 0
Within suffix steps =
    (k : ℕ) (s : DagStep) → get_elem? suffix k ≡ some s → (j : ℕ) × (get_elem? steps j ≡ some s)

-- A round that reports growth has set a missing bit.
round-missing :
    (steps suffix : List DagStep) (r : ℕ) (grew : Bool)
    → Within suffix steps
    → (missing steps (round suffix r grew).0 ≤ missing steps r)
      × ((round suffix r grew).1 ≡ true
          → (grew ≡ true) ⊎ (missing steps (round suffix r grew).0 < missing steps r))
unfolding round
round-missing steps [] r grew within = (omega arith, λ e. inl e)
round-missing steps (s ∷ suffix) r grew within = elim (Bool-cases (opens r s)) [
  | inl ready ↦
      let (j, at) = within 0 s refl in
      let less = missing-set steps j r s at (unfold opens in ground arith) in
      let (le, _) =
        round-missing steps suffix (bit_or r (bit_mask s)) true (λ k s' e. within (suc k) s' e) in
      rw (ready, round) (omega arith, λ e. inr (omega arith))
  | inr idle ↦ rw (idle, round) (round-missing steps suffix r grew (λ k s' e. within (suc k) s' e))
]

abbrev pub IsClosed : List DagStep → ℕ → Type 0
IsClosed steps r = (k : ℕ) (s : DagStep) → get_elem? steps k ≡ some s → opens r s ≡ false

grown_stays : (suffix : List DagStep) (r : ℕ) → (round suffix r true).1 ≡ true
unfolding round
grown_stays [] r = refl
grown_stays (s ∷ suffix) r = elim (Bool-cases (opens r s)) [
  | inl ready ↦ rw (ready, round) (grown_stays suffix (bit_or r (bit_mask s)))
  | inr idle ↦ rw (idle, round) (grown_stays suffix r)
]

-- A round that reports no growth has changed nothing, and no step is left to reach.
round_idle :
    (suffix : List DagStep) (r : ℕ)
    → (round suffix r false).1 ≡ false
    → ((round suffix r false).0 ≡ r) × IsClosed suffix r
unfolding round
round_idle [] r h = (refl, λ k s e. cc)
round_idle (x ∷ suffix) r h = elim (Bool-cases (opens r x)) [
  | inl ready ↦ absurd (cc (rw (ready, round) at h, grown_stays suffix (bit_or r (bit_mask x))))
  | inr idle ↦
      let (same, closed) = round_idle suffix r (rw (idle, round) at h) in
      (rw (idle, round) same, closed_cons x suffix r idle closed)
]
  where
    closed_cons :
        (x : DagStep) (suffix : List DagStep) (r : ℕ)
        → opens r x ≡ false
        → IsClosed suffix r
        → IsClosed (x ∷ suffix) r
    closed_cons x suffix r idle closed zero s e = ap (opens r) (some_inj (sym e)) ∙ idle
    closed_cons x suffix r idle closed (suc k) s e = closed k s e

none_missing : (steps : List DagStep) (r : ℕ) → missing steps r ≡ 0 → IsClosed steps r
unfolding missing opens
none_missing [] r h k s e = cc
none_missing (x ∷ ss) r h zero s e =
    let here : (bit_and r (bit_mask x) == 0) ≡ false = ground arith in
    ap (opens r) (some_inj (sym e)) ∙ rw here refl
none_missing (x ∷ ss) r h (suc k) s e = none_missing ss r (ground arith) k s e

reach-IsClosed :
    (fuel : ℕ) (steps : List DagStep) (r : ℕ)
    → missing steps r ≤ fuel
    → IsClosed steps (reach fuel steps r)
unfolding reach
reach-IsClosed zero steps r h = none_missing steps r (omega arith)
reach-IsClosed (suc fuel) steps r h = elim (Bool-cases (round steps r false).1) [
  | inl more ↦ rw more (reach-IsClosed fuel steps (round steps r false).0 (smaller more))
  | inr done ↦
      let (same, closed) = round_idle steps r done in
      rw done (subst (IsClosed steps) (sym same) closed)
]
  where
    smaller : (round steps r false).1 ≡ true → missing steps (round steps r false).0 ≤ fuel
    smaller more =
        let (le, strict) = round-missing steps steps r false (λ k s e. (k, e)) in
        elim (strict more) [ inl e ↦ cc | inr lt ↦ omega arith ]

missing_le : (steps : List DagStep) (r : ℕ) → missing steps r ≤ length steps
unfolding missing
missing_le [] r = omega arith
missing_le (s ∷ ss) r = ground (arith, missing_le ss r)

-- With as many rounds as the pattern has steps the loop comes to its end: no step of the pattern could
-- still be reached from the mask that it returns.
pub reach_complete : (steps : List DagStep) → IsClosed steps (reach (length steps) steps 0)
reach_complete steps = reach-IsClosed (length steps) steps 0 (missing_le steps 0)
