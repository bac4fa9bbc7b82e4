-- ===== src/Compile/Exact.antt =====
-- `validate_dag` of engine_rules/src/lib.rs accepts exactly the patterns that it means to.
use correlation_engine.Prelude.{
  ℕ, zero, suc, ◌%◌, ◌≡◌, ◌↔◌, refl, sym, ◌∙◌, ap, true, false, some, List, [], ◌∷◌, bit_and,
  bit_or, ◌==◌, ==_iff, arith, Bool-cases, some_inj, inl, inr,
}
use correlation_engine.Prelude.Lists.{length, get_elem?}
use correlation_engine.Prelude.Bits.{
  testb, testb-bit_or, testb-two_pow, testb-zero, testb-ext, and-two_pow_eq_zero, Subset,
  Subset→and_eq_self,
}
use correlation_engine.Rules.{DagStep, DagPattern, bit_mask}
use correlation_engine.Dag.Order.{Reachable, start, commit}
use correlation_engine.Compile.{
  accepted, declared, any_root, any_undeclared, opens, reach, is_no_steps, validate_dag,
}
use correlation_engine.Compile.Reach.{reach-Reachable, validate_dag-Reachable}
use correlation_engine.Compile.Fuel.{IsClosed, reach_complete}

-- A mask that the order allows lies in every mask from which no step is left to reach.
Reachable→Subset :
    (steps : List DagStep) (r : ℕ) {d : ℕ}
    → IsClosed steps r
    → Reachable steps d
    → (i : ℕ) → testb i d ≡ true
    → testb i r ≡ true
unfolding bit_mask opens
Reachable→Subset steps r closed start i h = cc (testb-zero i)
Reachable→Subset steps r closed (commit {d} k s at pre before) i h =
    elim (Bool-cases (i == s.bit % 64)) [
      | inr ne ↦
          Reachable→Subset steps r closed before i
            (ground (arith, testb-bit_or i d (bit_mask s), testb-two_pow i (s.bit % 64)))
      | inl e ↦
          let i_is : i ≡ s.bit % 64 = (==_iff i (s.bit % 64)).0 e in
          let shut : opens r s ≡ false = closed k s at in
          let ready : bit_and s.prereq_mask r ≡ s.prereq_mask =
            Subset→and_eq_self s.prereq_mask r
              (λ j hj. Reachable→Subset steps r closed before j (pre j hj)) in
          let there : testb (s.bit % 64) r ≡ true = ground (
            arith,
            and-two_pow_eq_zero r (s.bit % 64),
            (==_iff (bit_and s.prereq_mask r) s.prereq_mask).1 ready,
          ) in
          ap (λ (j : ℕ). testb j r) i_is ∙ there
    ]

declared_keeps :
    (steps : List DagStep) (m i : ℕ) → testb i m ≡ true → testb i (declared steps m) ≡ true
unfolding declared
declared_keeps [] m i h = h
declared_keeps (s ∷ ss) m i h =
    declared_keeps ss (bit_or m (bit_mask s)) i (ground (arith, testb-bit_or i m (bit_mask s)))

declared_has :
    (steps : List DagStep) (m k i : ℕ) (s : DagStep)
    → get_elem? steps k ≡ some s
    → testb i (bit_mask s) ≡ true
    → testb i (declared steps m) ≡ true
unfolding declared
declared_has [] m k i s at h = cc
declared_has (x ∷ ss) m zero i s at h =
    let here : testb i (bit_mask x) ≡ true =
      ap (λ (y : DagStep). testb i (bit_mask y)) (some_inj at) ∙ h in
    declared_keeps ss (bit_or m (bit_mask x)) i (ground (arith, testb-bit_or i m (bit_mask x)))
declared_has (x ∷ ss) m (suc k) i s at h = declared_has ss (bit_or m (bit_mask x)) k i s at h

Reachable→declared :
    (steps : List DagStep) {d : ℕ}
    → Reachable steps d
    → (i : ℕ) → testb i d ≡ true
    → testb i (declared steps 0) ≡ true
Reachable→declared steps start i h = cc (testb-zero i)
Reachable→declared steps (commit {d} k s at pre before) i h = elim (Bool-cases (testb i d)) [
  | inl old ↦ Reachable→declared steps before i old
  | inr new ↦ declared_has steps 0 k i s at (ground (arith, testb-bit_or i d (bit_mask s)))
]

same_digits : (a b : ℕ) → Subset a b → Subset b a → a ≡ b
same_digits a b ab ba =
    testb-ext a b
      λ i. elim (Bool-cases (testb i a)) [ inl t ↦ t ∙ sym (ab i t) | inr t ↦ ground (arith, ba i) ]

reach-declared :
    (steps : List DagStep)
    → Reachable steps (declared steps 0)
    → reach (length steps) steps 0 ≡ declared steps 0
reach-declared steps h =
    same_digits (reach (length steps) steps 0) (declared steps 0)
      (λ i t. Reachable→declared steps (reach-Reachable (length steps) steps 0 start) i t)
      (λ i t. Reachable→Subset steps (reach (length steps) steps 0) (reach_complete steps) h i t)

-- `validate_dag` accepts a pattern exactly when it has a step, a root, no prerequisite that is not
-- declared, and an order in which all its steps can be committed, each after its prerequisites.
pub validate_dag_iff :
    (p : DagPattern) (line : ℕ)
    → (validate_dag p line ≡ accepted) ↔ (
        (is_no_steps p.steps ≡ false)
        × (any_root p.steps ≡ true)
        × (any_undeclared (declared p.steps 0) p.steps ≡ false)
        × Reachable p.steps (declared p.steps 0))
unfolding validate_dag
validate_dag_iff p line = (
  λ run. (ground arith, ground arith, ground arith, validate_dag-Reachable p line run),
  λ (steps, root, known, order). rw steps (
      rw root (
        rw known (
          rw
            ((==_iff (reach (length p.steps) p.steps 0) (declared p.steps 0)).1
              (reach-declared p.steps order))
            refl))),
)
