-- ===== src/Compile/Reach.antt =====
-- What `validate_dag` of engine_rules/src/lib.rs shows of a pattern that it accepts.
use correlation_engine.Prelude.{
  ℕ, zero, suc, ◌≡◌, refl, Bool, false, some, List, [], ◌∷◌, bit_and, bit_or, ◌==◌, ==_iff,
  if◌then◌else◌, arith, Bool-cases, inl, inr,
}
use mathlib.Core.Path.{subst}
use correlation_engine.Prelude.Lists.{length, get_elem?}
use correlation_engine.Prelude.Bits.{and_eq_self→Subset}
use correlation_engine.Rules.{DagStep, DagPattern, bit_mask}
use correlation_engine.Dag.Order.{Reachable, start, commit}
use correlation_engine.Compile.{accepted, declared, opens, round, reach, validate_dag}

if_opens-Reachable :
    (steps : List DagStep) (s : DagStep) (k reached : ℕ)
    → get_elem? steps k ≡ some s
    → Reachable steps reached
    → Reachable steps (if opens reached s then bit_or reached (bit_mask s) else reached)
unfolding opens
if_opens-Reachable steps s k reached at h = elim (Bool-cases (opens reached s)) [
  | inl ready ↦ rw ready (
      commit k s at
        (and_eq_self→Subset s.prereq_mask reached
          ((==_iff (bit_and s.prereq_mask reached) s.prereq_mask).0 (ground arith)))
        h)
  | inr idle ↦ rw idle h
]

round-Reachable :
    (steps suffix : List DagStep) (reached : ℕ) (grew : Bool)
    → ((k : ℕ) (s : DagStep) → get_elem? suffix k ≡ some s → (j : ℕ) × (get_elem? steps j ≡ some s))
    → Reachable steps reached
    → Reachable steps (round suffix reached grew).0
unfolding round
round-Reachable steps [] reached grew within h = h
round-Reachable steps (s ∷ suffix) reached grew within h =
    let (j, at) = within 0 s refl in
    round-Reachable steps suffix _ _ (λ k s' e. within (suc k) s' e)
      (if_opens-Reachable steps s j reached at h)

pub reach-Reachable :
    (fuel : ℕ) (steps : List DagStep) (reached : ℕ)
    → Reachable steps reached
    → Reachable steps (reach fuel steps reached)
unfolding reach
reach-Reachable zero steps reached h = h
reach-Reachable (suc fuel) steps reached h =
    let next = round-Reachable steps steps reached false (λ k s e. (k, e)) h in
    elim (Bool-cases (round steps reached false).1) [
      | inl more ↦ rw more (reach-Reachable fuel steps (round steps reached false).0 next)
      | inr done ↦ rw done next
    ]

-- In a pattern that `validate_dag` accepts, the steps can all be committed, one after the other, each
-- after its prerequisites: the mask of all declared bits is one that the engine's order allows.
pub validate_dag-Reachable :
    (p : DagPattern) (line : ℕ)
    → validate_dag p line ≡ accepted
    → Reachable p.steps (declared p.steps 0)
unfolding validate_dag
validate_dag-Reachable p line run =
    elim (Bool-cases (reach (length p.steps) p.steps 0 == declared p.steps 0)) [
      | inl e ↦
          subst (Reachable p.steps) ((==_iff _ _).0 e)
            (reach-Reachable (length p.steps) p.steps 0 start)
      | inr ne ↦ absurd (refused run ne)
    ]
  where
    refused :
        validate_dag p line ≡ accepted
        → (reach (length p.steps) p.steps 0 == declared p.steps 0) ≡ false
        → ⊥
    refused e ne = ground arith
