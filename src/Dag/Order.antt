-- ===== src/Dag/Order.antt =====
-- The partial order of a DAG pattern as an inductive relation, and that the engine's bit masks follow
-- it: a step commits only after all its prerequisites.
use correlation_engine.Prelude.{
  ℕ, suc, ◌%◌, ◌≡◌, refl, ap, Bool, true, false, some, List, [], ◌∷◌, bit_and, bit_or, ◌==◌, ==_iff,
  if◌then◌else◌, arith, Bool-cases, inl, inr,
}
use correlation_engine.Prelude.Lists.{get_elem?, All}
use correlation_engine.Prelude.Bits.{
  testb, Subset, Subset-trans, Subset-bit_or_left, and_eq_self→Subset, testb-bit_or, testb-two_pow,
  testb-zero,
}
use correlation_engine.Rules.{DagStep, bit_mask}
use correlation_engine.Detector.{Reaction, react}
use correlation_engine.Dag.{Automaton, Tagged, is_ready, commit_steps, advance_automata}

-- A mask that the steps can build up one at a time, each after its prerequisites.
pub data Reachable (steps : List DagStep) : ℕ → Type 0 where
  start : Reachable steps 0
  commit :
      {d : ℕ} (k : ℕ) (step : DagStep)
      → get_elem? steps k ≡ some step
      → Subset step.prereq_mask d
      → Reachable steps d
      → Reachable steps (bit_or d (bit_mask step))

pub is_ready→Subset :
    (t : Tagged) (done : ℕ) (step : DagStep)
    → is_ready t done step ≡ true
    → Subset step.prereq_mask done
unfolding is_ready
is_ready→Subset t done step h =
    and_eq_self→Subset step.prereq_mask done
      ((==_iff (bit_and step.prereq_mask done) step.prereq_mask).0 (ground arith))

pub commit_steps_ready :
    (t : Tagged) (step : DagStep) (steps : List DagStep) (done : ℕ) (r : Reaction)
    → is_ready t done step ≡ true
    → commit_steps t (step ∷ steps) done r
      ≡ commit_steps t steps (bit_or done (bit_mask step)) (react step.action t.event.actor r)
unfolding commit_steps
commit_steps_ready t step steps done r e =
    ap
      (λ (b : Bool).
        commit_steps t steps (if b then bit_or done (bit_mask step) else done)
          (if b then react step.action t.event.actor r else r))
      e

pub commit_steps_idle :
    (t : Tagged) (step : DagStep) (steps : List DagStep) (done : ℕ) (r : Reaction)
    → is_ready t done step ≡ false
    → commit_steps t (step ∷ steps) done r ≡ commit_steps t steps done r
unfolding commit_steps
commit_steps_idle t step steps done r e =
    ap
      (λ (b : Bool).
        commit_steps t steps (if b then bit_or done (bit_mask step) else done)
          (if b then react step.action t.event.actor r else r))
      e

-- `suffix` holds steps of `steps`
abbrev Within : List DagStep → List DagStep → Type 0
Within suffix steps =
    (k : ℕ) (step : DagStep)
    → get_elem? suffix k ≡ some step
    → (j : ℕ) × (get_elem? steps j ≡ some step)

commit_steps-Within :
    (t : Tagged) (steps suffix : List DagStep) (done : ℕ) (r : Reaction)
    → Within suffix steps
    → Reachable steps done
    → Reachable steps (commit_steps t suffix done r).0
unfolding commit_steps
commit_steps-Within t steps [] done r w h = h
commit_steps-Within t steps (step ∷ suffix) done r w h = elim (Bool-cases (is_ready t done step)) [
  | inl ready ↦
      let (j, at) = w 0 step refl in
      rw (commit_steps_ready t step suffix done r ready) (
        commit_steps-Within t steps suffix (bit_or done (bit_mask step))
          (react step.action t.event.actor r) (λ k s e. w (suc k) s e)
          (commit j step at (is_ready→Subset t done step ready) h))
  | inr idle ↦
      rw (commit_steps_idle t step suffix done r idle)
        (commit_steps-Within t steps suffix done r (λ k s e. w (suc k) s e) h)
]

-- One event takes a reachable mask to a reachable mask.
pub commit_steps-Reachable :
    (t : Tagged) (steps : List DagStep) (done : ℕ) (r : Reaction)
    → Reachable steps done
    → Reachable steps (commit_steps t steps done r).0
commit_steps-Reachable t steps done r h =
    commit_steps-Within t steps steps done r (λ k s e. (k, e)) h

pub advance_automata-Reachable :
    (t : Tagged) (steps : List DagStep) (as' : List Automaton) (r : Reaction)
    → All (λ (a : Automaton). Reachable steps a.done_mask) as'
    → All (λ (a : Automaton). Reachable steps a.done_mask) (advance_automata t steps as' r).0
unfolding advance_automata
advance_automata-Reachable t steps [] r h = tt
advance_automata-Reachable t steps (a ∷ as') r h = (
  commit_steps-Reachable t steps a.done_mask r h.0,
  advance_automata-Reachable t steps as' (commit_steps t steps a.done_mask r).1 h.1,
)

-- Every bit of a reachable mask was set by a step whose prerequisites are in the mask.
pub Reachable-justified :
    (steps : List DagStep) {d : ℕ}
    → Reachable steps d
    → (i : ℕ) → testb i d ≡ true
    → (k : ℕ) × (step : DagStep) × (get_elem? steps k ≡ some step)
      × (step.bit % 64 ≡ i)
      × Subset step.prereq_mask d
unfolding bit_mask
Reachable-justified steps start i h = cc (testb-zero i)
Reachable-justified steps (commit {d} k step at pre r) i h =
    elim (Bool-cases (i == step.bit % 64)) [
      | inl e ↦ (
        k,
        step,
        at,
        ground arith,
        Subset-trans step.prereq_mask d (bit_or d (bit_mask step)) pre
            (Subset-bit_or_left d (bit_mask step)),
      )
      | inr ne ↦
          let (k', s', at', bit', pre') =
            Reachable-justified steps r i
              (ground (arith, testb-bit_or i d (bit_mask step), testb-two_pow i (step.bit % 64))) in
          (
            k',
            s',
            at',
            bit',
            Subset-trans s'.prereq_mask d (bit_or d (bit_mask step)) pre'
                (Subset-bit_or_left d (bit_mask step)),
          )
    ]
