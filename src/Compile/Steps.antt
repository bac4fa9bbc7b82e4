-- ===== src/Compile/Steps.antt =====
-- The ranges of what the step parsers of engine_rules/src/lib.rs return.
use correlation_engine.Prelude.{
  ℕ, ◌^◌, ◌<◌, ◌≡◌, Option, some, List, [], ◌∷◌, bit_or, leb, ◌==◌, arith, Option-cases, some_inj,
  inl, inr,
}
use correlation_engine.Prelude.Lists.{All}
use correlation_engine.Prelude.Bits.{two_pow_lt, bit_or_lt}
use correlation_engine.Prelude.Texts.{codes, equal, split, split_whitespace, split_once, parse_uint}
use correlation_engine.Event.{Ttp}
use correlation_engine.Event.OpSet
use correlation_engine.Event.OpSet.{OpSet}
use correlation_engine.Rules.{Action, Step, DagStep}
use correlation_engine.Compile.{
  Fault, strange_op, strange_action, strange_disarm_op, bad_bit, bit_range, bad_prereq,
  prereq_range, not_key_value, no_bit, Result,
}
use correlation_engine.Compile.Ranges.{Gives-or_err, insert_ops-lt, push_ttps-lt}
use correlation_engine.Compile.Outcomes.{Gives, Gives-bind, Gives-if, Gives-any}
use correlation_engine.Compile.Tokens.{
  or_err, insert_ops, push_ttps, trimmed, parse_disarm, inner_of, parse_action, Fields, no_fields,
  below_64, set_bit, add_prereqs, set_action, set_ops, set_ttps, set_prereqs, set_common, set_dag,
  read_tokens, parse_step, parse_dag_step,
}

-- an action that a rule text can name: a disarm names an operation
abbrev pub IsNamed : Option Action → Type 0
IsNamed (some (Action.disarm ops)) = (0 < ops) × (ops < 2 ^ 8)
IsNamed _ = Unit {0}

abbrev IsNamedAction : Action → Type 0
IsNamedAction a = IsNamed (some a)

parse_disarm-IsNamed : (line : ℕ) (inner : List ℕ) → Gives IsNamedAction (parse_disarm line inner)
unfolding parse_disarm OpSet.is_empty
parse_disarm-IsNamed line inner =
    Gives-bind (λ (s : OpSet). s < 2 ^ 8) IsNamedAction
      (insert_ops line strange_disarm_op (trimmed (split b',' inner)) OpSet.empty) _
      (insert_ops-lt line strange_disarm_op (trimmed (split b',' inner)) OpSet.empty (omega arith))
      (λ ops small.
        Gives-if IsNamedAction (ops == 0) _ _ (λ _. tt) (λ some_op. (ground arith, small)))

parse_action-IsNamed : (v : List ℕ) (line : ℕ) → Gives IsNamedAction (parse_action v line)
unfolding parse_action
parse_action-IsNamed v line =
    Gives-if IsNamedAction (equal v (codes "block")) _ _ (λ _. tt)
      λ _.
        Gives-bind (λ (i : List ℕ). Unit {0}) IsNamedAction
          (or_err line strange_action (inner_of v)) _
          (Gives-any (or_err line strange_action (inner_of v)))
          (λ inner u. parse_disarm-IsNamed line inner)

-- what holds of the variables of `parse_dag_step` between two tokens
record InRange (f : Fields) : Type 0 where
  pub ops_small : f.ops < 2 ^ 8
  pub ttps_small : All (λ (t : Ttp). t < 2 ^ 32) f.ttps
  pub action_named : IsNamed f.action
  pub prereq_small : f.prereq_mask < 2 ^ 64
  pub bit_small : (b : ℕ) → f.bit ≡ some b → b < 64

below_64-lt : (line : ℕ) (why : Fault) (n : ℕ) → Gives (λ (b : ℕ). b < 64) (below_64 line why n)
below_64-lt line why n =
    Gives-if (λ (b : ℕ). b < 64) (leb 64 n) _ _ (λ _. tt) (λ small. ground arith)

set_bit-InRange :
    (line : ℕ) (v : List ℕ) (f : Fields) → InRange f → Gives InRange (set_bit line v f)
unfolding set_bit
set_bit-InRange line v f h =
    Gives-bind (λ (n : ℕ). Unit {0}) InRange (or_err line bad_bit (parse_uint 255 v)) _
      (Gives-any (or_err line bad_bit (parse_uint 255 v)))
      λ n u.
        Gives-bind (λ (b : ℕ). b < 64) InRange (below_64 line bit_range n) _
          (below_64-lt line bit_range n)
          λ bit small. record {
            ops_small = h.ops_small;
            ttps_small = h.ttps_small;
            action_named = h.action_named;
            prereq_small = h.prereq_small;
            bit_small = λ b e. omega (arith, some_inj e);
          }

add_prereqs-lt :
    (line : ℕ) (ps : List (List ℕ)) (mask : ℕ)
    → mask < 2 ^ 64
    → Gives (λ (m : ℕ). m < 2 ^ 64) (add_prereqs line ps mask)
unfolding add_prereqs
add_prereqs-lt line [] mask h = h
add_prereqs-lt line (p ∷ ps) mask h =
    Gives-bind (λ (n : ℕ). Unit {0}) (λ (m : ℕ). m < 2 ^ 64)
      (or_err line bad_prereq (parse_uint 255 p)) _
      (Gives-any (or_err line bad_prereq (parse_uint 255 p)))
      λ n u.
        Gives-bind (λ (b : ℕ). b < 64) (λ (m : ℕ). m < 2 ^ 64) (below_64 line prereq_range n) _
          (below_64-lt line prereq_range n)
          λ bit small.
            add_prereqs-lt line ps (bit_or mask (2 ^ bit))
              (bit_or_lt 64 mask (2 ^ bit) h (two_pow_lt bit 64 small))

set_prereqs-InRange :
    (line : ℕ) (v : List ℕ) (f : Fields) → InRange f → Gives InRange (set_prereqs line v f)
set_prereqs-InRange line v f h =
    Gives-bind (λ (m : ℕ). m < 2 ^ 64) InRange (add_prereqs line (split b',' v) f.prereq_mask) _
      (add_prereqs-lt line (split b',' v) f.prereq_mask h.prereq_small)
      λ mask small. record {
        ops_small = h.ops_small;
        ttps_small = h.ttps_small;
        action_named = h.action_named;
        prereq_small = small;
        bit_small = h.bit_small;
      }

set_ops-InRange :
    (line : ℕ) (v : List ℕ) (f : Fields) → InRange f → Gives InRange (set_ops line v f)
set_ops-InRange line v f h =
    Gives-bind (λ (s : OpSet). s < 2 ^ 8) InRange (insert_ops line strange_op (split b'|' v) f.ops)
      _ (insert_ops-lt line strange_op (split b'|' v) f.ops h.ops_small)
      λ ops small. record {
        ops_small = small;
        ttps_small = h.ttps_small;
        action_named = h.action_named;
        prereq_small = h.prereq_small;
        bit_small = h.bit_small;
      }

set_ttps-InRange :
    (line : ℕ) (v : List ℕ) (f : Fields) → InRange f → Gives InRange (set_ttps line v f)
set_ttps-InRange line v f h =
    Gives-bind (All (λ (t : Ttp). t < 2 ^ 32)) InRange (push_ttps line (split b',' v) f.ttps) _
      (push_ttps-lt line (split b',' v) f.ttps h.ttps_small)
      λ ttps small. record {
        ops_small = h.ops_small;
        ttps_small = small;
        action_named = h.action_named;
        prereq_small = h.prereq_small;
        bit_small = h.bit_small;
      }

set_action-InRange :
    (line : ℕ) (v : List ℕ) (f : Fields) → InRange f → Gives InRange (set_action line v f)
unfolding set_action
set_action-InRange line v f h = elim (Option-cases f.action) [
  | inr (a, e) ↦ rw e tt
  | inl e ↦ rw e (
      Gives-bind IsNamedAction InRange (parse_action v line) _ (parse_action-IsNamed v line)
        λ a named. record {
          ops_small = h.ops_small;
          ttps_small = h.ttps_small;
          action_named = named;
          prereq_small = h.prereq_small;
          bit_small = h.bit_small;
        })
]

set_common-InRange :
    (line : ℕ) (k v : List ℕ) (f : Fields) → InRange f → Gives InRange (set_common line k v f)
unfolding set_common
set_common-InRange line k v f h =
    Gives-if InRange (equal k (codes "ops")) _ _ (λ _. set_ops-InRange line v f h)
      λ _.
        Gives-if InRange (equal k (codes "ttps")) _ _ (λ _. set_ttps-InRange line v f h)
          λ _.
            Gives-if InRange (equal k (codes "action")) _ _ (λ _. set_action-InRange line v f h)
              (λ _. tt)

set_dag-InRange :
    (line : ℕ) (k v : List ℕ) (f : Fields) → InRange f → Gives InRange (set_dag line k v f)
unfolding set_dag
set_dag-InRange line k v f h =
    Gives-if InRange (equal k (codes "bit")) _ _ (λ _. set_bit-InRange line v f h)
      λ _.
        Gives-if InRange (equal k (codes "prereq")) _ _ (λ _. set_prereqs-InRange line v f h)
          (λ _. set_common-InRange line k v f h)

read_tokens-InRange :
    (set : ℕ → List ℕ → List ℕ → Fields → Result Fields)
    → ((line : ℕ) (k v : List ℕ) (f : Fields) → InRange f → Gives InRange (set line k v f))
    → (line : ℕ) (toks : List (List ℕ)) (f : Fields) → InRange f
    → Gives InRange (read_tokens set line toks f)
unfolding read_tokens
read_tokens-InRange set keep line [] f h = h
read_tokens-InRange set keep line (tok ∷ toks) f h =
    Gives-bind (λ (kv : List ℕ × List ℕ). Unit {0}) InRange
      (or_err line not_key_value (split_once b'=' tok)) _
      (Gives-any (or_err line not_key_value (split_once b'=' tok)))
      λ kv u.
        Gives-bind InRange InRange (set line kv.0 kv.1 f) _ (keep line kv.0 kv.1 f h)
          (λ f' h'. read_tokens-InRange set keep line toks f' h')

no_fields-InRange : InRange no_fields
no_fields-InRange = record {
  ops_small = omega arith;
  ttps_small = tt;
  action_named = tt;
  prereq_small = omega arith;
  bit_small = λ b e. cc;
}

-- the ranges of a step that a rule text gives
abbrev pub StepInRange : Step → Type 0
StepInRange s =
    (s.matcher.ops < 2 ^ 8) × All (λ (t : Ttp). t < 2 ^ 32) s.matcher.ttps × IsNamed s.action

abbrev pub DagStepInRange : DagStep → Type 0
DagStepInRange s =
    (s.bit < 64)
    × (s.prereq_mask < 2 ^ 64)
    × (s.matcher.ops < 2 ^ 8)
    × All (λ (t : Ttp). t < 2 ^ 32) s.matcher.ttps
    × IsNamed s.action

pub parse_step-StepInRange : (rest : List ℕ) (line : ℕ) → Gives StepInRange (parse_step rest line)
unfolding parse_step
parse_step-StepInRange rest line =
    Gives-bind InRange StepInRange (read_tokens set_common line (split_whitespace rest) no_fields) _
      (read_tokens-InRange set_common set_common-InRange line (split_whitespace rest) no_fields
        no_fields-InRange)
      (λ f h. (h.ops_small, h.ttps_small, h.action_named))

pub parse_dag_step-DagStepInRange :
    (rest : List ℕ) (line : ℕ) → Gives DagStepInRange (parse_dag_step rest line)
unfolding parse_dag_step
parse_dag_step-DagStepInRange rest line =
    Gives-bind InRange DagStepInRange (read_tokens set_dag line (split_whitespace rest) no_fields) _
      (read_tokens-InRange set_dag set_dag-InRange line (split_whitespace rest) no_fields
        no_fields-InRange)
      λ f h.
        Gives-bind (λ (b : ℕ). b < 64) DagStepInRange (or_err line no_bit f.bit) _
          (Gives-or_err (λ (b : ℕ). b < 64) line no_bit f.bit h.bit_small)
          (λ bit small. (small, h.prereq_small, h.ops_small, h.ttps_small, h.action_named))
