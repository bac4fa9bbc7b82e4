-- ===== src/Tests/Compiled.antt =====
-- Patterns before `validate_dag` of engine_rules/src/lib.rs.
use correlation_engine.Prelude.{◌≡◌, ◌↔◌, refl, true, false, none, [], ◌∷◌}
use correlation_engine.Rules.{DagPattern, bit_mask}
use correlation_engine.Dag.Order.{Reachable}
use correlation_engine.Compile.{
  accepted, rejected, unreachable, declared, any_root, any_undeclared, opens, round, reach,
  is_no_steps, validate_dag,
}
use correlation_engine.Compile.Exact.{validate_dag_iff}
use correlation_engine.Tests.Scenario.{dag_step, ransomware}

-- bits 1 and 2 wait for each other
abbrev circular : DagPattern
circular = record {
  name = b'c' ∷ [];
  steps = dag_step 0 1 1 0 none ∷ dag_step 1 1 2 4 none ∷ dag_step 2 1 3 2 none ∷ [];
}

validate_dag-circular : validate_dag circular 5 ≡ rejected 5 unreachable
unfolding validate_dag is_no_steps any_root any_undeclared declared reach round opens bit_mask
validate_dag-circular = refl

validate_dag_iff_example : (validate_dag ransomware 6 ≡ accepted) ↔ (
    (is_no_steps ransomware.steps ≡ false)
    × (any_root ransomware.steps ≡ true)
    × (any_undeclared (declared ransomware.steps 0) ransomware.steps ≡ false)
    × Reachable ransomware.steps (declared ransomware.steps 0))
validate_dag_iff_example = validate_dag_iff ransomware 6
