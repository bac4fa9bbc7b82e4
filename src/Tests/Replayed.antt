-- ===== src/Tests/Replayed.antt =====
-- The two replays of engine_replay/src/lib.rs, on the rules of engine_replay/rules without their comments.
use correlation_engine.Prelude.{◌≡◌, refl, Option, none, some, List, [], ◌∷◌}
use correlation_engine.Prelude.Maps.{get, insert, contains, add, extend}
use correlation_engine.Event.{op_index, op_bit}
use correlation_engine.Event.OpSet
use correlation_engine.Rules.{Action, RuleSet, DagRuleSet, matches, all_in, bit_mask}
use correlation_engine.Detector.{rank, max_verdict, apply, react, is_disarmed}
use correlation_engine.Lines.{
  relabel, no_lines, slot, fresh, resolve_line, append_automata, absorb, move_line, merge,
  merge_if_apart, unify_storyline,
}
use correlation_engine.Dag
use correlation_engine.Linear
use correlation_engine.Replay.{
  Case, ReplayOutcome, proc_key, file_key, case_of, linear_dataset, dag_dataset, replay,
}
use correlation_engine.Tests.Scenario.{dag_step, on}

-- `disarm(write,exec,create,inject,connect)`
abbrev five : Option Action
five = some (Action.disarm 103)

abbrev pub replay_dag_rules : DagRuleSet
replay_dag_rules = record {
  patterns =
      record {
        name = [];
        steps =
            dag_step 0 1 1059 0 none
            ∷ dag_step 1 8 1083 1 none
            ∷ dag_step 2 1 1490 1 none
            ∷ dag_step 3 4 1486 6 five
            ∷ [];
      }
      ∷ [];
}

abbrev pub replay_linear_rules : RuleSet
replay_linear_rules = record {
  patterns =
      record {
        name = [];
        steps =
            record { matcher = on 1 1059; action = none }
            ∷ record { matcher = on 8 1083; action = none }
            ∷ record { matcher = on 1 1490; action = none }
            ∷ record { matcher = on 4 1486; action = five }
            ∷ [];
      }
      ∷ [];
}

abbrev as_expected : List Case → List ReplayOutcome
as_expected [] = []
as_expected (c ∷ cs) = record { of_case = c; actual = c.expect } ∷ as_expected cs

replay-dag_dataset :
    replay Dag.on_event (Dag.new replay_dag_rules) dag_dataset ≡ some (as_expected dag_dataset)
unfolding Dag.new Dag.on_event Dag.advance Dag.advance_all Dag.advance_automata Dag.commit_steps
    Dag.is_ready Dag.seed Dag.seed_steps Dag.push_automaton Dag.step_matches Dag.quiet bit_mask
    dag_dataset matches all_in OpSet.contains OpSet.is_empty OpSet.union op_index op_bit rank
    max_verdict apply react is_disarmed relabel no_lines slot fresh resolve_line append_automata
    absorb move_line merge merge_if_apart unify_storyline get insert contains add extend proc_key
    file_key case_of replay
replay-dag_dataset = refl

replay-linear_dataset :
    replay Linear.on_event (Linear.new replay_linear_rules) linear_dataset
    ≡ some (as_expected linear_dataset)
unfolding Linear.new Linear.on_event Linear.advance Linear.advance_all Linear.advance_automata
    Linear.advance_automaton Linear.seed Linear.push_automaton Linear.step_matches Linear.quiet
    linear_dataset matches all_in OpSet.contains OpSet.is_empty OpSet.union op_index op_bit rank
    max_verdict apply react is_disarmed relabel no_lines slot fresh resolve_line append_automata
    absorb move_line merge merge_if_apart unify_storyline get insert contains add extend proc_key
    file_key case_of replay
replay-linear_dataset = refl
