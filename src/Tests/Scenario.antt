-- ===== src/Tests/Scenario.antt =====
-- `ransomware_dag` and its events, from the tests of engine_core/src/v0_0_2.rs, and a linear ruleset.
use correlation_engine.Prelude.{ℕ, Option, none, some, List, [], ◌∷◌}
use correlation_engine.Event.{Op, Kind, Ttp}
use correlation_engine.Rules.{Action, StepMatch, RuleSet, DagStep, DagPattern, DagRuleSet}
use correlation_engine.Detector.{Tagged}
use correlation_engine.Lines.{Storyline}
use correlation_engine.Dag

abbrev pub on : ℕ → Ttp → StepMatch
on ops ttp = record { ops = ops; ttps = ttp ∷ [] }

abbrev pub dag_step : ℕ → ℕ → Ttp → ℕ → Option Action → DagStep
dag_step bit ops ttp prereq action = record {
  matcher = on ops ttp;
  bit = bit;
  prereq_mask = prereq;
  action = action;
}

-- bit 0 is the root, bits 1 and 2 need it, bit 3 needs both and disarms `write` and `exec`
abbrev pub ransomware : DagPattern
ransomware = record {
  name = b'r' ∷ b'w' ∷ [];
  steps =
      dag_step 0 1 1059 0 none
      ∷ dag_step 1 8 1083 1 none
      ∷ dag_step 2 1 1490 1 none
      ∷ dag_step 3 4 1486 6 (some (Action.disarm 5))
      ∷ [];
}

abbrev pub ransomware_dag : DagRuleSet
ransomware_dag = record { patterns = ransomware ∷ [] }

abbrev pub event : ℕ → Op → ℕ → ℕ → List Ttp → Tagged
event ts op actor object ttps = record {
  event = record {
    ts = ts;
    op = op;
    actor = actor;
    actor_kind = Kind.process;
    object = object;
    object_kind = Kind.file;
  };
  ttps = ttps;
}

abbrev pub chain : List Tagged
chain =
    event 1 Op.exec 10 11 (1059 ∷ [])
    ∷ event 2 Op.exec 10 12 (1490 ∷ [])
    ∷ event 3 Op.read 10 13 (1083 ∷ [])
    ∷ []

abbrev pub encrypt : Tagged
encrypt = event 4 Op.write 10 14 (1486 ∷ [])

abbrev pub write_again : Tagged
write_again = event 5 Op.write 10 15 []

abbrev pub storyline : List ℕ → ℕ → ℕ → Option (Storyline Dag.Automaton)
storyline members mask ts = some (record {
  members = members;
  automata = (0, record { done_mask = mask } ∷ []) ∷ [];
  last_activity = ts;
})

-- the engine after `chain`, and after `encrypt`
abbrev pub chained : Dag.Engine
chained = record {
  rules = ransomware_dag;
  lines = record {
    line = (10, 0) ∷ (11, 0) ∷ (12, 0) ∷ (13, 0) ∷ [];
    storylines = storyline (10 ∷ 11 ∷ 12 ∷ 13 ∷ []) 7 3 ∷ none ∷ none ∷ none ∷ [];
  };
  disarmed = [];
}

abbrev pub disarmed : Dag.Engine
disarmed = record {
  rules = ransomware_dag;
  lines = record {
    line = (10, 0) ∷ (11, 0) ∷ (12, 0) ∷ (13, 0) ∷ (14, 0) ∷ [];
    storylines = storyline (10 ∷ 11 ∷ 12 ∷ 13 ∷ 14 ∷ []) 15 4 ∷ none ∷ none ∷ none ∷ none ∷ [];
  };
  disarmed = (10, 5) ∷ [];
}

-- `read`, then `write`: the linear rules
abbrev pub linear_rules : RuleSet
linear_rules = record {
  patterns =
      record {
        name = b'l' ∷ [];
        steps =
            record { matcher = on 8 7; action = none }
            ∷ record { matcher = on 4 8; action = some (Action.disarm 4) }
            ∷ [];
      }
      ∷ [];
}

abbrev pub linear_events : List Tagged
linear_events =
    event 1 Op.read 1 2 (7 ∷ []) ∷ event 2 Op.write 1 3 (8 ∷ []) ∷ event 3 Op.write 1 4 [] ∷ []
