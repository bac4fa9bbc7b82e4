-- ===== src/Tests/Sources.antt =====
-- Rule texts of the tests of engine_rules/src/lib.rs, and their errors.
use Prim.Native.String.{String}
use correlation_engine.Prelude.{ℕ, ◌≡◌, refl, arith, none, some, List, [], ◌∷◌, ◌++◌}
use correlation_engine.Prelude.Texts.{
  codes, lines, lines_of, split, trim, trim_end, trim_start, strip_last, is_whitespace, starts_with,
  equal, split_whitespace, non_empty, pieces, digits_from, has_whitespace, parse_uint, split_once,
  strip_prefix, utf8, utf8_char,
}
use correlation_engine.Event.{op_bit, op_index}
use correlation_engine.Event.OpSet
use correlation_engine.Compile.Tokens.{
  add_prereqs, insert_ops, parse_action, parse_dag_step, parse_disarm, parse_op, parse_ttp,
  push_ttps, read_tokens, set_action, set_bit, set_common, set_dag, parse_step,
}
use correlation_engine.Rules.{bit_mask, Action, RuleSet, DagRuleSet}
use correlation_engine.Compile.{
  ok, any_root, any_undeclared, declared, is_no_steps, opens, reach, round, validate_dag,
}
use correlation_engine.Compile.Source.{
  add_linear, close_linear, compile, compile_dag, compile_blocks, read_lines, read_line, add_dag,
  add_step, close_dag, end_pattern, has_bit, has_name, open_pattern,
}
use correlation_engine.Compile.Accepted.{
  IsCheckedDagRules, IsCheckedLinearRules, compile_dag-IsCheckedDagRules,
  compile-IsCheckedLinearRules,
}
use correlation_engine.Compile.Shipped.{
  IsShipped, compile_dag_to_bytes-engine_create, compile_to_bytes-decode, compile-replay_total,
}
use correlation_engine.Compile.Source.{compile_to_bytes}
use correlation_engine.Prelude.Lists.{length}
use correlation_engine.Wire.{encode, decode}
use correlation_engine.Wire.Primitives
use correlation_engine.Detector.{Verdict}
use correlation_engine.Linear
use correlation_engine.Graph
use correlation_engine.Tests.Scenario.{dag_step, linear_events}

-- the code points of lines that end in `\n`
abbrev pub text : List String → List ℕ
text [] = []
text (l ∷ ls) = codes l ++ (10 ∷ text ls)

abbrev pub dag_text : List ℕ
dag_text = text (
    "# ransomware DAG" ∷ "pattern ransomware_dag" ∷ "    step bit=0 ops=exec ttps=T1059"
    ∷ "    step bit=1 prereq=0 ops=read ttps=T1083" ∷ "    step bit=2 prereq=0 ops=exec ttps=T1490"
    ∷ "    step bit=3 prereq=1,2 ops=write ttps=T1486 action=disarm(write,exec)" ∷ "end" ∷ [])

abbrev pub dag_rules : DagRuleSet
dag_rules = record {
  patterns =
      record {
        name = codes "ransomware_dag";
        steps =
            dag_step 0 1 1059 0 none
            ∷ dag_step 1 8 1083 1 none
            ∷ dag_step 2 1 1490 1 none
            ∷ dag_step 3 4 1486 6 (some (Action.disarm 5))
            ∷ [];
      }
      ∷ [];
}

pub compile_dag-dag_text : compile_dag dag_text ≡ ok dag_rules
unfolding compile_dag compile_blocks read_lines read_line add_dag add_step close_dag end_pattern
    has_bit has_name open_pattern add_prereqs insert_ops parse_action parse_dag_step parse_disarm
    parse_op parse_ttp push_ttps read_tokens set_action set_bit set_common set_dag any_root
    any_undeclared declared is_no_steps opens reach round validate_dag OpSet.insert OpSet.is_empty
    op_bit op_index bit_mask lines lines_of split trim trim_end trim_start strip_last is_whitespace
    starts_with equal split_whitespace non_empty pieces digits_from has_whitespace parse_uint
    split_once strip_prefix utf8 utf8_char
compile_dag-dag_text = refl

compile_dag_example : IsCheckedDagRules dag_rules
compile_dag_example = compile_dag-IsCheckedDagRules dag_text (omega arith) compile_dag-dag_text

abbrev pub linear_text : List ℕ
linear_text = text (
    "# demo" ∷ "pattern demo" ∷ "    step ops=exec ttps=T1059"
    ∷ "    step ops=write|create ttps=1486,T1490 action=disarm(write,exec)" ∷ "end" ∷ [])

abbrev pub linear_compiled : RuleSet
linear_compiled = record {
  patterns =
      record {
        name = codes "demo";
        steps =
            record { matcher = record { ops = 1; ttps = 1059 ∷ [] }; action = none }
            ∷ record {
              matcher = record { ops = 6; ttps = 1486 ∷ 1490 ∷ [] };
              action = some (Action.disarm 5);
            }
            ∷ [];
      }
      ∷ [];
}

pub compile-linear_text : compile linear_text ≡ ok linear_compiled
unfolding compile compile_blocks read_lines read_line add_linear add_step close_linear end_pattern
    has_name open_pattern insert_ops parse_action parse_step parse_disarm parse_op parse_ttp
    push_ttps read_tokens set_action set_common OpSet.insert OpSet.is_empty op_bit op_index lines
    lines_of split trim trim_end trim_start strip_last is_whitespace starts_with equal
    split_whitespace non_empty pieces digits_from has_whitespace parse_uint split_once strip_prefix
    utf8 utf8_char
compile-linear_text = refl

compile_example : IsCheckedLinearRules linear_compiled
compile_example = compile-IsCheckedLinearRules linear_text (omega arith) compile-linear_text

compile_dag_to_bytes_example : IsShipped dag_text dag_rules
compile_dag_to_bytes_example =
    compile_dag_to_bytes-engine_create dag_text dag_rules (omega arith) compile_dag-dag_text
      (omega arith)

compile_to_bytes_example :
    (compile_to_bytes linear_text ≡ ok (encode linear_compiled))
    × (decode (encode linear_compiled) ≡ Primitives.Result.ok linear_compiled)
compile_to_bytes_example =
    compile_to_bytes-decode linear_text linear_compiled (omega arith) compile-linear_text
      (omega arith)

compile-replay_example :
    (vs : List Verdict) × (Linear.replay linear_events (Linear.new linear_compiled) ≡ some vs)
    × (Graph.replay linear_events (Graph.new linear_compiled) ≡ some vs)
    × (length vs ≡ length linear_events)
compile-replay_example =
    compile-replay_total linear_text linear_compiled linear_events (omega arith) compile-linear_text
