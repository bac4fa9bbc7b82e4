-- ===== src/Replay.antt =====
-- engine_replay/src/lib.rs: the two datasets with their expected verdicts, the rules that they run on,
-- and the replay. The descriptions of the cases are left out.
use correlation_engine.Prelude.{ℕ, ◌*◌, ◌^◌, Option, none, some, List, [], ◌∷◌, bit_or, ◌>>=◌}
use correlation_engine.Event.{Key, Kind, Op, Ttp}
use correlation_engine.Rules.{RuleSet, DagRuleSet}
use correlation_engine.Detector.{Verdict, Tagged}
use correlation_engine.Wire.{decode, decode_dag}
use correlation_engine.Wire.Primitives
use correlation_engine.Compile.{Result, ok, err}
use correlation_engine.Compile.Source.{compile_to_bytes, compile_dag_to_bytes}

pub record Case : Type 0 where
  pub tagged : Tagged
  pub expect : Verdict

pub record ReplayOutcome : Type 0 where
  pub of_case : Case
  pub actual : Verdict

abbrev pub Node : Type 0
Node = Key × Kind

-- `(1u128 << 96) | pid`
unfoldable pub proc_key : ℕ → Node
proc_key pid = (bit_or (2 ^ 96) pid, Kind.process)

unfoldable pub file_key : ℕ → Node
file_key id = (bit_or (2 * 2 ^ 96) id, Kind.file)

unfoldable pub case_of : ℕ → Op → Node → Node → List Ttp → Verdict → Case
case_of ts op actor object ttps expect = record {
  tagged = record {
    event = record {
      ts = ts;
      op = op;
      actor = actor.0;
      actor_kind = actor.1;
      object = object.0;
      object_kind = object.1;
    };
    ttps = ttps;
  };
  expect = expect;
}

abbrev explorer : Node
explorer = proc_key 1

abbrev powershell : Node
powershell = proc_key 200

abbrev svchost : Node
svchost = proc_key 50

abbrev conhost : Node
conhost = proc_key 80

abbrev vssadmin : Node
vssadmin = proc_key 300

abbrev notepad : Node
notepad = proc_key 90

abbrev documents_dir : Node
documents_dir = file_key 1

abbrev readme : Node
readme = file_key 2

abbrev doc1 : Node
doc1 = file_key 3

abbrev doc2 : Node
doc2 = file_key 4

unfoldable pub linear_dataset : List Case
linear_dataset =
    case_of 1000 Op.exec explorer powershell (1059 ∷ []) Verdict.inspect
    ∷ case_of 1500 Op.read powershell documents_dir (1083 ∷ []) Verdict.inspect
    ∷ case_of 1650 Op.exec svchost conhost [] Verdict.ignore
    ∷ case_of 2000 Op.exec powershell vssadmin (1490 ∷ []) Verdict.inspect
    ∷ case_of 2200 Op.read conhost readme [] Verdict.ignore
    ∷ case_of 2500 Op.write powershell doc1 (1486 ∷ []) Verdict.disarm
    ∷ case_of 2600 Op.write powershell doc2 (1486 ∷ []) Verdict.block
    ∷ case_of 2750 Op.exec svchost notepad [] Verdict.ignore
    ∷ []

unfoldable pub dag_dataset : List Case
dag_dataset =
    case_of 1000 Op.exec explorer powershell (1059 ∷ []) Verdict.inspect
    ∷ case_of 1500 Op.exec svchost conhost [] Verdict.ignore
    ∷ case_of 2000 Op.exec powershell vssadmin (1490 ∷ []) Verdict.inspect
    ∷ case_of 2200 Op.read conhost readme [] Verdict.ignore
    ∷ case_of 2500 Op.read powershell documents_dir (1083 ∷ []) Verdict.inspect
    ∷ case_of 2800 Op.write powershell doc1 (1486 ∷ []) Verdict.disarm
    ∷ case_of 2900 Op.write powershell doc2 (1486 ∷ []) Verdict.block
    ∷ case_of 3000 Op.exec svchost notepad [] Verdict.ignore
    ∷ []

-- `.expect(..)` of either result: `none` is the panic
abbrev decoded {ℓ} : {A : Type ℓ} → (List ℕ → Primitives.Result A) → Result (List ℕ) → Option A
decoded read (err line why) = none
decoded read (ok bytes) = elim (read bytes) [
  | Primitives.Result.ok r ↦ some r
  | Primitives.Result.err e ↦ none
]

-- the constants `LINEAR_RULES` and `DAG_RULES` are files, so their text is an argument
unfoldable pub linear_rules : List ℕ → Option RuleSet
linear_rules text = decoded decode (compile_to_bytes text)

unfoldable pub dag_rules : List ℕ → Option DagRuleSet
dag_rules text = decoded decode_dag (compile_dag_to_bytes text)

-- Over any engine, as its state and its `on_event`; `none` is a panic.
module _ {G : Type 0} (on_event : Tagged → G → Option (Verdict × G)) where
  unfoldable pub replay : G → List Case → Option (List ReplayOutcome)
  replay g [] = some []
  replay g (c ∷ cs) = do
    (v, g') ← on_event c.tagged g
    os ← replay g' cs
    some (record { of_case = c; actual = v } ∷ os)
