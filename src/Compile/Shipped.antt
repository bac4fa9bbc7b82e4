-- ===== src/Compile/Shipped.antt =====
-- From a rule text to a running engine: `compile_dag_to_bytes` and `compile_to_bytes` of
-- engine_rules/src/lib.rs, read by engine_core/src/wire.rs and by `engine_create` of
-- engine_core/src/ffi.rs.
use correlation_engine.Prelude.{
  ℕ, ◌^◌, ◌≤◌, ◌<◌, ◌≡◌, sym, ap, ◌∙◌, true, Option, none, some, List, [], ◌∷◌, arith,
}
use mathlib.Core.List.{append-nil}
use correlation_engine.Prelude.Lists.{length, take, take-length-append, All}
use correlation_engine.Prelude.Chars.{IsText}
use correlation_engine.Prelude.Pigeons.{length-le_bound}
use correlation_engine.Rules.{
  Action, StepMatch, Step, Pattern, RuleSet, DagStep, DagPattern, DagRuleSet,
}
use correlation_engine.Wire.{encode, encode_dag, decode, decode_dag}
use correlation_engine.Wire.Primitives
use correlation_engine.Wire.Fields.{FitsAction, FitsStep, FitsDagStep, FitsPattern, FitsDagPattern}
use correlation_engine.Wire.RoundTrip.{decode-encode, decode_dag-encode_dag}
use correlation_engine.Wire.Utf8.Encoded.{is_utf8-utf8}
use correlation_engine.Wire.Utf8.{is_utf8}
use correlation_engine.Detector.{Verdict, Tagged}
use correlation_engine.Linear
use correlation_engine.Linear.Sound.{HasSteps}
use correlation_engine.Linear.Total.{new-IsSound, linear_replay_total}
use correlation_engine.Graph
use correlation_engine.Graph.Agree.{verdicts_agree}
use correlation_engine.Dag
use correlation_engine.Ffi.{engine_create}
use correlation_engine.Compile.{ok}
use correlation_engine.Compile.Steps.{StepInRange, DagStepInRange, IsNamed}
use correlation_engine.Compile.Shape.{IsName}
use correlation_engine.Compile.Source.{compile, compile_dag, compile_to_bytes, compile_dag_to_bytes}
use correlation_engine.Compile.Accepted.{
  IsCheckedDag, IsCheckedLinear, compile_dag-IsCheckedDagRules, compile-IsCheckedLinearRules,
}

-- what the compiler does not bound: the lengths that the byte format counts in fields
abbrev pub SizedMatch : StepMatch → Type 0
SizedMatch m = length m.ttps < 2 ^ 8

abbrev pub IsSizedDag : DagRuleSet → Type 0
IsSizedDag r =
    (length r.patterns < 2 ^ 16)
    × All
        (λ (p : DagPattern).
          (length p.name < 2 ^ 16) × All (λ (s : DagStep). SizedMatch s.matcher) p.steps)
        r.patterns

abbrev pub IsSized : RuleSet → Type 0
IsSized r =
    (length r.patterns < 2 ^ 16)
    × All
        (λ (p : Pattern).
          (length p.name < 2 ^ 16)
          × (length p.steps < 2 ^ 16)
          × All (λ (s : Step). SizedMatch s.matcher) p.steps)
        r.patterns

IsNamed-FitsAction : (a : Option Action) → IsNamed a → FitsAction a
IsNamed-FitsAction none h = tt
IsNamed-FitsAction (some Action.block) h = tt
IsNamed-FitsAction (some (Action.disarm ops)) h = omega arith

IsName-is_utf8 : (name : List ℕ) → IsName name → is_utf8 name ≡ true
IsName-is_utf8 name (chars, e, text, full, plain) = ap is_utf8 e ∙ is_utf8-utf8 chars text

All-FitsDagStep :
    (ss : List DagStep)
    → All DagStepInRange ss
    → All (λ (s : DagStep). SizedMatch s.matcher) ss
    → All FitsDagStep ss
All-FitsDagStep [] r z = tt
All-FitsDagStep (s ∷ ss) ((bit, prereq, ops, ttps, named), rs) (z, zs) = (
  (omega arith, prereq, (omega arith, z, ttps), IsNamed-FitsAction s.action named),
  All-FitsDagStep ss rs zs,
)

bits_below : (ss : List DagStep) → All DagStepInRange ss → All (λ (s : DagStep). s.bit < 64) ss
bits_below [] r = tt
bits_below (s ∷ ss) r = (r.0.0, bits_below ss r.1)

All-FitsDagPattern :
    (ps : List DagPattern)
    → All IsCheckedDag ps
    → All
        (λ (p : DagPattern).
          (length p.name < 2 ^ 16) × All (λ (s : DagStep). SizedMatch s.matcher) p.steps)
        ps
    → All FitsDagPattern ps
All-FitsDagPattern [] c z = tt
All-FitsDagPattern (p ∷ ps) (c, cs) ((name, sized), zs) =
    let few : length p.steps ≤ 64 =
      length-le_bound (λ (s : DagStep). s.bit) 64 p.steps c.bits_distinct
        (bits_below p.steps c.steps_in_range) in
    (
      (
        (name, IsName-is_utf8 p.name c.named),
        omega arith,
        All-FitsDagStep p.steps c.steps_in_range sized,
      ),
      All-FitsDagPattern ps cs zs,
    )

-- What the bytes of a compiled text give: the same rules, and an engine that has seen no event.
pub record IsShipped (src : List ℕ) (r : DagRuleSet) : Type 0 where
  pub written : compile_dag_to_bytes src ≡ ok (encode_dag r)
  pub read_back : decode_dag (encode_dag r) ≡ Primitives.Result.ok r
  pub created : engine_create (some (encode_dag r)) (length (encode_dag r)) ≡ some (Dag.new r)

-- A DAG rule text that compiles to fewer than 2 ^ 16 patterns, with names shorter than 2 ^ 16 bytes
-- and fewer than 2 ^ 8 TTPs in every step, is written as bytes that `decode_dag` reads back as the
-- compiled rules and from which `engine_create` makes an engine for them.
pub compile_dag_to_bytes-engine_create :
    (src : List ℕ) (r : DagRuleSet)
    → IsText src
    → compile_dag src ≡ ok r
    → IsSizedDag r
    → IsShipped src r
unfolding compile_dag_to_bytes engine_create Dag.try_new
compile_dag_to_bytes-engine_create src r chars run sized =
    let checked = compile_dag-IsCheckedDagRules src chars run in
    let back : decode_dag (encode_dag r) ≡ Primitives.Result.ok r =
      decode_dag-encode_dag r (sized.0, All-FitsDagPattern r.patterns checked.0 sized.1) in
    record { written = rw run; read_back = back; created = rw (take_all (encode_dag r)) (rw back) }
  where
    take_all : (bs : List ℕ) → take (length bs) bs ≡ bs
    take_all bs = ap (take (length bs)) (sym (append-nil bs)) ∙ take-length-append bs []

All-FitsStep :
    (ss : List Step)
    → All StepInRange ss
    → All (λ (s : Step). SizedMatch s.matcher) ss
    → All FitsStep ss
All-FitsStep [] r z = tt
All-FitsStep (s ∷ ss) ((ops, ttps, named), rs) (z, zs) =
    (((omega arith, z, ttps), IsNamed-FitsAction s.action named), All-FitsStep ss rs zs)

All-FitsPattern :
    (ps : List Pattern)
    → All IsCheckedLinear ps
    → All
        (λ (p : Pattern).
          (length p.name < 2 ^ 16)
          × (length p.steps < 2 ^ 16)
          × All (λ (s : Step). SizedMatch s.matcher) p.steps)
        ps
    → All FitsPattern ps
All-FitsPattern [] c z = tt
All-FitsPattern (p ∷ ps) (c, cs) ((name, steps, sized), zs) = (
  ((name, IsName-is_utf8 p.name c.named), steps, All-FitsStep p.steps c.steps_in_range sized),
  All-FitsPattern ps cs zs,
)

-- A linear rule text that compiles to fewer than 2 ^ 16 patterns, with names shorter than 2 ^ 16
-- bytes, fewer than 2 ^ 16 steps in every pattern and fewer than 2 ^ 8 TTPs in every step, is written
-- as bytes that `decode` reads back as the compiled rules.
pub compile_to_bytes-decode :
    (src : List ℕ) (r : RuleSet)
    → IsText src
    → compile src ≡ ok r
    → IsSized r
    → (compile_to_bytes src ≡ ok (encode r)) × (decode (encode r) ≡ Primitives.Result.ok r)
unfolding compile_to_bytes
compile_to_bytes-decode src r chars run sized = (
  rw run,
  decode-encode r
      (sized.0, All-FitsPattern r.patterns (compile-IsCheckedLinearRules src chars run).0 sized.1),
)

All-HasSteps : (ps : List Pattern) → All IsCheckedLinear ps → All HasSteps ps
All-HasSteps [] c = tt
All-HasSteps (p ∷ ps) (c, cs) = (c.has_steps, All-HasSteps ps cs)

-- Rules from a linear text that compiles never make an engine panic: on every stream of events base.rs
-- and v0_0_1.rs return the same list of verdicts, one for each event.
pub compile-replay_total :
    (src : List ℕ) (r : RuleSet) (ts : List Tagged)
    → IsText src
    → compile src ≡ ok r
    → (vs : List Verdict) × (Linear.replay ts (Linear.new r) ≡ some vs)
      × (Graph.replay ts (Graph.new r) ≡ some vs)
      × (length vs ≡ length ts)
compile-replay_total src r ts chars run =
    let checked = compile-IsCheckedLinearRules src chars run in
    let (vs, runs, len) =
      linear_replay_total ts (Linear.new r)
        (new-IsSound r (unfold Linear.new in All-HasSteps r.patterns checked.0)) in
    (vs, runs, verdicts_agree r ts ∙ runs, len)
