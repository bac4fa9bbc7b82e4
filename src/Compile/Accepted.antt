-- ===== src/Compile/Accepted.antt =====
-- What `compile` and `compile_dag` of engine_rules/src/lib.rs promise of the rules that they return.
use correlation_engine.Prelude.{
  ℕ, ◌≡◌, ◌≢◌, ◌⊎◌, refl, true, false, List, [], ◌∷◌, ==_iff, arith, inl, inr,
}
use correlation_engine.Prelude.Lists.{All, All-append, Distinct, Distinct-append_end}
use correlation_engine.Rules.{Step, Pattern, RuleSet, DagStep, DagPattern, DagRuleSet}
use correlation_engine.Dag.Order.{Reachable}
use correlation_engine.Prelude.Chars.{IsText}
use correlation_engine.Compile.{
  ok, Checked, accepted, rejected, declared, any_root, any_undeclared, is_no_steps, validate_dag,
}
use correlation_engine.Compile.Exact.{validate_dag_iff}
use correlation_engine.Compile.Outcomes.{Gives, Gives-bind, Gives-if, Gives-ok}
use correlation_engine.Compile.Tokens.{parse_step, parse_dag_step}
use correlation_engine.Compile.Steps.{
  StepInRange, DagStepInRange, parse_step-StepInRange, parse_dag_step-DagStepInRange,
}
use correlation_engine.Compile.Source.{
  Block, add_linear, close_linear, has_bit, add_dag, close_dag, or_rejected, as_dag, as_linear,
  map_blocks, compile, compile_dag, compile_blocks,
}
use correlation_engine.Compile.Shape.{IsName, compile_blocks-IsSound}

-- ---- DAG rules

-- A pattern that the engine can run: a name with no white space, steps with fields in range and one bit
-- each, a root, and an order in which all steps can be committed.
pub record IsCheckedDag (p : DagPattern) : Type 0 where
  pub named : IsName p.name
  pub steps_in_range : All DagStepInRange p.steps
  pub bits_distinct : Distinct (λ (s : DagStep). s.bit) p.steps
  pub has_steps : is_no_steps p.steps ≡ false
  pub rooted : any_root p.steps ≡ true
  pub known : any_undeclared (declared p.steps 0) p.steps ≡ false
  pub order : Reachable p.steps (declared p.steps 0)

abbrev OpenDag : Block DagStep → Type 0
OpenDag b = IsName b.name × All DagStepInRange b.steps × Distinct (λ (s : DagStep). s.bit) b.steps

has_bit-All :
    (bit : ℕ) (steps : List DagStep)
    → has_bit bit steps ≡ false
    → All (λ (s : DagStep). s.bit ≢ bit) steps
unfolding has_bit
has_bit-All bit [] h = tt
has_bit-All bit (s ∷ ss) h =
    (λ e. ground (arith, (==_iff s.bit bit).1 e), has_bit-All bit ss (ground arith))

add_dag-OpenDag :
    (line : ℕ) (rest : List ℕ) (b : Block DagStep)
    → OpenDag b
    → Gives
        (λ (steps : List DagStep). OpenDag (record b { steps = steps }))
        (add_dag line rest b.steps)
unfolding add_dag
add_dag-OpenDag line rest b (name, ranges, distinct) =
    Gives-bind DagStepInRange (λ (steps : List DagStep). OpenDag (record b { steps = steps }))
      (parse_dag_step rest line) _ (parse_dag_step-DagStepInRange rest line)
      λ s small.
        Gives-if (λ (steps : List DagStep). OpenDag (record b { steps = steps }))
          (has_bit s.bit b.steps) _ _ (λ _. tt)
          λ new. (
            name,
            All-append DagStepInRange b.steps (s ∷ []) ranges (small, tt),
            Distinct-append_end (λ (x : DagStep). x.bit) b.steps s distinct
                (has_bit-All s.bit b.steps new),
          )

or_rejected-Gives :
    (P : Block DagStep → Type 0) (b : Block DagStep) (c : Checked)
    → (c ≡ accepted → P b)
    → Gives P (or_rejected b c)
or_rejected-Gives P b accepted h = h refl
or_rejected-Gives P b (rejected l why) h = tt

close_dag-IsCheckedDag :
    (line : ℕ) (b : Block DagStep)
    → OpenDag b
    → Gives
        (λ (b' : Block DagStep). IsCheckedDag (as_dag b') × (b'.name ≡ b.name))
        (close_dag line b)
unfolding close_dag
close_dag-IsCheckedDag line b (name, ranges, distinct) =
    or_rejected-Gives (λ (b' : Block DagStep). IsCheckedDag (as_dag b') × (b'.name ≡ b.name)) b
      (validate_dag (as_dag b) line)
      λ e.
        let (steps, root, known, order) = (validate_dag_iff (as_dag b) line).0 e in
        (
          record {
            named = name;
            steps_in_range = ranges;
            bits_distinct = distinct;
            has_steps = steps;
            rooted = root;
            known = known;
            order = order;
          },
          refl,
        )

-- patterns of blocks keep what holds of the blocks
All-map_blocks {ℓ κ} :
    {A : Type ℓ} {B : Type κ} (P : B → Type 0) (f : A → B) (as' : List A)
    → All (λ (a : A). P (f a)) as'
    → All P (map_blocks f as')
All-map_blocks P f [] h = tt
All-map_blocks P f (a ∷ as') h = (h.0, All-map_blocks P f as' h.1)

Distinct-map_blocks {ℓ κ} :
    {A : Type ℓ} {B : Type κ} (key : B → List ℕ) (f : A → B) (as' : List A)
    → Distinct (λ (a : A). key (f a)) as'
    → Distinct key (map_blocks f as')
Distinct-map_blocks key f [] d = tt
Distinct-map_blocks key f (a ∷ as') d =
    (All-map_blocks (λ b. key (f a) ≢ key b) f as' d.0, Distinct-map_blocks key f as' d.1)

abbrev pub IsCheckedDagRules : DagRuleSet → Type 0
IsCheckedDagRules r = All IsCheckedDag r.patterns × Distinct (λ (p : DagPattern). p.name) r.patterns

-- The rules of a text that `compile_dag` accepts have distinct names, and every pattern has a name
-- with no white space, steps with distinct bits below 64 and fields in range, a root, no undeclared
-- prerequisite, and an order in which all its steps can be committed, each after its prerequisites.
pub compile_dag-IsCheckedDagRules :
    (src : List ℕ) {r : DagRuleSet} → IsText src → compile_dag src ≡ ok r → IsCheckedDagRules r
unfolding compile_dag
compile_dag-IsCheckedDagRules src chars run =
    Gives-ok IsCheckedDagRules (compile_dag src)
      (Gives-bind
        (λ (ps : List (Block DagStep)).
          All (λ (b : Block DagStep). IsCheckedDag (as_dag b)) ps
          × Distinct (λ (b : Block DagStep). b.name) ps)
        IsCheckedDagRules (compile_blocks add_dag close_dag src) _
        (compile_blocks-IsSound add_dag close_dag OpenDag
          (λ (b : Block DagStep). IsCheckedDag (as_dag b)) (λ name named. (named, tt, tt))
          add_dag-OpenDag close_dag-IsCheckedDag src chars)
        (λ ps h. (
          All-map_blocks IsCheckedDag as_dag ps h.0,
          Distinct-map_blocks (λ (p : DagPattern). p.name) as_dag ps h.1,
        )))
      run

-- ---- linear rules

pub record IsCheckedLinear (p : Pattern) : Type 0 where
  pub named : IsName p.name
  pub steps_in_range : All StepInRange p.steps
  pub has_steps : p.steps ≢ []

abbrev OpenLinear : Block Step → Type 0
OpenLinear b = IsName b.name × All StepInRange b.steps

add_linear-OpenLinear :
    (line : ℕ) (rest : List ℕ) (b : Block Step)
    → OpenLinear b
    → Gives
        (λ (steps : List Step). OpenLinear (record b { steps = steps }))
        (add_linear line rest b.steps)
unfolding add_linear
add_linear-OpenLinear line rest b (name, ranges) =
    Gives-bind StepInRange (λ (steps : List Step). OpenLinear (record b { steps = steps }))
      (parse_step rest line) _ (parse_step-StepInRange rest line)
      (λ s small. (name, All-append StepInRange b.steps (s ∷ []) ranges (small, tt)))

List-cases {ℓ} : {A : Type ℓ} (xs : List A) → (xs ≡ []) ⊎ ((x : A) × (ys : List A) × (xs ≡ x ∷ ys))
List-cases [] = inl refl
List-cases (x ∷ xs) = inr (x, xs, refl)

close_linear-IsCheckedLinear :
    (line : ℕ) (b : Block Step)
    → OpenLinear b
    → Gives
        (λ (b' : Block Step). IsCheckedLinear (as_linear b') × (b'.name ≡ b.name))
        (close_linear line b)
unfolding close_linear
close_linear-IsCheckedLinear line b (name, ranges) = elim (List-cases b.steps) [
  | inl e ↦ rw e tt
  | inr (s, ss, e) ↦
      let ranges' : All StepInRange (s ∷ ss) = rw e at ranges in
      rw e (record { named = name; steps_in_range = ranges'; has_steps = λ none. cc }, refl)
]

abbrev pub IsCheckedLinearRules : RuleSet → Type 0
IsCheckedLinearRules r =
    All IsCheckedLinear r.patterns × Distinct (λ (p : Pattern). p.name) r.patterns

-- The rules of a text that `compile` accepts have distinct names, and every pattern has a name with no
-- white space, at least one step, and fields in range in every step.
pub compile-IsCheckedLinearRules :
    (src : List ℕ) {r : RuleSet} → IsText src → compile src ≡ ok r → IsCheckedLinearRules r
unfolding compile
compile-IsCheckedLinearRules src chars run =
    Gives-ok IsCheckedLinearRules (compile src)
      (Gives-bind
        (λ (ps : List (Block Step)).
          All (λ (b : Block Step). IsCheckedLinear (as_linear b)) ps
          × Distinct (λ (b : Block Step). b.name) ps)
        IsCheckedLinearRules (compile_blocks add_linear close_linear src) _
        (compile_blocks-IsSound add_linear close_linear OpenLinear
          (λ (b : Block Step). IsCheckedLinear (as_linear b)) (λ name named. (named, tt))
          add_linear-OpenLinear close_linear-IsCheckedLinear src chars)
        (λ ps h. (
          All-map_blocks IsCheckedLinear as_linear ps h.0,
          Distinct-map_blocks (λ (p : Pattern). p.name) as_linear ps h.1,
        )))
      run
