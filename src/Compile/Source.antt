-- ===== src/Compile/Source.antt =====
-- `compile` and `compile_dag` of engine_rules/src/lib.rs: the lines of a rule text.
use correlation_engine.Prelude.{
  ℕ, ◌+◌, Bool, false, ◌||◌, Option, none, some, List, [], ◌∷◌, ◌++◌, ◌==◌, if◌then◌else◌,
}
use correlation_engine.Prelude.Lists.{length, drop}
use correlation_engine.Prelude.Texts.{
  codes, equal, is_nil, has_whitespace, trim, split_whitespace, starts_with, lines, utf8,
}
use correlation_engine.Rules.{Step, Pattern, RuleSet, DagStep, DagPattern, DagRuleSet}
use correlation_engine.Wire.{encode, encode_dag}
use correlation_engine.Compile.{
  no_steps, pattern_open, bad_name, name_twice, no_pattern, step_outside, bit_twice, strange_line,
  unclosed, Result, ok, err, ◌>>=◌, Checked, accepted, rejected, validate_dag,
}
use correlation_engine.Compile.Tokens.{parse_step, parse_dag_step}

-- A pattern of either kind: its name, the UTF-8 bytes of the text, and its steps.
pub record Block {ℓ} (S : Type ℓ) : Type ℓ where
  pub name : List ℕ
  pub steps : List S

-- the variables `patterns` and `current`
pub record Compiler {ℓ} (S : Type ℓ) : Type ℓ where
  pub patterns : List (Block S)
  pub current : Option (Block S)

abbrev pub first_token : List (List ℕ) → List ℕ
first_token [] = []
first_token (t ∷ ts) = t

module _ {ℓ} {S : Type ℓ} where
  abbrev pub no_patterns : Compiler S
  no_patterns = record { patterns = []; current = none }

  unfoldable pub has_name : List ℕ → List (Block S) → Bool
  has_name name [] = false
  has_name name (p ∷ ps) = equal p.name name || has_name name ps

  unfoldable pub open_pattern : ℕ → List ℕ → Compiler S → Result (Compiler S)
  open_pattern line name c = elim c.current [
    | some p ↦ err line pattern_open
    | none ↦
        if is_nil name || has_whitespace name
        then err line bad_name
        else if has_name (utf8 name) c.patterns
        then err line name_twice
        else ok (record c { current = some (record { name = utf8 name; steps = [] }) })
  ]

  unfoldable pub end_pattern :
      (ℕ → Block S → Result (Block S)) → ℕ → Compiler S → Result (Compiler S)
  end_pattern close line c = elim c.current [
    | none ↦ err line no_pattern
    | some p ↦ do
      closed ← close line p
      ok (record { patterns = c.patterns ++ (closed ∷ []); current = none })
  ]

  unfoldable pub add_step :
      (ℕ → List ℕ → List S → Result (List S)) → ℕ → List ℕ → Compiler S → Result (Compiler S)
  add_step add line rest c = elim c.current [
    | none ↦ err line step_outside
    | some p ↦ do
      steps ← add line rest p.steps
      ok (record c { current = some (record p { steps = steps }) })
  ]

  abbrev pub closed_only : ℕ → Compiler S → Result (List (Block S))
  closed_only last c = elim c.current [ none ↦ ok c.patterns | some p ↦ err last unclosed ]

-- `compile` and `compile_dag` differ in how a step joins the open pattern, and in what is asked of the
-- pattern at its `end`.
module _ {ℓ} {S : Type ℓ} (add : ℕ → List ℕ → List S → Result (List S))
    (close : ℕ → Block S → Result (Block S)) where
  -- one line that is not empty and no comment
  unfoldable pub read_line : ℕ → List ℕ → Compiler S → Result (Compiler S)
  read_line number line c =
      let keyword = first_token (split_whitespace line) in
      if equal keyword (codes "pattern")
      then open_pattern number (trim (drop 7 line)) c
      else if equal line (codes "end")
      then end_pattern close number c
      else if equal keyword (codes "step")
      then add_step add number (trim (drop 4 line)) c
      else err number strange_line

  abbrev pub line_of : ℕ → List ℕ → Compiler S → Result (Compiler S)
  line_of number line c =
      if is_nil line || starts_with b'#' line then ok c else read_line number line c

  unfoldable pub read_lines : ℕ → List (List ℕ) → Compiler S → Result (Compiler S)
  read_lines number [] c = ok c
  read_lines number (raw ∷ raws) c = do
    c' ← line_of number (trim raw) c
    read_lines (number + 1) raws c'

  unfoldable pub compile_blocks : List ℕ → Result (List (Block S))
  compile_blocks src = do
    c ← read_lines 1 (lines src) no_patterns
    closed_only (length (lines src)) c

unfoldable pub add_linear : ℕ → List ℕ → List Step → Result (List Step)
add_linear line rest steps = do s ← parse_step rest line; ok (steps ++ (s ∷ []))

unfoldable pub close_linear : ℕ → Block Step → Result (Block Step)
close_linear line p = elim p.steps [ [] ↦ err line no_steps | s ∷ ss ↦ ok p ]

unfoldable pub has_bit : ℕ → List DagStep → Bool
has_bit bit [] = false
has_bit bit (s ∷ ss) = s.bit == bit || has_bit bit ss

unfoldable pub add_dag : ℕ → List ℕ → List DagStep → Result (List DagStep)
add_dag line rest steps = do
  s ← parse_dag_step rest line
  if has_bit s.bit steps then err line bit_twice else ok (steps ++ (s ∷ []))

abbrev pub as_dag : Block DagStep → DagPattern
as_dag p = record { name = p.name; steps = p.steps }

abbrev pub as_linear : Block Step → Pattern
as_linear p = record { name = p.name; steps = p.steps }

-- `validate_dag(&p, lineno)?;` before the pattern is pushed
abbrev pub or_rejected : Block DagStep → Checked → Result (Block DagStep)
or_rejected p accepted = ok p
or_rejected p (rejected line why) = err line why

unfoldable pub close_dag : ℕ → Block DagStep → Result (Block DagStep)
close_dag line p = or_rejected p (validate_dag (as_dag p) line)

abbrev pub map_blocks {ℓ κ} : {A : Type ℓ} {B : Type κ} → (A → B) → List A → List B
map_blocks f [] = []
map_blocks f (a ∷ as') = f a ∷ map_blocks f as'

unfoldable pub compile : List ℕ → Result RuleSet
compile src = do
  ps ← compile_blocks add_linear close_linear src
  ok (record { patterns = map_blocks as_linear ps })

unfoldable pub compile_dag : List ℕ → Result DagRuleSet
compile_dag src = do
  ps ← compile_blocks add_dag close_dag src
  ok (record { patterns = map_blocks as_dag ps })

unfoldable pub compile_to_bytes : List ℕ → Result (List ℕ)
compile_to_bytes src = do rules ← compile src; ok (encode rules)

unfoldable pub compile_dag_to_bytes : List ℕ → Result (List ℕ)
compile_dag_to_bytes src = do rules ← compile_dag src; ok (encode_dag rules)
