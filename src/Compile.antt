-- ===== src/Compile.antt =====
-- engine_rules/src/lib.rs: the errors of the rule compiler, and `validate_dag`, what it asks of a pattern
-- before it accepts it.
pub mod Reach
pub mod Fuel
pub mod Exact
pub mod Outcomes
pub mod Shape
pub mod Tokens
pub mod Ranges
pub mod Steps
pub mod Source
pub mod Accepted
pub mod Shipped
use correlation_engine.Prelude.{
  ℕ, zero, suc, ◌-◌, ◌^◌, Bool, true, false, not, ◌&&◌, ◌||◌, List, [], ◌∷◌, bit_and, bit_or, ◌==◌,
  if◌then◌else◌,
}
use correlation_engine.Prelude.Lists.{length}
use correlation_engine.Rules.{DagStep, DagPattern, bit_mask}

-- one constructor for each message, without the text that it quotes
pub data Fault : Type 0 where
  no_steps no_root undeclared unreachable : Fault
  not_key_value bad_bit bit_range bad_prereq prereq_range strange_op strange_ttp : Fault
  action_twice strange_key no_bit strange_action strange_disarm_op empty_disarm : Fault
  pattern_open bad_name name_twice no_pattern step_outside bit_twice strange_line unclosed : Fault

-- `Result<_, CompileError>`
pub data Result {ℓ} (A : Type ℓ) : Type ℓ where
  ok : A → Result A
  err : (line : ℕ) → Fault → Result A

infixl 5 ◌>>=◌
abbrev pub ◌>>=◌ {ℓ κ} : {A : Type ℓ} {B : Type κ} → Result A → (A → Result B) → Result B
ok a >>= f = f a
err line why >>= f = err line why

pub data Checked : Type 0 where
  accepted : Checked
  rejected : (line : ℕ) → Fault → Checked

-- `fold(0, |a, b| a | b)` over the steps' bits
unfoldable pub declared : List DagStep → ℕ → ℕ
declared [] mask = mask
declared (s ∷ ss) mask = declared ss (bit_or mask (bit_mask s))

unfoldable pub any_root : List DagStep → Bool
any_root [] = false
any_root (s ∷ ss) = s.prereq_mask == 0 || any_root ss

unfoldable pub any_undeclared : ℕ → List DagStep → Bool
any_undeclared mask [] = false
any_undeclared mask (s ∷ ss) =
    not (bit_and s.prereq_mask (2 ^ 64 - 1 - mask) == 0) || any_undeclared mask ss

unfoldable pub opens : ℕ → DagStep → Bool
opens reached s =
    bit_and reached (bit_mask s) == 0 && (bit_and s.prereq_mask reached == s.prereq_mask)

-- one round of the fixpoint: the bits reached, and whether they grew
unfoldable pub round : List DagStep → ℕ → Bool → ℕ × Bool
round [] reached grew = (reached, grew)
round (s ∷ ss) reached grew =
    round ss (if opens reached s then bit_or reached (bit_mask s) else reached)
      (opens reached s || grew)

-- the `loop`, on fuel: each round but the last reaches a step
unfoldable pub reach : ℕ → List DagStep → ℕ → ℕ
reach zero steps reached = reached
reach (suc fuel) steps reached =
    let (next, grew) = round steps reached false in
    let rest = reach fuel steps next in if grew then rest else next

unfoldable pub is_no_steps : List DagStep → Bool
is_no_steps [] = true
is_no_steps (s ∷ ss) = false

unfoldable pub validate_dag : DagPattern → ℕ → Checked
validate_dag p line =
    if is_no_steps p.steps
    then rejected line no_steps
    else if not (any_root p.steps)
    then rejected line no_root
    else if any_undeclared (declared p.steps 0) p.steps
    then rejected line undeclared
    else if not (reach (length p.steps) p.steps 0 == declared p.steps 0)
    then rejected line unreachable
    else accepted
