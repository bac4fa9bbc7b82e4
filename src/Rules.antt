-- ===== src/Rules.antt =====
-- engine_core/src/rules.rs: steps and patterns, linear and DAG. A name is its UTF-8 bytes.
use correlation_engine.Prelude.{ℕ, ◌^◌, ◌%◌, Bool, true, ◌&&◌, ◌||◌, List, [], ◌∷◌, Option}
use correlation_engine.Prelude.Maps.{contains, add}
use correlation_engine.Event.{Op, Ttp}
use correlation_engine.Event.OpSet
use correlation_engine.Event.OpSet.{OpSet}

pub data Action : Type 0 where
  block : Action
  disarm : OpSet → Action

pub record StepMatch : Type 0 where
  pub ops : OpSet
  pub ttps : List Ttp

-- `self.ttps.iter().all(|t| ttps.contains(t))`
unfoldable pub all_in : List Ttp → List Ttp → Bool
all_in [] have = true
all_in (t ∷ ts) have = contains t have && all_in ts have

unfoldable pub matches : StepMatch → Op → List Ttp → Bool
matches m op ttps = (OpSet.is_empty m.ops || OpSet.contains m.ops op) && all_in m.ttps ttps

pub record Step : Type 0 where
  pub matcher : StepMatch
  pub action : Option Action

pub record Pattern : Type 0 where
  pub name : List ℕ
  pub steps : List Step

pub record RuleSet : Type 0 where
  pub patterns : List Pattern

pub record DagStep : Type 0 where
  pub matcher : StepMatch
  pub bit : ℕ
  pub prereq_mask : ℕ
  pub action : Option Action

-- `1u64 << self.bit` of a release build, where the shift takes the count modulo 64. A debug build
-- panics from 64 on; both are the power of two below that.
unfoldable pub bit_mask : DagStep → ℕ
bit_mask s = 2 ^ (s.bit % 64)

pub record DagPattern : Type 0 where
  pub name : List ℕ
  pub steps : List DagStep

pub record DagRuleSet : Type 0 where
  pub patterns : List DagPattern

-- the three nested loops of `referenced_ttps`, over the set built so far
insert_ttps : List Ttp → List Ttp → List Ttp
insert_ttps [] set = set
insert_ttps (t ∷ ts) set = insert_ttps ts (add t set)

insert_steps : List DagStep → List Ttp → List Ttp
insert_steps [] set = set
insert_steps (s ∷ ss) set = insert_steps ss (insert_ttps s.matcher.ttps set)

insert_patterns : List DagPattern → List Ttp → List Ttp
insert_patterns [] set = set
insert_patterns (p ∷ ps) set = insert_patterns ps (insert_steps p.steps set)

unfoldable pub referenced_ttps : DagRuleSet → List Ttp
unfolding insert_patterns insert_steps insert_ttps
referenced_ttps r = insert_patterns r.patterns []
