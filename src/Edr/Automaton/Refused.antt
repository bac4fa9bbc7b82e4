-- ===== src/Edr/Automaton/Refused.antt =====
-- What `try_commit` of v1/engine/src/lib.rs answers, and why it refuses a step.
use correlation_engine.Prelude.{ℕ, ◌+◌, ◌%◌, ◌<◌, ◌≡◌, ◌≢◌, ◌⊎◌, true, Option, none, some, List}
use correlation_engine.Prelude.Lists.{get_elem?}
use correlation_engine.Prelude.Bits.{testb, Subset}
use correlation_engine.Prelude.Maps.{get}
use correlation_engine.Edr.Automaton.{
  Roles, value_named, RoleSource, Step, Scope, Automaton, Nodes, RoleBinding,
}
use correlation_engine.Edr.Automaton.Scopes.{InScope}
use correlation_engine.Edr.Automaton.Bindings.{Names}

-- a binding to an image that the event does not have, or whose role has another node than the one it names
pub record IsConflict (bound : Roles) (e : Nodes) (b : RoleBinding) : Type 0 where
  pub clash :
      ((b.source ≡ RoleSource.image) × (e.img_uid ≡ none))
      ⊎ ((u : ℕ) × (w : ℕ) × Names e b.source u × (value_named b.role bound ≡ some w) × (w ≢ u))

Refuses : Roles → Nodes → List RoleBinding → Option Roles → Type 0
Refuses bound e bs none =
    (n : ℕ) × (b : RoleBinding) × (get_elem? bs n ≡ some b) × IsConflict bound e b
Refuses bound e bs (some rs) = Unit

-- The reasons for which a step is not committed.
pub data Refusal (step : Step) (scope : Scope) (ts : ℕ) (e : Nodes) (a : Automaton) : Type 0 where
  done : testb (step.bit % 64) a.completed_mask ≡ true → Refusal step scope ts e a
  early : ¬ Subset step.prereq_mask a.completed_mask → Refusal step scope ts e a
  late :
      step.seg_window < ts
      → ((i t : ℕ)
          → i < 64
          → testb i step.prereq_mask ≡ true
          → get i a.step_ts ≡ some t
          → t + step.seg_window < ts)
      → Refusal step scope ts e a
  outside : ¬ InScope e.a_uid a.bound_nodes scope → Refusal step scope ts e a
  unbound :
      (n : ℕ) (b : RoleBinding)
      → get_elem? step.bindings n ≡ some b
      → IsConflict a.bound_nodes e b
      → Refusal step scope ts e a

Answered : Step → Scope → ℕ → Nodes → Automaton → Option Automaton → Type 0
Answered step scope ts e a none = Refusal step scope ts e a
Answered step scope ts e a (some a') = Unit
