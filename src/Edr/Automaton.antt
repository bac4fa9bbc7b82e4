-- ===== src/Edr/Automaton.antt =====
-- The automata of v1/engine/src/lib.rs (`Automaton`, `try_commit`, `bits`) on the steps of
-- v1/engine/src/pattern.rs. A role is the code points of its name. `1 << bit` takes the bit modulo 64, as a
-- release build does.
pub mod Scopes
pub mod Bindings
pub mod Commit
pub mod Tables
pub mod Order
pub mod Refused
use correlation_engine.Prelude.{
  ℕ, zero, suc, ◌+◌, ◌-◌, ◌/◌, ◌%◌, ◌^◌, min, max, bit_and, bit_or, Bool, true, false, not, ◌&&◌,
  ◌||◌, Option, none, some, List, [], ◌∷◌, ◌++◌, ◌==◌, ltb, if◌then◌else◌, ◌>>=◌,
}
use correlation_engine.Prelude.Maps.{Map, get, insert}
use correlation_engine.Prelude.Texts.{equal}

-- `HashMap<String, V>`
abbrev pub Named {ℓ} : Type ℓ → Type ℓ
Named V = List (List ℕ × V)

module _ {ℓ} {V : Type ℓ} where
  unfoldable pub value_named : List ℕ → Named V → Option V
  value_named r [] = none
  value_named r ((q, u) ∷ m) = if equal q r then some u else value_named r m

  unfoldable pub assign : List ℕ → V → Named V → Named V
  assign r v [] = (r, v) ∷ []
  assign r v ((q, u) ∷ m) = if equal q r then (q, v) ∷ m else (q, u) ∷ assign r v m

abbrev pub Roles : Type 0
Roles = Named ℕ

pub data RoleSource : Type 0 where
  object image actor : RoleSource

pub record RoleBinding : Type 0 where
  pub role : List ℕ
  pub source : RoleSource

pub data Scope : Type 0 where
  same_storyline same_actor free : Scope

-- the fields of `Step` that `try_commit` reads
pub record Step : Type 0 where
  pub bit : ℕ
  pub prereq_mask : ℕ
  pub seg_window : ℕ
  pub bindings : List RoleBinding

pub record Automaton : Type 0 where
  pub pattern_idx : ℕ
  pub completed_mask : ℕ
  pub step_ts : Map ℕ
  pub bound_nodes : Roles
  pub armed : Bool

-- `Automaton::new`
abbrev pub new : ℕ → Automaton
new pattern_idx = record {
  pattern_idx = pattern_idx;
  completed_mask = 0;
  step_ts = [];
  bound_nodes = [];
  armed = false;
}

-- `Automaton::has`
unfoldable pub has : ℕ → Automaton → Bool
has bit a = not (bit_and a.completed_mask (2 ^ (bit % 64)) == 0)

-- the set bits, from the lowest: of `n` bits from the bit `i` on
unfoldable pub bits_from : (n i mask : ℕ) → List ℕ
bits_from zero i mask = []
bits_from (suc n) i mask =
    let rest = bits_from n (suc i) (mask / 2) in if mask % 2 == 1 then i ∷ rest else rest

unfoldable pub bits : ℕ → List ℕ
bits mask = bits_from 64 0 mask

abbrev pub later : ℕ → Option ℕ → ℕ
later t none = t
later t (some s) = max t s

-- the loop that computes `t_enabled`
unfoldable pub latest : Map ℕ → ℕ → List ℕ → ℕ
latest step_ts t [] = t
latest step_ts t (b ∷ bs) = latest step_ts (later t (get b step_ts)) bs

unfoldable pub binds_actor : ℕ → Roles → Bool
binds_actor a_uid [] = false
binds_actor a_uid ((r, u) ∷ m) = u == a_uid || binds_actor a_uid m

unfoldable pub scope_ok : Scope → ℕ → Automaton → Bool
scope_ok same_storyline a_uid a = true
scope_ok same_actor a_uid a = binds_actor a_uid a.bound_nodes
scope_ok free a_uid a = true

-- the nodes of an event
pub record Nodes : Type 0 where
  pub a_uid : ℕ
  pub o_uid : ℕ
  pub img_uid : Option ℕ

abbrev pub node_of : RoleSource → Nodes → Option ℕ
node_of object e = some e.o_uid
node_of actor e = some e.a_uid
node_of image e = e.img_uid

-- no node is bound to the role, or this one
abbrev pub agrees : Option ℕ → ℕ → Bool
agrees none uid = true
agrees (some existing) uid = existing == uid

-- the loop over the bindings: `none` is its early `return false`
unfoldable pub resolve : Roles → Nodes → List RoleBinding → Option Roles
resolve bound e [] = some []
resolve bound e (b ∷ bs) = node_of b.source e >>= (λ uid. resolve bound e bs >>= (λ rest.
    if agrees (value_named b.role bound) uid then some ((b.role, uid) ∷ rest) else none))

unfoldable pub bind_all : Roles → Roles → Roles
bind_all [] bound = bound
bind_all ((r, u) ∷ rs) bound = bind_all rs (assign r u bound)

-- COMMIT_STEP
unfoldable pub commit : Step → ℕ → Automaton → Roles → Automaton
commit step ts a resolved = record a {
  completed_mask = bit_or a.completed_mask (2 ^ (step.bit % 64));
  step_ts = insert step.bit ts a.step_ts;
  bound_nodes = bind_all resolved a.bound_nodes;
}

abbrev pub committed : Step → ℕ → Automaton → Option Roles → Option Automaton
committed step ts a none = none
committed step ts a (some resolved) = some (commit step ts a resolved)

-- `none` is `false`, which leaves the automaton as it was
unfoldable pub try_commit : Step → Scope → (ts : ℕ) → Nodes → Automaton → Option Automaton
try_commit step scope ts e a =
    if has step.bit a
    then none
    else if not (bit_and step.prereq_mask a.completed_mask == step.prereq_mask)
    then none
    else if not (step.prereq_mask == 0)
        && ltb step.seg_window (ts - latest a.step_ts 0 (bits step.prereq_mask))
    then none
    else if not (scope_ok scope e.a_uid a)
    then none
    else committed step ts a (resolve a.bound_nodes e step.bindings)

-- ---- what `merge` does to automata

abbrev pub earlier : ℕ → Option ℕ → ℕ
earlier ts none = ts
earlier ts (some t) = min t ts

unfoldable pub merge_ts : (child root : Map ℕ) → Map ℕ
merge_ts [] m = m
merge_ts ((bit, ts) ∷ c) m = merge_ts c (insert bit (earlier ts (get bit m)) m)

abbrev pub or_assign : Option ℕ → List ℕ → ℕ → Roles → Roles
or_assign none r u m = assign r u m
or_assign (some w) r u m = m

unfoldable pub merge_roles : (child root : Roles) → Roles
merge_roles [] m = m
merge_roles ((r, u) ∷ c) m = merge_roles c (or_assign (value_named r m) r u m)

-- `existing` takes in the automaton `a` of the same pattern
unfoldable pub take_over : (existing a : Automaton) → Automaton
take_over existing a = record existing {
  completed_mask = bit_or existing.completed_mask a.completed_mask;
  step_ts = merge_ts a.step_ts existing.step_ts;
  bound_nodes = merge_roles a.bound_nodes existing.bound_nodes;
}

abbrev pub taken_in : Option Automaton → Automaton → Automaton
taken_in none a = a
taken_in (some existing) a = take_over existing a

-- the loop over the automata of the child, by the ids of their patterns
unfoldable pub merge_automata : (child root : Named Automaton) → Named Automaton
merge_automata [] m = m
merge_automata ((pid, a) ∷ c) m = merge_automata c (assign pid (taken_in (value_named pid m) a) m)

-- `automata.get_mut(pid).unwrap().armed = true`
abbrev pub as_armed : Automaton → Automaton
as_armed a = record a { armed = true }
