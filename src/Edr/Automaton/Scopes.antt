-- ===== src/Edr/Automaton/Scopes.antt =====
-- The scope test of `try_commit` of v1/engine/src/lib.rs.
use correlation_engine.Prelude.{
  ℕ, zero, suc, ◌≡◌, refl, ap, true, some, List, [], ◌∷◌, ◌==◌, ==_iff, arith, Bool-cases, some_inj,
  pair_inj, inl, inr,
}
use correlation_engine.Prelude.Lists.{get_elem?}
use correlation_engine.Edr.Automaton.{Roles, Scope, Automaton, binds_actor, scope_ok}

-- the scope of a pattern allows the actor: in the scope `same_actor` it is bound to some role
pub data InScope (a_uid : ℕ) (bound : Roles) : Scope → Type 0 where
  in_storyline : InScope a_uid bound Scope.same_storyline
  anywhere : InScope a_uid bound Scope.free
  by_role :
      (n : ℕ) (r : List ℕ)
      → get_elem? bound n ≡ some (r, a_uid)
      → InScope a_uid bound Scope.same_actor

binds_actor_sound :
    (a_uid : ℕ) (m : Roles)
    → binds_actor a_uid m ≡ true
    → (n : ℕ) × (r : List ℕ) × (get_elem? m n ≡ some (r, a_uid))
unfolding binds_actor
binds_actor_sound a_uid [] h = absurd (ground arith)
binds_actor_sound a_uid ((r, u) ∷ m) h = elim (Bool-cases (u == a_uid)) [
  | inl same ↦ (0, r, ap (λ (v : ℕ). some (r, v)) ((==_iff u a_uid).0 same))
  | inr other ↦ let (n, q, at) = binds_actor_sound a_uid m (rw other at h) in (suc n, q, at)
]

binds_actor_complete :
    (a_uid : ℕ) (m : Roles) (n : ℕ) (r : List ℕ)
    → get_elem? m n ≡ some (r, a_uid)
    → binds_actor a_uid m ≡ true
unfolding binds_actor
binds_actor_complete a_uid [] n r at = absurd cc
binds_actor_complete a_uid ((q, u) ∷ m) zero r at =
    let is : u ≡ a_uid = (pair_inj (some_inj at)).1 in ground (arith, (==_iff u a_uid).1 is)
binds_actor_complete a_uid ((q, u) ∷ m) (suc n) r at =
    ground (arith, binds_actor_complete a_uid m n r at)

pub scope_ok-InScope :
    (scope : Scope) (a_uid : ℕ) (a : Automaton)
    → scope_ok scope a_uid a ≡ true
    → InScope a_uid a.bound_nodes scope
unfolding scope_ok
scope_ok-InScope Scope.same_storyline a_uid a h = in_storyline
scope_ok-InScope Scope.free a_uid a h = anywhere
scope_ok-InScope Scope.same_actor a_uid a h =
    let (n, r, at) = binds_actor_sound a_uid a.bound_nodes h in by_role n r at

pub InScope-scope_ok :
    (scope : Scope) (a_uid : ℕ) (a : Automaton)
    → InScope a_uid a.bound_nodes scope
    → scope_ok scope a_uid a ≡ true
unfolding scope_ok
InScope-scope_ok _ a_uid a in_storyline = refl
InScope-scope_ok _ a_uid a anywhere = refl
InScope-scope_ok _ a_uid a (by_role n r at) = binds_actor_complete a_uid a.bound_nodes n r at
