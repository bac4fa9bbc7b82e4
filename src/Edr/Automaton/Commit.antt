-- ===== src/Edr/Automaton/Commit.antt =====
-- What `try_commit` of v1/engine/src/lib.rs has found when it commits a step.
use correlation_engine.Prelude.{
  ℕ, zero, suc, ◌+◌, ◌-◌, ◌/◌, ◌%◌, ◌^◌, ◌≤◌, ◌≡◌, ◌⊎◌, refl, sym, ap, ◌∙◌, bit_and, true, false,
  not, ◌&&◌, ◌||◌, Option, none, some, List, [], ◌∷◌, ◌==◌, ==_iff, ltb, if◌then◌else◌, arith,
  Bool-cases, Option-cases, inl, inr,
}
use mathlib.Core.Path.{subst}
use correlation_engine.Prelude.Lists.{All, get_elem?}
use correlation_engine.Prelude.Bits.{
  testb, Subset, and_eq_self→Subset, and-two_pow_eq_zero, testb-bit_or, testb-two_pow,
}
use correlation_engine.Prelude.Maps.{Map, get, get-insert}
use correlation_engine.Edr.Automaton.{
  Roles, value_named, Step, Scope, Automaton, Nodes, RoleBinding, has, bits_from, bits, later,
  latest, scope_ok, resolve, commit, try_commit,
}
use correlation_engine.Edr.Automaton.Scopes.{InScope, scope_ok-InScope}
use correlation_engine.Edr.Automaton.Bindings.{
  Names, Agrees, Resolved, resolve-Resolved, bind_all_keeps, bind_all_binds, bind_all_only,
}

-- a bit of `mask`, counted from `i`
abbrev IsBit : (i mask b : ℕ) → Type 0
IsBit i mask b = (k : ℕ) × (b ≡ i + k) × (testb k mask ≡ true)

shifted : (i mask : ℕ) (bs : List ℕ) → All (IsBit (suc i) (mask / 2)) bs → All (IsBit i mask) bs
unfolding testb
shifted i mask [] h = tt
shifted i mask (b ∷ bs) ((k, e, t), h) = ((suc k, omega arith, t), shifted i mask bs h)

bits_from-All : (n i mask : ℕ) → All (IsBit i mask) (bits_from n i mask)
unfolding bits_from testb
bits_from-All zero i mask = tt
bits_from-All (suc n) i mask =
    let rest =
      shifted i mask (bits_from n (suc i) (mask / 2)) (bits_from-All n (suc i) (mask / 2)) in
    elim (Bool-cases (mask % 2 == 1)) [
      | inl set ↦ rw set ((0, omega arith, set), rest)
      | inr clear ↦ rw clear rest
    ]

-- the time that `latest` ends with is the one it began with or the stamp of one of the bits
latest_lem :
    (mask : ℕ) (m : Map ℕ) (t : ℕ) (bs : List ℕ)
    → All (IsBit 0 mask) bs
    → (latest m t bs ≡ t) ⊎ ((b : ℕ) × (testb b mask ≡ true) × (get b m ≡ some (latest m t bs)))
unfolding latest
latest_lem mask m t [] h = inl refl
latest_lem mask m t (b ∷ bs) ((k, e, set), h) = elim (latest_lem mask m (later t (get b m)) bs h) [
  | inr found ↦ inr found
  | inl stays ↦ elim (Option-cases (get b m)) [
    | inl absent ↦ inl (stays ∙ ap (later t) absent)
    | inr (s, stamp) ↦ elim (Bool-cases (ltb t s)) [
      | inl above ↦
          let is : latest m (later t (get b m)) bs ≡ s =
            stays ∙ ap (later t) stamp ∙ ground arith in
          let bit : b ≡ k = omega arith in
          inr (b, subst (λ (z : ℕ). testb z mask ≡ true) (sym bit) set, stamp ∙ ap some (sym is))
      | inr below ↦ inl (stays ∙ ap (later t) stamp ∙ ground arith)
    ]
  ]
]

-- What holds of an automaton `a` and an event at `ts` when the step is committed, and of the result.
pub record IsCommitted (step : Step) (scope : Scope) (ts : ℕ) (e : Nodes) (a a' : Automaton)
    : Type 0 where
  pub fresh : testb (step.bit % 64) a.completed_mask ≡ false
  pub ready : Subset step.prereq_mask a.completed_mask
  pub in_time :
      (step.prereq_mask ≡ 0)
      ⊎ (ts ≤ step.seg_window)
      ⊎ ((b : ℕ) × (t : ℕ) × (testb b step.prereq_mask ≡ true)
          × (get b a.step_ts ≡ some t)
          × (ts ≤ t + step.seg_window))
  pub in_scope : InScope e.a_uid a.bound_nodes scope
  pub completed :
      (i : ℕ) → testb i a'.completed_mask ≡ (testb i a.completed_mask || i == step.bit % 64)
  pub stamped : (i : ℕ) → get i a'.step_ts ≡ (if step.bit == i then some ts else get i a.step_ts)
  pub kept :
      (r : List ℕ) (u : ℕ)
      → value_named r a.bound_nodes ≡ some u
      → value_named r a'.bound_nodes ≡ some u
  pub bound :
      (n : ℕ) (b : RoleBinding)
      → get_elem? step.bindings n ≡ some b
      → ((u : ℕ) × Names e b.source u × Agrees a.bound_nodes b.role u)
        × ((w : ℕ) × (value_named b.role a'.bound_nodes ≡ some w))
  pub only :
      (r : List ℕ) (u : ℕ)
      → value_named r a'.bound_nodes ≡ some u
      → (value_named r a.bound_nodes ≡ some u)
        ⊎ ((n : ℕ) × (b : RoleBinding) × (get_elem? step.bindings n ≡ some b)
            × (b.role ≡ r)
            × Names e b.source u)
  pub same_pattern : a'.pattern_idx ≡ a.pattern_idx
  pub same_armed : a'.armed ≡ a.armed

abbrev Committed : Step → Scope → ℕ → Nodes → Automaton → Option Automaton → Type 0
Committed step scope ts e a none = Unit
Committed step scope ts e a (some a') = IsCommitted step scope ts e a a'

commit-IsCommitted :
    (step : Step) (scope : Scope) (ts : ℕ) (e : Nodes) (a : Automaton) (rs : Roles)
    → has step.bit a ≡ false
    → Subset step.prereq_mask a.completed_mask
    → (step.prereq_mask ≡ 0) ⊎ (ts - latest a.step_ts 0 (bits step.prereq_mask) ≤ step.seg_window)
    → scope_ok scope e.a_uid a ≡ true
    → Resolved a.bound_nodes e step.bindings rs
    → IsCommitted step scope ts e a (commit step ts a rs)
unfolding has commit bits
commit-IsCommitted step scope ts e a rs fresh ready timely inside answers = record {
  fresh = ground (arith, and-two_pow_eq_zero a.completed_mask (step.bit % 64));
  ready = ready;
  in_time = elim timely [
    | inl none_needed ↦ inl none_needed
    | inr soon ↦
        elim (latest_lem step.prereq_mask a.step_ts 0 (bits_from 64 0 step.prereq_mask)
          (bits_from-All 64 0 step.prereq_mask)) [
            | inl never ↦ inr (inl (omega arith))
            | inr (b, set, stamp) ↦ inr (
                inr (
                  b,
                  latest a.step_ts 0 (bits_from 64 0 step.prereq_mask),
                  set,
                  stamp,
                  omega arith,
                ))
          ]
  ];
  completed = λ i. ground (
    arith,
    testb-bit_or i a.completed_mask (2 ^ (step.bit % 64)),
    testb-two_pow i (step.bit % 64),
  );
  stamped = λ i. get-insert step.bit i ts a.step_ts;
  in_scope = scope_ok-InScope scope e.a_uid a inside;
  kept = λ r u h. bind_all_keeps a.bound_nodes e step.bindings rs a.bound_nodes r u answers h h;
  bound = λ n b at. bind_all_binds a.bound_nodes e step.bindings rs a.bound_nodes n b answers at;
  only = λ r u h. bind_all_only a.bound_nodes e step.bindings rs a.bound_nodes r u answers h;
  same_pattern = refl;
  same_armed = refl;
}

try_commit-Committed :
    (step : Step) (scope : Scope) (ts : ℕ) (e : Nodes) (a : Automaton)
    → Committed step scope ts e a (try_commit step scope ts e a)
unfolding try_commit
try_commit-Committed step scope ts e a = elim (Bool-cases (has step.bit a)) [
  | inl done ↦ rw done tt
  | inr fresh ↦ elim (Bool-cases (bit_and step.prereq_mask a.completed_mask == step.prereq_mask)) [
    | inr early ↦ rw (fresh, early) tt
    | inl ready ↦
        elim (Bool-cases (
          not (step.prereq_mask == 0)
          && ltb step.seg_window (ts - latest a.step_ts 0 (bits step.prereq_mask)))) [
            | inl late ↦ rw (fresh, ready, late) tt
            | inr timely ↦ elim (Bool-cases (scope_ok scope e.a_uid a)) [
              | inr outside ↦ rw (fresh, ready, timely, outside) tt
              | inl inside ↦ elim (Option-cases (resolve a.bound_nodes e step.bindings)) [
                | inl refused ↦ rw (fresh, ready, timely, inside, refused) tt
                | inr (rs, ok) ↦
                    rw (fresh, ready, timely, inside, ok)
                      (commit-IsCommitted step scope ts e a rs fresh
                        (and_eq_self→Subset step.prereq_mask a.completed_mask
                          ((==_iff _ _).0 ready))
                        (in_window step ts a timely) inside
                        (resolve-Resolved a.bound_nodes e step.bindings rs ok))
              ]
            ]
          ]
  ]
]
  where
    in_window :
        (step : Step) (ts : ℕ) (a : Automaton)
        → (not (step.prereq_mask == 0)
            && ltb step.seg_window (ts - latest a.step_ts 0 (bits step.prereq_mask)))
          ≡ false
        → (step.prereq_mask ≡ 0)
          ⊎ (ts - latest a.step_ts 0 (bits step.prereq_mask) ≤ step.seg_window)
    in_window step ts a h = elim (Bool-cases (step.prereq_mask == 0)) [
      | inl z ↦ inl ((==_iff _ _).0 z)
      | inr nz ↦ inr (ground arith)
    ]

pub try_commit-IsCommitted :
    (step : Step) (scope : Scope) (ts : ℕ) (e : Nodes) (a a' : Automaton)
    → try_commit step scope ts e a ≡ some a'
    → IsCommitted step scope ts e a a'
try_commit-IsCommitted step scope ts e a a' h =
    subst (Committed step scope ts e a) h (try_commit-Committed step scope ts e a)
