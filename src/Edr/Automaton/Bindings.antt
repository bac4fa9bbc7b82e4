-- ===== src/Edr/Automaton/Bindings.antt =====
-- The bindings that `try_commit` of v1/engine/src/lib.rs resolves, and the nodes that are bound afterwards.
use correlation_engine.Prelude.{
  ℕ, zero, suc, ◌≡◌, ◌⊎◌, refl, sym, ap, ◌∙◌, true, Option, none, some, List, [], ◌∷◌, ◌==◌, ==_iff,
  arith, Bool-cases, Option-cases, some_inj, inl, inr,
}
use mathlib.Core.Path.{subst}
use correlation_engine.Prelude.Lists.{get_elem?}
use correlation_engine.Prelude.Texts.{equal}
use correlation_engine.Edr.Automaton.{
  Roles, value_named, assign, bind_all, Nodes, RoleSource, RoleBinding, node_of, agrees, resolve,
}

pub equal_sound : (a b : List ℕ) → equal a b ≡ true → a ≡ b
unfolding equal
equal_sound [] [] h = refl
equal_sound [] (b ∷ bs) h = absurd (ground arith)
equal_sound (a ∷ as') [] h = absurd (ground arith)
equal_sound (a ∷ as') (b ∷ bs) h = elim (Bool-cases (a == b)) [
  | inl e ↦ cc ((==_iff a b).0 e, equal_sound as' bs (ground arith))
  | inr e ↦ absurd (ground arith)
]

equal_self : (a : List ℕ) → equal a a ≡ true
unfolding equal
equal_self [] = refl
equal_self (a ∷ as') = ground (arith, (==_iff a a).1 refl, equal_self as')

-- what is bound to `r` stays, unless `r` is bound to something else
bind_keeps :
    (m : Roles) (q r : List ℕ) (v u : ℕ)
    → (q ≡ r → v ≡ u)
    → value_named r m ≡ some u
    → value_named r (assign q v m) ≡ some u
unfolding value_named assign
bind_keeps [] q r v u ok h = absurd (cc h)
bind_keeps ((k, w) ∷ m) q r v u ok h = elim (Bool-cases (equal k q)) [
  | inl same ↦ elim (Bool-cases (equal k r)) [
    | inl both ↦
        rw same (rw both (ap some (ok (sym (equal_sound k q same) ∙ equal_sound k r both))))
    | inr apart ↦ ground (arith)
  ]
  | inr other ↦ ground (arith, bind_keeps m q r v u)
]

assign_self : (m : Roles) (q : List ℕ) (v : ℕ) → value_named q (assign q v m) ≡ some v
unfolding value_named assign
assign_self [] q v = rw (equal_self q) refl
assign_self ((k, w) ∷ m) q v = elim (Bool-cases (equal k q)) [
  | inl same ↦ rw same (rw same refl)
  | inr other ↦ rw other (rw other (assign_self m q v))
]

assign_only :
    (m : Roles) (q r : List ℕ) (v u : ℕ)
    → value_named r (assign q v m) ≡ some u
    → ((q ≡ r) × (v ≡ u)) ⊎ (value_named r m ≡ some u)
unfolding value_named assign
assign_only [] q r v u h = elim (Bool-cases (equal q r)) [
  | inl same ↦ inl (equal_sound q r same, some_inj (rw same at h))
  | inr other ↦ absurd (cc (rw other at h))
]
assign_only ((k, w) ∷ m) q r v u h = elim (Bool-cases (equal k q)) [
  | inl same ↦ elim (Bool-cases (equal k r)) [
    | inl both ↦
        inl
          (sym (equal_sound k q same) ∙ equal_sound k r both, some_inj (rw both at (rw same at h)))
    | inr apart ↦ inr (rw apart (rw apart at (rw same at h)))
  ]
  | inr other ↦ elim (Bool-cases (equal k r)) [
    | inl found ↦ inr (rw found (rw found at (rw other at h)))
    | inr apart ↦ elim (assign_only m q r v u (rw apart at (rw other at h))) [
      | inl new_one ↦ inl new_one
      | inr old ↦ inr (rw apart old)
    ]
  ]
]

-- the node of an event that a binding names
pub data Names (e : Nodes) : RoleSource → ℕ → Type 0 where
  by_object : Names e RoleSource.object e.o_uid
  by_actor : Names e RoleSource.actor e.a_uid
  by_image : {u : ℕ} → e.img_uid ≡ some u → Names e RoleSource.image u

pub node_of-Names : (e : Nodes) (s : RoleSource) (u : ℕ) → node_of s e ≡ some u → Names e s u
node_of-Names e RoleSource.object u h = subst (Names e RoleSource.object) (some_inj h) by_object
node_of-Names e RoleSource.actor u h = subst (Names e RoleSource.actor) (some_inj h) by_actor
node_of-Names e RoleSource.image u h = by_image h

-- no other node than `u` is bound to the role
abbrev pub Agrees : Roles → List ℕ → ℕ → Type 0
Agrees bound r u = (w : ℕ) → value_named r bound ≡ some w → w ≡ u

agrees_lem :
    (bound : Roles) (r : List ℕ) (u : ℕ) → agrees (value_named r bound) u ≡ true → Agrees bound r u
agrees_lem bound r u ok w h = (==_iff w u).0 (rw h at ok)

-- `rs` has a node for the role of each binding, which is the binding's and agrees with `bound`
pub data Resolved (bound : Roles) (e : Nodes) : List RoleBinding → Roles → Type 0 where
  nothing : Resolved bound e [] []
  one_more :
      {bs : List RoleBinding} {rs : Roles} (b : RoleBinding) (u : ℕ)
      → Names e b.source u
      → Agrees bound b.role u
      → Resolved bound e bs rs
      → Resolved bound e (b ∷ bs) ((b.role, u) ∷ rs)

abbrev Answers : Roles → Nodes → List RoleBinding → Option Roles → Type 0
Answers bound e bs none = Unit
Answers bound e bs (some rs) = Resolved bound e bs rs

resolve-Answers :
    (bound : Roles) (e : Nodes) (bs : List RoleBinding) → Answers bound e bs (resolve bound e bs)
unfolding resolve
resolve-Answers bound e [] = nothing
resolve-Answers bound e (b ∷ bs) =
    let rest = resolve-Answers bound e bs in
    elim (Option-cases (node_of b.source e)) [
      | inl absent ↦ rw absent tt
      | inr (uid, node) ↦ elim (Option-cases (resolve bound e bs)) [
        | inl refused ↦ rw (node, refused) tt
        | inr (rs, ok) ↦ elim (Bool-cases (agrees (value_named b.role bound) uid)) [
          | inr conflict ↦ rw (node, ok, conflict) tt
          | inl free ↦
              rw (node, ok, free)
                (one_more b uid (node_of-Names e b.source uid node)
                  (agrees_lem bound b.role uid free) (subst (Answers bound e bs) ok rest))
        ]
      ]
    ]

pub resolve-Resolved :
    (bound : Roles) (e : Nodes) (bs : List RoleBinding) (rs : Roles)
    → resolve bound e bs ≡ some rs
    → Resolved bound e bs rs
resolve-Resolved bound e bs rs ok = subst (Answers bound e bs) ok (resolve-Answers bound e bs)

module _ (bound : Roles) (e : Nodes) where
  pub bind_all_keeps :
      (bs : List RoleBinding) (rs m : Roles) (r : List ℕ) (u : ℕ)
      → Resolved bound e bs rs
      → value_named r bound ≡ some u
      → value_named r m ≡ some u
      → value_named r (bind_all rs m) ≡ some u
  unfolding bind_all
  bind_all_keeps _ _ m r u nothing old h = h
  bind_all_keeps _ _ m r u (one_more {bs = bs} {rs = rs} b v names ok rest) old h =
      bind_all_keeps bs rs (assign b.role v m) r u rest old (
        bind_keeps m b.role r v u
          (λ same. sym (ok u (ap (λ (q : List ℕ). value_named q bound) same ∙ old))) h)

  bind_all_has :
      (bs : List RoleBinding) (rs m : Roles) (r : List ℕ) (u : ℕ)
      → Resolved bound e bs rs
      → value_named r m ≡ some u
      → (w : ℕ) × (value_named r (bind_all rs m) ≡ some w)
  unfolding bind_all
  bind_all_has _ _ m r u nothing h = (u, h)
  bind_all_has _ _ m r u (one_more {bs = bs} {rs = rs} b v names ok rest) h =
      elim (Bool-cases (equal b.role r)) [
        | inl same ↦ bind_all_has bs rs (assign b.role v m) r v rest (
            subst (λ (q : List ℕ). value_named q (assign b.role v m) ≡ some v)
              (equal_sound b.role r same) (assign_self m b.role v))
        | inr other ↦ bind_all_has bs rs (assign b.role v m) r u rest (
            bind_keeps m b.role r v u
              (λ e.
                absurd (
                  cc (sym other ∙ ap (λ (q : List ℕ). equal b.role q) (sym e) ∙ equal_self b.role)))
              h)
      ]

  -- the role of each binding has a node afterwards, and the binding has one that agrees
  pub bind_all_binds :
      (bs : List RoleBinding) (rs m : Roles) (n : ℕ) (b : RoleBinding)
      → Resolved bound e bs rs
      → get_elem? bs n ≡ some b
      → ((u : ℕ) × Names e b.source u × Agrees bound b.role u)
        × ((w : ℕ) × (value_named b.role (bind_all rs m) ≡ some w))
  unfolding bind_all
  bind_all_binds _ _ m n b nothing at = absurd cc
  bind_all_binds _ _ m zero b (one_more {bs = bs} {rs = rs} c v names ok rest) at =
      subst
        (λ (d : RoleBinding).
          ((u : ℕ) × Names e d.source u × Agrees bound d.role u)
          × ((w : ℕ) × (value_named d.role (bind_all rs (assign c.role v m)) ≡ some w)))
        (some_inj at)
        (
          (v, names, ok),
          bind_all_has bs rs (assign c.role v m) c.role v rest (assign_self m c.role v),
        )
  bind_all_binds _ _ m (suc n) b (one_more {bs = bs} {rs = rs} c v names ok rest) at =
      bind_all_binds bs rs (assign c.role v m) n b rest at

  -- a node that is bound afterwards was bound before or is a binding's
  pub bind_all_only :
      (bs : List RoleBinding) (rs m : Roles) (r : List ℕ) (u : ℕ)
      → Resolved bound e bs rs
      → value_named r (bind_all rs m) ≡ some u
      → (value_named r m ≡ some u)
        ⊎ ((n : ℕ) × (b : RoleBinding) × (get_elem? bs n ≡ some b)
            × (b.role ≡ r)
            × Names e b.source u)
  unfolding bind_all
  bind_all_only _ _ m r u nothing h = inl h
  bind_all_only _ _ m r u (one_more {bs = bs} {rs = rs} c v names ok rest) h =
      elim (bind_all_only bs rs (assign c.role v m) r u rest h) [
        | inr (n, b, at, role, by) ↦ inr (suc n, b, at, role, by)
        | inl before ↦ elim (assign_only m c.role r v u before) [
          | inr old ↦ inl old
          | inl (role, is) ↦ inr (0, c, refl, role, subst (Names e c.source) is names)
        ]
      ]
