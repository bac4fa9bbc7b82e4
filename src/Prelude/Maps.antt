-- ===== src/Prelude/Maps.antt =====
-- `BTreeMap` with number keys as an association list in the order of the keys, which is the order
-- in which the program iterates, and `BTreeSet` as the list of its members in order.
use Prim.Native.Nat.{ℕ}
use mathlib.Core.Path.{◌≡◌, refl, sym, ◌∙◌, ap₂, subst}
use mathlib.Core.Bool.{Bool, false, ◌||◌}
use mathlib.Core.List.{List, [], ◌∷◌}
use mathlib.Core.Option.{Option, none, some}
use native.Mathlib.Omega.{arith}
use mathlib.Core.Logic.{inl, inr}
use correlation_engine.Prelude.Tests.{ltb, ◌==◌, ==_iff, Bool-cases, some_inj, if◌then◌else◌}
use correlation_engine.Prelude.Lists.{All}

abbrev pub Map {ℓ} : Type ℓ → Type ℓ
Map V = List (ℕ × V)

module _ {ℓ} {V : Type ℓ} where
  unfoldable pub get : ℕ → Map V → Option V
  get k [] = none
  get k ((j, v) ∷ m) = if k == j then some v else get k m

  unfoldable pub insert : ℕ → V → Map V → Map V
  insert k v [] = (k, v) ∷ []
  insert k v ((j, w) ∷ m) =
      if k == j then (k, v) ∷ m else if ltb k j then (k, v) ∷ (j, w) ∷ m else (j, w) ∷ insert k v m

  pub get-insert :
      (k j : ℕ) (v : V) (m : Map V) → get j (insert k v m) ≡ (if k == j then some v else get j m)
  unfolding get insert
  get-insert k j v [] = ground arith
  get-insert k j v ((i, w) ∷ m) = ground (arith, get-insert k j v m)

  abbrev pub get_or_default : V → Option V → V
  get_or_default d none = d
  get_or_default d (some v) = v

unfoldable pub contains : ℕ → List ℕ → Bool
contains k [] = false
contains k (j ∷ s) = k == j || contains k s

unfoldable pub add : ℕ → List ℕ → List ℕ
add k [] = k ∷ []
add k (j ∷ s) = if k == j then j ∷ s else if ltb k j then k ∷ j ∷ s else j ∷ add k s

unfoldable pub extend : List ℕ → List ℕ → List ℕ
extend s [] = s
extend s (k ∷ ks) = extend (add k s) ks

pub contains-add : (k j : ℕ) (s : List ℕ) → contains j (add k s) ≡ (j == k || contains j s)
unfolding contains add
contains-add k j [] = ground arith
contains-add k j (i ∷ s) = ground (arith, contains-add k j s)

pub contains-extend :
    (j : ℕ) (s ks : List ℕ) → contains j (extend s ks) ≡ (contains j ks || contains j s)
unfolding contains extend
contains-extend j s [] = refl
contains-extend j s (k ∷ ks) = ground (arith, contains-extend j (add k s) ks, contains-add k j s)

module _ {ℓ κ} {V : Type ℓ} (P : ℕ × V → Type κ) where
  pub All-insert : (k : ℕ) (v : V) (m : Map V) → P (k, v) → All P m → All P (insert k v m)
  unfolding insert
  All-insert k v [] h hs = (h, tt)
  All-insert k v ((j, w) ∷ m) h hs = elim (Bool-cases (k == j)) [
    | inl e ↦ rw e (h, hs.1)
    | inr ne ↦ elim (Bool-cases (ltb k j)) [
      | inl lt ↦ rw (ne, lt) (h, hs)
      | inr ge ↦ rw (ne, ge) (hs.0, All-insert k v m h hs.1)
    ]
  ]

  pub All-get : (k : ℕ) (m : Map V) {v : V} → All P m → get k m ≡ some v → P (k, v)
  unfolding get
  All-get k [] hs e = cc
  All-get k ((j, w) ∷ m) {v} hs e = elim (Bool-cases (k == j)) [
    | inl same ↦
        let here : w ≡ v = some_inj (sym (rw same) ∙ e) in
        subst P (ap₂ (λ (x : ℕ) (y : V). (x, y)) (sym ((==_iff k j).0 same)) here) hs.0
    | inr ne ↦ All-get k m hs.1 (sym (rw ne) ∙ e)
  ]
