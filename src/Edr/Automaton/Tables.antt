-- ===== src/Edr/Automaton/Tables.antt =====
-- What holds of every automaton of a storyline of v1/engine/src/lib.rs, by the ids of the patterns.
use correlation_engine.Prelude.{ℕ, ◌≡◌, sym, some, List, [], ◌∷◌, Bool-cases, some_inj, inl, inr}
use mathlib.Core.Path.{subst}
use correlation_engine.Prelude.Lists.{All}
use correlation_engine.Prelude.Texts.{equal}
use correlation_engine.Edr.Automaton.{Named, value_named, assign, Automaton}
use correlation_engine.Edr.Automaton.Bindings.{equal_sound}

module _ (P : List ℕ → Automaton → Type 0) where
  abbrev pub AllNamed : Named Automaton → Type 0
  AllNamed = All (λ (p : List ℕ × Automaton). P p.0 p.1)

  pub assign-AllNamed :
      (pid : List ℕ) (a : Automaton) (m : Named Automaton)
      → P pid a
      → AllNamed m
      → AllNamed (assign pid a m)
  unfolding assign
  assign-AllNamed pid a [] p h = (p, tt)
  assign-AllNamed pid a ((q, b) ∷ m) p (x, h) = elim (Bool-cases (equal q pid)) [
    | inl same ↦ rw same (subst (λ (k : List ℕ). P k a) (sym (equal_sound q pid same)) p, h)
    | inr other ↦ rw other (x, assign-AllNamed pid a m p h)
  ]

  pub value_named-AllNamed :
      (pid : List ℕ) (a : Automaton) (m : Named Automaton)
      → AllNamed m
      → value_named pid m ≡ some a
      → P pid a
  unfolding value_named
  value_named-AllNamed pid a [] h e = absurd cc
  value_named-AllNamed pid a ((q, b) ∷ m) (x, h) e = elim (Bool-cases (equal q pid)) [
    | inl same ↦
        subst (λ (c : Automaton). P pid c) (some_inj (rw same at e))
          (subst (λ (k : List ℕ). P k b) (equal_sound q pid same) x)
    | inr other ↦ value_named-AllNamed pid a m h (rw other at e)
  ]
