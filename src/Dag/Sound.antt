-- ===== src/Dag/Sound.antt =====
-- Every automaton of the engine belongs to a pattern and has a mask that its partial order allows;
-- and no event makes the engine panic.
use correlation_engine.Prelude.{
  ℕ, suc, ◌+◌, ◌≡◌, refl, ◌∙◌, ap, ◌&&◌, some, List, [], ◌∷◌, ◌==◌, if◌then◌else◌, arith,
  Bool-cases, inl, inr,
}
use correlation_engine.Prelude.Lists.{get_elem?}
use correlation_engine.Prelude.Maps.{Map}
use correlation_engine.Rules.{DagStep, DagPattern}
use correlation_engine.Detector.{Reaction}
use correlation_engine.Lines.Carried.{AreAllowed, added_entry}
use correlation_engine.Dag.{
  Automaton, Tagged, push_automaton, seed_steps, seed, advance_automata, advance_all, step_matches,
}
use correlation_engine.Dag.Order.{Reachable, start, advance_automata-Reachable}

-- an automaton's mask is one that the pattern's order allows
abbrev pub FitsDag : DagPattern → Automaton → Type 0
FitsDag p a = Reachable p.steps a.done_mask

module _ (patterns : List DagPattern) where
  push_automaton-AreAllowed :
      (pid : ℕ) (m : Map (List Automaton)) (p : DagPattern)
      → get_elem? patterns pid ≡ some p
      → AreAllowed patterns FitsDag m
      → AreAllowed patterns FitsDag (push_automaton pid m)
  unfolding push_automaton
  push_automaton-AreAllowed pid m p at ok =
      added_entry patterns FitsDag pid (record { done_mask = 0 } ∷ []) m p at (start, tt) ok

  seed_steps-AreAllowed :
      (t : Tagged) (pid : ℕ) (steps : List DagStep) (m : Map (List Automaton)) (p : DagPattern)
      → get_elem? patterns pid ≡ some p
      → AreAllowed patterns FitsDag m
      → AreAllowed patterns FitsDag (seed_steps t pid steps m)
  unfolding seed_steps
  seed_steps-AreAllowed t pid [] m p at ok = ok
  seed_steps-AreAllowed t pid (step ∷ steps) m p at ok =
      seed_steps-AreAllowed t pid steps
        (if step.prereq_mask == 0 && step_matches t step then push_automaton pid m else m) p at
        (elim (Bool-cases (step.prereq_mask == 0 && step_matches t step)) [
          | inl e ↦ rw e (push_automaton-AreAllowed pid m p at ok)
          | inr e ↦ rw e ok
        ])

  pub seed-AreAllowed :
      (t : Tagged) (pid : ℕ) (ps : List DagPattern) (m : Map (List Automaton))
      → ((k : ℕ) (p : DagPattern) → get_elem? ps k ≡ some p → get_elem? patterns (pid + k) ≡ some p)
      → AreAllowed patterns FitsDag m
      → AreAllowed patterns FitsDag (seed t pid ps m)
  unfolding seed
  seed-AreAllowed t pid [] m w ok = ok
  seed-AreAllowed t pid (p ∷ ps) m w ok =
      seed-AreAllowed t (pid + 1) ps (seed_steps t pid p.steps m)
        (λ k q e. ap (get_elem? patterns) (omega arith) ∙ w (suc k) q e)
        (seed_steps-AreAllowed t pid p.steps m p
          (ap (get_elem? patterns) (omega arith) ∙ w 0 p refl) ok)

  -- Part (b) of `advance` never indexes `rules.patterns` out of range, and keeps the masks allowed.
  pub advance_all_total :
      (t : Tagged) (m : Map (List Automaton)) (r : Reaction)
      → AreAllowed patterns FitsDag m
      → (m' : Map (List Automaton)) × (r' : Reaction) × (advance_all t patterns m r ≡ some (m', r'))
        × AreAllowed patterns FitsDag m'
  unfolding advance_all
  advance_all_total t [] r ok = ([], r, refl, tt)
  advance_all_total t ((pid, autos) ∷ m) r ((p, at, h), hs) =
      let (autos', r') = advance_automata t p.steps autos r in
      let (m', r'', run, ok) = advance_all_total t m r' hs in
      (
        (pid, autos') ∷ m',
        r'',
        rw at (rw run),
        ((p, at, advance_automata-Reachable t p.steps autos r h), ok),
      )
