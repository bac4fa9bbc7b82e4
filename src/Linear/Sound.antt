-- ===== src/Linear/Sound.antt =====
-- The stages of v0_0_1.rs (engine_core/src): every automaton belongs to a pattern and has matched at
-- least one and at most all of its steps.
use correlation_engine.Prelude.{
  ℕ, suc, ◌+◌, ◌≤◌, ◌≡◌, ◌≢◌, refl, ◌∙◌, ap, some, List, [], ◌∷◌, if◌then◌else◌, arith, Bool-cases,
  Option-cases, inl, inr,
}
use correlation_engine.Prelude.Lists.{length, get_elem?, lt_of_get_elem?, All}
use correlation_engine.Prelude.Maps.{Map}
use correlation_engine.Rules.{Step, Pattern}
use correlation_engine.Detector.{Tagged, Reaction, react}
use correlation_engine.Lines.Carried.{AreAllowed, added_entry}
use correlation_engine.Linear.{
  Automaton, step_matches, push_automaton, seed, advance_automaton, advance_automata, advance_all,
}

abbrev pub HasSteps : Pattern → Type 0
HasSteps p = p.steps ≢ []

abbrev pub FitsLinear : Pattern → Automaton → Type 0
FitsLinear p a = (1 ≤ a.stage) × (a.stage ≤ length p.steps)

first_step : (steps : List Step) → steps ≢ [] → (s : Step) × (get_elem? steps 0 ≡ some s)
first_step [] h = absurd (h refl)
first_step (s ∷ ss) h = (s, refl)

advance_automaton-FitsLinear :
    (t : Tagged) (p : Pattern) (a : Automaton) (r : Reaction)
    → FitsLinear p a
    → FitsLinear p (advance_automaton t p.steps a r).0
unfolding advance_automaton
advance_automaton-FitsLinear t p a r h = elim (Option-cases (get_elem? p.steps a.stage)) [
  | inl e ↦ ground (arith, e)
  | inr (step, e) ↦ ground (arith, e, lt_of_get_elem? p.steps a.stage e)
]

advance_automata-FitsLinear :
    (t : Tagged) (p : Pattern) (as' : List Automaton) (r : Reaction)
    → All (FitsLinear p) as'
    → All (FitsLinear p) (advance_automata t p.steps as' r).0
unfolding advance_automata
advance_automata-FitsLinear t p [] r h = tt
advance_automata-FitsLinear t p (a ∷ as') r h = (
  advance_automaton-FitsLinear t p a r h.0,
  advance_automata-FitsLinear t p as' (advance_automaton t p.steps a r).1 h.1,
)

module _ (patterns : List Pattern) where
  push_automaton-AreAllowed :
      (t : Tagged) (pid : ℕ) (m : Map (List Automaton)) (p : Pattern)
      → get_elem? patterns pid ≡ some p
      → HasSteps p
      → AreAllowed patterns FitsLinear m
      → AreAllowed patterns FitsLinear (push_automaton t pid m)
  unfolding push_automaton
  push_automaton-AreAllowed t pid m p at full ok =
      let (s, first) = first_step p.steps full in
      added_entry patterns FitsLinear pid (record { stage = 1; stage_ts = t.event.ts } ∷ []) m p at
        ((omega arith, omega (arith, lt_of_get_elem? p.steps 0 first)), tt) ok

  -- Part (a) of `advance` never indexes an empty pattern.
  pub seed_total :
      (t : Tagged) (pid : ℕ) (ps : List Pattern) (m : Map (List Automaton)) (r : Reaction)
      → All HasSteps ps
      → ((k : ℕ) (p : Pattern) → get_elem? ps k ≡ some p → get_elem? patterns (pid + k) ≡ some p)
      → AreAllowed patterns FitsLinear m
      → (m' : Map (List Automaton)) × (r' : Reaction) × (seed t pid ps m r ≡ some (m', r'))
        × AreAllowed patterns FitsLinear m'
  unfolding seed
  seed_total t pid [] m r full w ok = (m, r, refl, ok)
  seed_total t pid (p ∷ ps) m r full w ok =
      let (step, first) = first_step p.steps full.0 in
      let at : get_elem? patterns pid ≡ some p =
        ap (get_elem? patterns) (omega arith) ∙ w 0 p refl in
      let (m', r', run, ok') =
        seed_total t (pid + 1) ps (if step_matches t step then push_automaton t pid m else m)
          (if step_matches t step then react step.action t.event.actor r else r) full.1
          (λ k q e. ap (get_elem? patterns) (omega arith) ∙ w (suc k) q e)
          (elim (Bool-cases (step_matches t step)) [
            | inl e ↦ rw e (push_automaton-AreAllowed t pid m p at full.0 ok)
            | inr e ↦ rw e ok
          ]) in
      (m', r', rw first run, ok')

  -- Part (b) never indexes `rules.patterns` out of range.
  pub advance_all_total :
      (t : Tagged) (m : Map (List Automaton)) (r : Reaction)
      → AreAllowed patterns FitsLinear m
      → (m' : Map (List Automaton)) × (r' : Reaction) × (advance_all t patterns m r ≡ some (m', r'))
        × AreAllowed patterns FitsLinear m'
  unfolding advance_all
  advance_all_total t [] r ok = ([], r, refl, tt)
  advance_all_total t ((pid, autos) ∷ m) r ((p, at, h), hs) =
      let (autos', r') = advance_automata t p.steps autos r in
      let (m', r'', run, ok) = advance_all_total t m r' hs in
      (
        (pid, autos') ∷ m',
        r'',
        rw at (rw run),
        ((p, at, advance_automata-FitsLinear t p autos r h), ok),
      )
