-- ===== src/Graph/Sweep.antt =====
-- `advance` of base.rs and of v0_0_1.rs sweep the automata alike.
use correlation_engine.Prelude.{
  ℕ, ◌+◌, ◌≡◌, refl, ap, Option, some, List, [], ◌∷◌, ◌++◌, if◌then◌else◌, ◌>>=◌,
}
use mathlib.Core.Path.{ap₂, fun_ext}
use correlation_engine.Prelude.Lists.{get_elem?}
use correlation_engine.Prelude.Maps.{Map, get, insert, get_or_default}
use correlation_engine.Rules.{Step, Pattern}
use correlation_engine.Detector.{Reaction, Tagged, react}
use correlation_engine.Lines
use correlation_engine.Linear
use correlation_engine.Linear.{Automaton}
use correlation_engine.Graph.{
  append_automata, step_matches, push_automaton, seed, advance_automaton, advance_automata,
  advance_all,
}

pub append_automata-eq :
    (moved into : Map (List Automaton))
    → append_automata moved into ≡ Lines.append_automata moved into
unfolding append_automata Lines.append_automata
append_automata-eq [] into = refl
append_automata-eq ((pid, autos) ∷ moved) into =
    append_automata-eq moved (insert pid (get_or_default [] (get pid into) ++ autos) into)

pub seed-eq :
    (t : Tagged) (pid : ℕ) (ps : List Pattern) (m : Map (List Automaton)) (r : Reaction)
    → seed t pid ps m r ≡ Linear.seed t pid ps m r
unfolding seed Linear.seed step_matches Linear.step_matches push_automaton Linear.push_automaton
seed-eq t pid [] m r = refl
seed-eq t pid (p ∷ ps) m r =
    ap (λ (f : Step → Option (Map (List Automaton) × Reaction)). get_elem? p.steps 0 >>= f)
      (fun_ext λ step.
        seed-eq t (pid + 1) ps
          (if Linear.step_matches t step then Linear.push_automaton t pid m else m)
          (if Linear.step_matches t step then react step.action t.event.actor r else r))

advance_automata-eq :
    (t : Tagged) (steps : List Step) (as' : List Automaton) (r : Reaction)
    → advance_automata t steps as' r ≡ Linear.advance_automata t steps as' r
unfolding advance_automata Linear.advance_automata advance_automaton Linear.advance_automaton
    step_matches Linear.step_matches
advance_automata-eq t steps [] r = refl
advance_automata-eq t steps (a ∷ as') r =
    let (a', r') = Linear.advance_automaton t steps a r in
    ap {B = List Automaton × Reaction} (λ q. (a' ∷ q.0, q.1)) (advance_automata-eq t steps as' r')

-- one entry of the map, with the sweep over the rest of it
abbrev finish :
    ℕ
    → (Reaction → Option (Map (List Automaton) × Reaction))
    → List Automaton × Reaction
    → Option (Map (List Automaton) × Reaction)
finish pid rest q = rest q.1 >>= λ x. some ((pid, q.0) ∷ x.0, x.1)

pub advance_all-eq :
    (t : Tagged) (ps : List Pattern) (m : Map (List Automaton)) (r : Reaction)
    → advance_all t ps m r ≡ Linear.advance_all t ps m r
unfolding advance_all Linear.advance_all
advance_all-eq t ps [] r = refl
advance_all-eq t ps ((pid, autos) ∷ m) r =
    let rest : advance_all t ps m ≡ Linear.advance_all t ps m =
      fun_ext λ r'. advance_all-eq t ps m r' in
    ap (λ (f : Pattern → Option (Map (List Automaton) × Reaction)). get_elem? ps pid >>= f)
      (fun_ext λ p. ap₂ (finish pid) rest (advance_automata-eq t p.steps autos r))
