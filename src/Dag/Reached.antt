-- ===== src/Dag/Reached.antt =====
-- What the masks of an engine show about its past: the invariant of Dag.Total on the engines that
-- engine_core/src/v0_0_2.rs reaches.
use correlation_engine.Prelude.{
  ℕ, ◌%◌, ◌≡◌, sym, ◌∙◌, ap, true, some, List, [], ◌∷◌, Option-cases, some_inj, pair_inj, inl, inr,
}
use correlation_engine.Prelude.Lists.{get_elem?, All-get_elem?}
use correlation_engine.Prelude.Maps.{get, All-get}
use correlation_engine.Prelude.Bits.{testb, Subset}
use correlation_engine.Rules.{DagStep, DagPattern, DagRuleSet}
use correlation_engine.Detector.{Verdict}
use correlation_engine.Lines.{Storyline, slot}
use correlation_engine.Dag.{Automaton, Engine, Tagged, new, on_event, replay}
use correlation_engine.Dag.Order.{Reachable, Reachable-justified}
use correlation_engine.Lines.Carried.{IsAllowed}
use correlation_engine.Dag.Sound.{FitsDag}
use correlation_engine.Dag.Total.{IsSound, new-IsSound, replay-IsSound}
use correlation_engine.Dag.Disarm.{on_event_cases}

on_event_rules :
    (t : Tagged) (g : Engine) (v : Verdict) (g' : Engine)
    → on_event t g ≡ some (v, g')
    → g'.rules ≡ g.rules
on_event_rules t g v g' run = elim (on_event_cases t g v g' run) [
  | inl (_, _, same) ↦ ap (λ (x : Engine). x.rules) same
  | inr swept ↦ swept.same_rules
]

replay_rules :
    (ts : List Tagged) (g : Engine) (vs : List Verdict) (g' : Engine)
    → replay ts g ≡ some (vs, g')
    → g'.rules ≡ g.rules
unfolding replay
replay_rules [] g vs g' run = ap (λ (x : Engine). x.rules) (sym (pair_inj (some_inj run)).1)
replay_rules (t ∷ ts) g vs g' run = elim (Option-cases (on_event t g)) [
  | inl e ↦ absurd (cc (rw e at run))
  | inr ((v, g1), e) ↦
      let run' = rw e at run in
      elim (Option-cases (replay ts g1)) [
        | inl e' ↦ absurd (cc (rw e' at run'))
        | inr ((vs1, g2), e') ↦
            let same : g2 ≡ g' = (pair_inj (some_inj (rw e' at run'))).1 in
            ap (λ (x : Engine). x.rules) (sym same)
            ∙ replay_rules ts g1 vs1 g2 e'
            ∙ on_event_rules t g v g1 e
      ]
]

-- In every engine that a stream of events leads to from a new one, each milestone that an automaton has
-- set belongs to a step of the automaton's pattern, all of whose prerequisites are set in the same
-- automaton.
pub milestones_justified :
    (rules : DagRuleSet) (ts : List Tagged) (vs : List Verdict) (g : Engine)
    → replay ts (new rules) ≡ some (vs, g)
    → (s : ℕ) (st : Storyline Automaton) → slot g.lines.storylines s ≡ some st
    → (pid : ℕ) (autos : List Automaton) → get pid st.automata ≡ some autos
    → (n : ℕ) (a : Automaton) → get_elem? autos n ≡ some a
    → (i : ℕ) → testb i a.done_mask ≡ true
    → (p : DagPattern) × (k : ℕ) × (step : DagStep) × (get_elem? rules.patterns pid ≡ some p)
      × (get_elem? p.steps k ≡ some step)
      × (step.bit % 64 ≡ i)
      × Subset step.prereq_mask a.done_mask
unfolding new
milestones_justified rules ts vs g run s st at pid autos in_line n a here i set =
    let sound : IsSound g = replay-IsSound ts (new rules) vs g (new-IsSound rules) run in
    let same : g.rules ≡ rules = replay_rules ts (new rules) vs g run in
    let (p, found, masks) =
      All-get (IsAllowed g.rules.patterns FitsDag) pid st.automata (sound.slots_allowed s st at)
        in_line in
    let reached : Reachable p.steps a.done_mask =
      All-get_elem? (λ (x : Automaton). Reachable p.steps x.done_mask) autos n masks here in
    let (k, step, step_at, bit, pre) = Reachable-justified p.steps reached i set in
    (
      p,
      k,
      step,
      ap (λ (x : DagRuleSet). get_elem? x.patterns pid) (sym same) ∙ found,
      step_at,
      bit,
      pre,
    )
