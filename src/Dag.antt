-- ===== src/Dag.antt =====
-- engine_core/src/v0_0_2.rs: the engine whose patterns are partial orders, over `Lines`.
-- `none` is a panic.
pub mod Order
pub mod Storylines
pub mod Effect
pub mod Disarm
pub mod Total
pub mod Sound
pub mod Reached
pub use correlation_engine.Detector.{Tagged}
use correlation_engine.Prelude.{
  ℕ, ◌+◌, Bool, true, false, ◌&&◌, Option, none, some, List, [], ◌∷◌, ◌++◌, bit_and, bit_or, ◌==◌,
  if◌then◌else◌, ◌>>=◌,
}
use correlation_engine.Prelude.Lists.{get_elem?, set}
use correlation_engine.Prelude.Maps.{Map, get, insert, get_or_default}
use correlation_engine.Event.{Ttp}
use correlation_engine.Event.OpSet.{OpSet}
use correlation_engine.Rules
use correlation_engine.Rules.{DagStep, DagPattern, DagRuleSet, matches, bit_mask}
use correlation_engine.Detector
use correlation_engine.Detector.{Verdict, Reaction, react, is_disarmed}
use correlation_engine.Lines.{Storyline, Lines, no_lines, slot, unify_storyline}

pub record Automaton : Type 0 where
  pub done_mask : ℕ

pub record Engine : Type 0 where
  pub rules : DagRuleSet
  pub lines : Lines Automaton
  pub disarmed : Map OpSet

unfoldable pub new : DagRuleSet → Engine
new rules = record { rules = rules; lines = no_lines; disarmed = [] }

unfoldable pub try_new : DagRuleSet → Option Engine
unfolding new
try_new rules = some (new rules)

unfoldable pub referenced_ttps : Engine → List Ttp
referenced_ttps g = Rules.referenced_ttps g.rules

unfoldable pub step_matches : Tagged → DagStep → Bool
step_matches t step = matches step.matcher t.event.op t.ttps

-- `line.automata.entry(pid).or_default().push(Automaton { done_mask: 0 })`
unfoldable pub push_automaton : ℕ → Map (List Automaton) → Map (List Automaton)
push_automaton pid automata =
    insert pid (get_or_default [] (get pid automata) ++ (record { done_mask = 0 } ∷ [])) automata

-- part (a) of `advance`: one automaton for each root step that matches
unfoldable pub seed_steps : Tagged → ℕ → List DagStep → Map (List Automaton) → Map (List Automaton)
seed_steps t pid [] automata = automata
seed_steps t pid (step ∷ steps) automata =
    seed_steps t pid steps (
      if step.prereq_mask == 0 && step_matches t step
      then push_automaton pid automata
      else automata)

unfoldable pub seed : Tagged → ℕ → List DagPattern → Map (List Automaton) → Map (List Automaton)
seed t pid [] automata = automata
seed t pid (p ∷ ps) automata = seed t (pid + 1) ps (seed_steps t pid p.steps automata)

-- the condition of part (b): not done yet, all prerequisites done, and the event matches
unfoldable pub is_ready : Tagged → ℕ → DagStep → Bool
is_ready t done step =
    bit_and done (bit_mask step) == 0
    && (bit_and step.prereq_mask done == step.prereq_mask)
    && step_matches t step

-- part (b) for one automaton: the steps in the order of their declaration
unfoldable pub commit_steps : Tagged → List DagStep → ℕ → Reaction → ℕ × Reaction
commit_steps t [] done r = (done, r)
commit_steps t (step ∷ steps) done r =
    let ready = is_ready t done step in
    commit_steps t steps (if ready then bit_or done (bit_mask step) else done)
      (if ready then react step.action t.event.actor r else r)

unfoldable pub advance_automata :
    Tagged → List DagStep → List Automaton → Reaction → List Automaton × Reaction
advance_automata t steps [] r = ([], r)
advance_automata t steps (a ∷ as') r =
    let (done, r') = commit_steps t steps a.done_mask r in
    let (rest, r'') = advance_automata t steps as' r' in (record { done_mask = done } ∷ rest, r'')

-- part (b): every automaton of the storyline; `rules.patterns[pid]` panics out of range
unfoldable pub advance_all :
    Tagged
    → List DagPattern
    → Map (List Automaton)
    → Reaction
    → Option (Map (List Automaton) × Reaction)
advance_all t patterns [] r = some ([], r)
advance_all t patterns ((pid, autos) ∷ rest) r = do
  p ← get_elem? patterns pid
  let (autos', r') = advance_automata t p.steps autos r
  (rest', r'') ← advance_all t patterns rest r'
  some ((pid, autos') ∷ rest', r'')

unfoldable pub quiet : Map OpSet → Reaction
quiet disarmed = record { verdict = Verdict.ignore; disarmed = disarmed }

unfoldable pub advance : ℕ → Tagged → Engine → Option (Verdict × Engine)
advance s t g = do
  st ← slot g.lines.storylines s
  (automata, r) ←
      advance_all t g.rules.patterns (seed t 0 g.rules.patterns st.automata) (quiet g.disarmed)
  some (
    r.verdict,
    record {
      rules = g.rules;
      lines = record {
        line = g.lines.line;
        storylines = set g.lines.storylines s (
            some
              (record { members = st.members; automata = automata; last_activity = t.event.ts }));
      };
      disarmed = r.disarmed;
    },
  )

unfoldable pub on_event : Tagged → Engine → Option (Verdict × Engine)
on_event t g =
    if is_disarmed g.disarmed t.event.actor t.event.op then some (Verdict.block, g) else do
      (s, lines) ← unify_storyline t.event.actor t.event.object g.lines
      advance s t (record g { lines = lines })

-- a stream of events, with the verdict of each
unfoldable pub replay : List Tagged → Engine → Option (List Verdict × Engine)
replay [] g = some ([], g)
replay (t ∷ ts) g = do (v, g') ← on_event t g; (vs, g'') ← replay ts g'; some (v ∷ vs, g'')
