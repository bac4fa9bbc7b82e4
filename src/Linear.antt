-- ===== src/Linear.antt =====
-- engine_core/src/v0_0_1.rs: the engine whose patterns are linear, over `Lines`. `none` is a panic.
pub mod Sound
pub mod Total
use correlation_engine.Prelude.{
  ℕ, ◌+◌, Option, none, some, Bool, List, [], ◌∷◌, ◌++◌, if◌then◌else◌, ◌>>=◌,
}
use correlation_engine.Prelude.Lists.{get_elem?, set}
use correlation_engine.Prelude.Maps.{Map, get, insert, get_or_default}
use correlation_engine.Event.OpSet.{OpSet}
use correlation_engine.Rules.{Step, Pattern, RuleSet, matches}
use correlation_engine.Detector.{Verdict, Reaction, Tagged, react, is_disarmed}
use correlation_engine.Lines.{Lines, no_lines, slot, unify_storyline}

-- `stage` is the number of steps matched.
pub record Automaton : Type 0 where
  pub stage : ℕ
  pub stage_ts : ℕ

pub record Engine : Type 0 where
  pub rules : RuleSet
  pub lines : Lines Automaton
  pub disarmed : Map OpSet

unfoldable pub new : RuleSet → Engine
new rules = record { rules = rules; lines = no_lines; disarmed = [] }

unfoldable pub step_matches : Tagged → Step → Bool
step_matches t step = matches step.matcher t.event.op t.ttps

unfoldable pub push_automaton : Tagged → ℕ → Map (List Automaton) → Map (List Automaton)
push_automaton t pid automata =
    insert pid
      (get_or_default [] (get pid automata) ++ (record { stage = 1; stage_ts = t.event.ts } ∷ []))
      automata

-- part (a) of `advance`; `p.steps[0]` panics on a pattern with no steps
unfoldable pub seed :
    Tagged
    → ℕ
    → List Pattern
    → Map (List Automaton)
    → Reaction
    → Option (Map (List Automaton) × Reaction)
seed t pid [] automata r = some (automata, r)
seed t pid (p ∷ ps) automata r = do
  step ← get_elem? p.steps 0
  seed t (pid + 1) ps (if step_matches t step then push_automaton t pid automata else automata)
      (if step_matches t step then react step.action t.event.actor r else r)

-- part (b) for one automaton; past the last step there is no `steps[a.stage]`, and `a.stage < len`
-- fails
unfoldable pub advance_automaton : Tagged → List Step → Automaton → Reaction → Automaton × Reaction
advance_automaton t steps a r = elim (get_elem? steps a.stage) [
  | none ↦ (a, r)
  | some step ↦
      if step_matches t step
      then (
        record { stage = a.stage + 1; stage_ts = t.event.ts },
        react step.action t.event.actor r,
      )
      else (a, r)
]

unfoldable pub advance_automata :
    Tagged → List Step → List Automaton → Reaction → List Automaton × Reaction
advance_automata t steps [] r = ([], r)
advance_automata t steps (a ∷ as') r =
    let (a', r') = advance_automaton t steps a r in
    let (rest, r'') = advance_automata t steps as' r' in (a' ∷ rest, r'')

unfoldable pub advance_all :
    Tagged
    → List Pattern
    → Map (List Automaton)
    → Reaction
    → Option (Map (List Automaton) × Reaction)
advance_all t patterns [] r = some ([], r)
advance_all t patterns ((pid, autos) ∷ rest) r = do
  p ← get_elem? patterns pid
  let (autos', r') = advance_automata t p.steps autos r
  (rest', r'') ← advance_all t patterns rest r'
  some ((pid, autos') ∷ rest', r'')

unfoldable pub quiet : Map OpSet → Reaction
quiet disarmed = record { verdict = Verdict.ignore; disarmed = disarmed }

unfoldable pub advance : ℕ → Tagged → Engine → Option (Verdict × Engine)
advance s t g = do
  st ← slot g.lines.storylines s
  (seeded, r) ← seed t 0 g.rules.patterns st.automata (quiet g.disarmed)
  (automata, r') ← advance_all t g.rules.patterns seeded r
  some (
    r'.verdict,
    record {
      rules = g.rules;
      lines = record {
        line = g.lines.line;
        storylines = set g.lines.storylines s (
            some
              (record { members = st.members; automata = automata; last_activity = t.event.ts }));
      };
      disarmed = r'.disarmed;
    },
  )

unfoldable pub on_event : Tagged → Engine → Option (Verdict × Engine)
on_event t g =
    if is_disarmed g.disarmed t.event.actor t.event.op then some (Verdict.block, g) else do
      (s, lines) ← unify_storyline t.event.actor t.event.object g.lines
      advance s t (record g { lines = lines })

-- a stream of events, with the verdict of each
unfoldable pub replay : List Tagged → Engine → Option (List Verdict)
replay [] g = some []
replay (t ∷ ts) g = do (v, g') ← on_event t g; vs ← replay ts g'; some (v ∷ vs)
