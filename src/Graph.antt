-- ===== src/Graph.antt =====
-- engine_core/src/base.rs: the engine that keeps the whole provenance graph. `none` is a panic.
-- `Storyline` and `Automaton` have the fields of those of v0_0_1.rs, and are taken from there.
mod Sweep
mod Nodes
pub mod Agree
mod Unify
use correlation_engine.Prelude.{
  ℕ, ◌+◌, Option, none, some, Bool, List, [], ◌∷◌, ◌++◌, max, leb, ◌==◌, if◌then◌else◌, ◌>>=◌,
}
use correlation_engine.Prelude.Lists.{length, get_elem?, set}
use correlation_engine.Prelude.Maps.{Map, get, insert, get_or_default, extend}
use correlation_engine.Event.{Key, Kind, Op}
use correlation_engine.Event.OpSet.{OpSet}
use correlation_engine.Rules.{Step, Pattern, RuleSet, matches}
use correlation_engine.Detector.{Verdict, Reaction, Tagged, react, is_disarmed}
use correlation_engine.Lines.{Storyline, slot}
use correlation_engine.Linear.{Automaton}

pub record Node : Type 0 where
  pub kind : Kind
  pub line : Option ℕ

pub record Edge : Type 0 where
  pub from : Key
  pub to : Key
  pub op : Op
  pub ts : ℕ

pub record Engine : Type 0 where
  pub rules : RuleSet
  pub nodes : Map Node
  pub edges : List Edge
  pub storylines : List (Option (Storyline Automaton))
  pub disarmed : Map OpSet

unfoldable pub new : RuleSet → Engine
new rules = record { rules = rules; nodes = []; edges = []; storylines = []; disarmed = [] }

unfoldable pub resolve_node : Key → Kind → Map Node → Map Node
resolve_node key kind nodes = elim (get key nodes) [
  | none ↦ insert key (record { kind = kind; line = none }) nodes
  | some n ↦ nodes
]

-- `self.nodes[&key]` panics on a key with no node.
unfoldable pub line_or_new : Key → Engine → Option (ℕ × Engine)
line_or_new key g = do
  n ← get key g.nodes
  elim n.line [
    | some l ↦ some (l, g)
    | none ↦ some (
      length g.storylines,
      record g {
        nodes = insert key (record n { line = some (length g.storylines) }) g.nodes;
        storylines =
            g.storylines
            ++ (some (record { members = key ∷ []; automata = []; last_activity = 0 }) ∷ []);
      },
    )
  ]

-- `for k in &moved.members { self.nodes.get_mut(k).unwrap().line = Some(dst); }`
unfoldable pub relabel_nodes : List Key → ℕ → Map Node → Option (Map Node)
relabel_nodes [] dst nodes = some nodes
relabel_nodes (k ∷ ks) dst nodes = do
  n ← get k nodes
  relabel_nodes ks dst (insert k (record n { line = some dst }) nodes)

unfoldable pub append_automata : Map (List Automaton) → Map (List Automaton) → Map (List Automaton)
append_automata [] into = into
append_automata ((pid, autos) ∷ moved) into =
    append_automata moved (insert pid (get_or_default [] (get pid into) ++ autos) into)

unfoldable pub move_line : ℕ → ℕ → Engine → Option Engine
move_line dst src g = do
  moved ← slot g.storylines src
  let emptied = set g.storylines src none
  nodes ← relabel_nodes moved.members dst g.nodes
  d ← slot emptied dst
  some (record g {
    nodes = nodes;
    storylines = set emptied dst (
        some (record {
          members = extend d.members moved.members;
          automata = append_automata moved.automata d.automata;
          last_activity = max d.last_activity moved.last_activity;
        }));
  })

unfoldable pub merge : ℕ → ℕ → Engine → Option Engine
merge x y g = do
  sx ← slot g.storylines x
  sy ← slot g.storylines y
  if leb (length sy.members) (length sx.members) then move_line x y g else move_line y x g

unfoldable pub merge_if_apart : ℕ → ℕ → Engine → Option Engine
merge_if_apart sa so g = if sa == so then some g else merge sa so g

unfoldable pub unify_storyline : Key → Key → Engine → Option (ℕ × Engine)
unify_storyline a o g = do
  (sa, g1) ← line_or_new a g
  (so, g2) ← line_or_new o g1
  g3 ← merge_if_apart sa so g2
  n ← get a g3.nodes
  l ← n.line
  some (l, g3)

unfoldable pub step_matches : Tagged → Step → Bool
step_matches t step = matches step.matcher t.event.op t.ttps

unfoldable pub push_automaton : Tagged → ℕ → Map (List Automaton) → Map (List Automaton)
push_automaton t pid automata =
    insert pid
      (get_or_default [] (get pid automata) ++ (record { stage = 1; stage_ts = t.event.ts } ∷ []))
      automata

-- part (a) of `advance`; `p.steps[0]` panics on a pattern with no steps
unfoldable pub seed :
    Tagged
    → ℕ
    → List Pattern
    → Map (List Automaton)
    → Reaction
    → Option (Map (List Automaton) × Reaction)
seed t pid [] automata r = some (automata, r)
seed t pid (p ∷ ps) automata r = do
  step ← get_elem? p.steps 0
  seed t (pid + 1) ps (if step_matches t step then push_automaton t pid automata else automata)
      (if step_matches t step then react step.action t.event.actor r else r)

-- part (b) of `advance` for one automaton
unfoldable pub advance_automaton : Tagged → List Step → Automaton → Reaction → Automaton × Reaction
advance_automaton t steps a r = elim (get_elem? steps a.stage) [
  | none ↦ (a, r)
  | some step ↦
      if step_matches t step
      then (
        record { stage = a.stage + 1; stage_ts = t.event.ts },
        react step.action t.event.actor r,
      )
      else (a, r)
]

unfoldable pub advance_automata :
    Tagged → List Step → List Automaton → Reaction → List Automaton × Reaction
advance_automata t steps [] r = ([], r)
advance_automata t steps (a ∷ as') r =
    let (a', r') = advance_automaton t steps a r in
    let (rest, r'') = advance_automata t steps as' r' in (a' ∷ rest, r'')

unfoldable pub advance_all :
    Tagged
    → List Pattern
    → Map (List Automaton)
    → Reaction
    → Option (Map (List Automaton) × Reaction)
advance_all t patterns [] r = some ([], r)
advance_all t patterns ((pid, autos) ∷ rest) r = do
  p ← get_elem? patterns pid
  let (autos', r') = advance_automata t p.steps autos r
  (rest', r'') ← advance_all t patterns rest r'
  some ((pid, autos') ∷ rest', r'')

unfoldable pub quiet : Map OpSet → Reaction
quiet disarmed = record { verdict = Verdict.ignore; disarmed = disarmed }

unfoldable pub advance : ℕ → Tagged → Engine → Option (Verdict × Engine)
advance s t g = do
  st ← slot g.storylines s
  (seeded, r) ← seed t 0 g.rules.patterns st.automata (quiet g.disarmed)
  (automata, r') ← advance_all t g.rules.patterns seeded r
  some (
    r'.verdict,
    record g {
      storylines =
          set g.storylines s (
            some
              (record { members = st.members; automata = automata; last_activity = t.event.ts }));
      disarmed = r'.disarmed;
    },
  )

-- the graph with the event's two nodes and its edge
unfoldable pub record_event : Tagged → Engine → Engine
record_event t g = record g {
  nodes =
      resolve_node t.event.object t.event.object_kind
        (resolve_node t.event.actor t.event.actor_kind g.nodes);
  edges =
      g.edges
      ++ (record { from = t.event.actor; to = t.event.object; op = t.event.op; ts = t.event.ts }
          ∷ []);
}

unfoldable pub on_event : Tagged → Engine → Option (Verdict × Engine)
on_event t g =
    if is_disarmed g.disarmed t.event.actor t.event.op then some (Verdict.block, g) else do
      (s, g1) ← unify_storyline t.event.actor t.event.object (record_event t g)
      advance s t g1

unfoldable pub replay : List Tagged → Engine → Option (List Verdict)
replay [] g = some []
replay (t ∷ ts) g = do (v, g') ← on_event t g; vs ← replay ts g'; some (v ∷ vs)
