-- ===== src/Graph/Agree.antt =====
-- base.rs and v0_0_1.rs give the same verdicts: dropping the provenance graph loses no detection.
use correlation_engine.Prelude.{
  ℕ, ◌≡◌, refl, Option, none, some, List, [], ◌∷◌, ◌++◌, ◌>>=◌, Bool-cases, Option-cases, inl, inr,
}
use correlation_engine.Prelude.Lists.{set}
use correlation_engine.Prelude.Maps.{Map, get}
use correlation_engine.Rules.{RuleSet}
use correlation_engine.Detector.{Verdict, Reaction, Tagged, is_disarmed}
use correlation_engine.Lines.{Storyline, no_lines, slot}
use correlation_engine.Lines.Valid.{IsValid, no_lines-IsValid}
use correlation_engine.Lines.Replace.{replaced-IsValid}
use correlation_engine.Lines.Merge.{unify_storyline_total}
use correlation_engine.Linear
use correlation_engine.Linear.{Automaton}
use correlation_engine.Graph.{
  Node, Edge, Engine, new, resolve_node, record_event, quiet, advance, on_event, replay,
}
use correlation_engine.Graph.Sweep.{seed-eq, advance_all-eq}
use correlation_engine.Graph.Nodes.{Covers, resolve_node_lem}
use correlation_engine.Graph.Unify.{view, unify_agrees}

-- the graph engine over the engine without a graph
abbrev over : Map Node → List Edge → Linear.Engine → Engine
over nodes edges g = view g.rules edges g.disarmed nodes g.lines

-- Both panic, or both answer the same and stay alike.
data Alike : Option (Verdict × Engine) → Option (Verdict × Linear.Engine) → Type 0 where
  panics : Alike none none
  answers :
      (v : Verdict) (nodes : Map Node) (edges : List Edge) (g : Linear.Engine)
      → IsValid g.lines
      → Covers nodes g.lines.line
      → Alike (some (v, over nodes edges g)) (some (v, g))

advance-Alike :
    (s : ℕ) (t : Tagged) (nodes : Map Node) (edges : List Edge) (g : Linear.Engine)
    → IsValid g.lines
    → Covers nodes g.lines.line
    → Alike (advance s t (over nodes edges g)) (Linear.advance s t g)
unfolding advance Linear.advance quiet Linear.quiet
advance-Alike s t nodes edges g v c = elim (Option-cases (slot g.lines.storylines s)) [
  | inl e ↦ rw e panics
  | inr (st, at) ↦
      let start : Reaction = Linear.quiet g.disarmed in
      rw (at, seed-eq t 0 g.rules.patterns st.automata start)
        (elim (Option-cases (Linear.seed t 0 g.rules.patterns st.automata start)) [
          | inl e ↦ rw e panics
          | inr ((m, r), e) ↦
              rw (e, advance_all-eq t g.rules.patterns m r)
                (elim (Option-cases (Linear.advance_all t g.rules.patterns m r)) [
                  | inl e' ↦ rw e' panics
                  | inr ((m', r'), e') ↦
                      let st' : Storyline Automaton = record {
                        members = st.members;
                        automata = m';
                        last_activity = t.event.ts;
                      } in
                      rw e' (
                        answers r'.verdict nodes edges
                          (record {
                            rules = g.rules;
                            lines = record {
                              line = g.lines.line;
                              storylines = set g.lines.storylines s (some st');
                            };
                            disarmed = r'.disarmed;
                          })
                          (replaced-IsValid g.lines s st st' v at refl) c)
                ])
        ])
]

on_event-Alike :
    (t : Tagged) (nodes : Map Node) (edges : List Edge) (g : Linear.Engine)
    → IsValid g.lines
    → Covers nodes g.lines.line
    → Alike (on_event t (over nodes edges g)) (Linear.on_event t g)
unfolding on_event Linear.on_event record_event
on_event-Alike t nodes edges g v c =
    elim (Bool-cases (is_disarmed g.disarmed t.event.actor t.event.op)) [
      | inl stop ↦ rw stop (answers Verdict.block nodes edges g v c)
      | inr go ↦
          let a = t.event.actor in
          let o = t.event.object in
          let (has_a, c1, _) = resolve_node_lem a t.event.actor_kind nodes g.lines.line c in
          let nodes1 = resolve_node a t.event.actor_kind nodes in
          let (has_o, c2, keeps) = resolve_node_lem o t.event.object_kind nodes1 g.lines.line c1 in
          let nodes2 = resolve_node o t.event.object_kind nodes1 in
          let edges' : List Edge =
            edges ++ (record { from = a; to = o; op = t.event.op; ts = t.event.ts } ∷ []) in
          let (s, lines, u) = unify_storyline_total a o g.lines v in
          let (nodes3, run, c3) =
            unify_agrees g.rules edges' g.disarmed a o nodes2 g.lines s lines v c2 (keeps a has_a)
              has_o u in
          rw go (
            rw (run, u.run)
              (advance-Alike s t nodes3 edges' (record g { lines = lines }) u.joined.valid c3))
    ]

-- alike answers to one event, and replays that agree after it
continue-Alike :
    (ts : List Tagged) {x : Option (Verdict × Engine)} {y : Option (Verdict × Linear.Engine)}
    → ((nodes : Map Node) (edges : List Edge) (g : Linear.Engine)
        → IsValid g.lines
        → Covers nodes g.lines.line
        → replay ts (over nodes edges g) ≡ Linear.replay ts g)
    → Alike x y
    → (x >>= λ r. replay ts r.1 >>= λ vs. some (r.0 ∷ vs))
      ≡ (y >>= λ r. Linear.replay ts r.1 >>= λ vs. some (r.0 ∷ vs))
continue-Alike ts ih panics = refl
continue-Alike ts ih (answers v nodes edges g valid c) = rw (ih nodes edges g valid c)

replay_agrees :
    (ts : List Tagged) (nodes : Map Node) (edges : List Edge) (g : Linear.Engine)
    → IsValid g.lines
    → Covers nodes g.lines.line
    → replay ts (over nodes edges g) ≡ Linear.replay ts g
unfolding replay Linear.replay
replay_agrees [] nodes edges g v c = refl
replay_agrees (t ∷ ts) nodes edges g v c =
    continue-Alike ts (replay_agrees ts) (on_event-Alike t nodes edges g v c)

-- On every ruleset and every stream of events, base.rs and v0_0_1.rs return the same verdicts, or both
-- panic.
pub verdicts_agree :
    (rules : RuleSet) (ts : List Tagged)
    → replay ts (new rules) ≡ Linear.replay ts (Linear.new rules)
unfolding new Linear.new
verdicts_agree rules ts =
    unfold no_lines in
    replay_agrees ts [] [] (record { rules = rules; lines = no_lines; disarmed = [] })
      no_lines-IsValid (record { at = λ k. unfold get in refl })
