-- ===== src/Dag/Total.antt =====
-- The invariant of the engine: `on_event` never panics and keeps it, so a stream of events of any
-- length gets one verdict for each event.
use correlation_engine.Prelude.{
  ℕ, suc, ◌≡◌, refl, sym, ◌∙◌, ap, Option, some, List, [], ◌∷◌, arith, Bool-cases, some_inj,
  pair_inj, inl, inr,
}
use mathlib.Core.Path.{subst}
use correlation_engine.Prelude.Lists.{length, get_elem?}
use correlation_engine.Prelude.Maps.{Map}
use correlation_engine.Rules.{DagRuleSet}
use correlation_engine.Detector.{Verdict, is_disarmed}
use correlation_engine.Lines.{Storyline, no_lines, slot}
use correlation_engine.Lines.Valid
use correlation_engine.Lines.Valid.{
  slot-lt, slot-set_self, slot-set_ne, slot-append_end, slot-append_cases, resolve_line_old,
  resolve_line_new, no_lines-IsValid,
}
use correlation_engine.Lines.Replace.{replaced, replaced-IsValid}
use correlation_engine.Lines.Merge.{unify_storyline_total}
use correlation_engine.Dag.{Automaton, Engine, Tagged, new, seed, quiet, advance, on_event, replay}
use correlation_engine.Lines.Carried.{SlotsAllowed, unified-SlotsAllowed, replaced-SlotsAllowed}
use correlation_engine.Dag.Sound.{FitsDag, seed-AreAllowed, advance_all_total}

pub record IsSound (g : Engine) : Type 0 where
  pub lines_valid : Valid.IsValid g.lines
  pub slots_allowed : SlotsAllowed g.rules.patterns FitsDag g.lines

pub new-IsSound : (rules : DagRuleSet) → IsSound (new rules)
unfolding new no_lines slot
new-IsSound rules = record { lines_valid = no_lines-IsValid; slots_allowed = λ i st e. cc }

-- What one call of `advance` or `on_event` has done when it returns `v` and `g'`.
pub record IsAnswered (run : Option (Verdict × Engine)) (v : Verdict) (g' : Engine) : Type 0 where
  pub returned : run ≡ some (v, g')
  pub sound : IsSound g'

-- the storyline that `advance` writes back
abbrev pub advanced : Tagged → Map (List Automaton) → Storyline Automaton → Storyline Automaton
advanced t m st = record { members = st.members; automata = m; last_activity = t.event.ts }

advance_total :
    (s : ℕ) (t : Tagged) (g : Engine) (st : Storyline Automaton)
    → IsSound g
    → slot g.lines.storylines s ≡ some st
    → (v : Verdict) × (g' : Engine) × IsAnswered (advance s t g) v g'
unfolding advance
advance_total s t g st h at =
    let (m, r, run, ok) =
      advance_all_total g.rules.patterns t (seed t 0 g.rules.patterns st.automata)
        (quiet g.disarmed)
        (seed-AreAllowed g.rules.patterns t 0 g.rules.patterns st.automata
          (λ k p e. ap (get_elem? g.rules.patterns) (omega arith) ∙ e) (h.slots_allowed s st at)) in
    (
      r.verdict,
      record {
        rules = g.rules;
        lines = replaced s (advanced t m st) g.lines;
        disarmed = r.disarmed;
      },
      record {
        returned = rw at (rw run);
        sound = record {
          lines_valid = replaced-IsValid g.lines s st (advanced t m st) h.lines_valid at refl;
          slots_allowed =
              replaced-SlotsAllowed g.rules.patterns FitsDag s g.lines st (advanced t m st) at ok
                h.slots_allowed;
        };
      },
    )

-- On a sound engine `on_event` returns a verdict, whatever the event, and leaves the engine sound.
pub on_event_total :
    (t : Tagged) (g : Engine)
    → IsSound g
    → (v : Verdict) × (g' : Engine) × IsAnswered (on_event t g) v g'
unfolding on_event
on_event_total t g h = elim (Bool-cases (is_disarmed g.disarmed t.event.actor t.event.op)) [
  | inl stop ↦ (Verdict.block, g, record { returned = rw stop; sound = h })
  | inr go ↦
      let a = t.event.actor in
      let o = t.event.object in
      let (s, lines, u) = unify_storyline_total a o g.lines h.lines_valid in
      let (st, at, mem) = u.joined.valid.labelled a s u.actor_in in
      let g1 = record g { lines = lines } in
      let h1 : IsSound g1 = record {
        lines_valid = u.joined.valid;
        slots_allowed =
            unified-SlotsAllowed g.rules.patterns FitsDag a o g.lines s lines u h.slots_allowed;
      } in
      let (v, g', answered) = advance_total s t g1 st h1 at in
      (v, g', record { returned = rw go (rw u.run answered.returned); sound = answered.sound })
]

-- On a sound engine, such as a new one for any ruleset, a stream of events gets exactly one verdict for
-- each event, without a panic, and leaves the engine sound.
pub replay_total :
    (ts : List Tagged) (g : Engine)
    → IsSound g
    → (vs : List Verdict) × (g' : Engine) × (replay ts g ≡ some (vs, g'))
      × (length vs ≡ length ts)
      × IsSound g'
unfolding replay
replay_total [] g h = ([], g, refl, refl, h)
replay_total (t ∷ ts) g h =
    let (v, g1, answered) = on_event_total t g h in
    let (vs, g2, run, len, sound) = replay_total ts g1 answered.sound in
    (v ∷ vs, g2, rw answered.returned (rw run), ap suc len, sound)

pub replay-IsSound :
    (ts : List Tagged) (g : Engine) (vs : List Verdict) (g' : Engine)
    → IsSound g
    → replay ts g ≡ some (vs, g')
    → IsSound g'
replay-IsSound ts g vs g' h run =
    let (vs1, g1, run1, len, sound) = replay_total ts g h in
    subst IsSound (pair_inj (some_inj (sym run1 ∙ run))).1 sound
