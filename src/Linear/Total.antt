-- ===== src/Linear/Total.antt =====
-- The invariant of the linear engine v0_0_1.rs: with steps in every pattern, `on_event` never panics.
use correlation_engine.Prelude.{
  ℕ, suc, ◌≡◌, refl, ◌∙◌, ap, Option, some, List, [], ◌∷◌, arith, Bool-cases, inl, inr,
}
use correlation_engine.Prelude.Lists.{length, get_elem?, All}
use correlation_engine.Prelude.Maps.{Map}
use correlation_engine.Rules.{RuleSet}
use correlation_engine.Detector.{Verdict, Tagged, is_disarmed}
use correlation_engine.Lines.{Storyline, no_lines, slot}
use correlation_engine.Lines.Valid
use correlation_engine.Lines.Valid.{no_lines-IsValid}
use correlation_engine.Lines.Replace.{replaced, replaced-IsValid}
use correlation_engine.Lines.Merge.{unify_storyline_total}
use correlation_engine.Lines.Carried.{SlotsAllowed, unified-SlotsAllowed, replaced-SlotsAllowed}
use correlation_engine.Linear.{Automaton, Engine, new, quiet, advance, on_event, replay}
use correlation_engine.Linear.Sound.{HasSteps, FitsLinear, seed_total, advance_all_total}

pub record IsSound (g : Engine) : Type 0 where
  pub has_steps : All HasSteps g.rules.patterns
  pub lines_valid : Valid.IsValid g.lines
  pub slots_allowed : SlotsAllowed g.rules.patterns FitsLinear g.lines

pub new-IsSound : (rules : RuleSet) → All HasSteps rules.patterns → IsSound (new rules)
unfolding new no_lines slot
new-IsSound rules h = record {
  has_steps = h;
  lines_valid = no_lines-IsValid;
  slots_allowed = λ i st e. cc;
}

record IsAnswered (run : Option (Verdict × Engine)) (v : Verdict) (g' : Engine) : Type 0 where
  pub returned : run ≡ some (v, g')
  pub sound : IsSound g'

abbrev advanced : Tagged → Map (List Automaton) → Storyline Automaton → Storyline Automaton
advanced t m st = record { members = st.members; automata = m; last_activity = t.event.ts }

advance_total :
    (s : ℕ) (t : Tagged) (g : Engine) (st : Storyline Automaton)
    → IsSound g
    → slot g.lines.storylines s ≡ some st
    → (v : Verdict) × (g' : Engine) × IsAnswered (advance s t g) v g'
unfolding advance
advance_total s t g st h at =
    let (seeded, r, seeds, ok) =
      seed_total g.rules.patterns t 0 g.rules.patterns st.automata (quiet g.disarmed) h.has_steps
        (λ k p e. ap (get_elem? g.rules.patterns) (omega arith) ∙ e) (h.slots_allowed s st at) in
    let (m, r', run, ok') = advance_all_total g.rules.patterns t seeded r ok in
    (
      r'.verdict,
      record {
        rules = g.rules;
        lines = replaced s (advanced t m st) g.lines;
        disarmed = r'.disarmed;
      },
      record {
        returned = rw at (rw seeds (rw run));
        sound = record {
          has_steps = h.has_steps;
          lines_valid = replaced-IsValid g.lines s st (advanced t m st) h.lines_valid at refl;
          slots_allowed =
              replaced-SlotsAllowed g.rules.patterns FitsLinear s g.lines st (advanced t m st) at
                ok' h.slots_allowed;
        };
      },
    )

on_event_total :
    (t : Tagged) (g : Engine)
    → IsSound g
    → (v : Verdict) × (g' : Engine) × IsAnswered (on_event t g) v g'
unfolding on_event
on_event_total t g h = elim (Bool-cases (is_disarmed g.disarmed t.event.actor t.event.op)) [
  | inl stop ↦ (Verdict.block, g, record { returned = rw stop; sound = h })
  | inr go ↦
      let a = t.event.actor in
      let o = t.event.object in
      let (s, lines, u) = unify_storyline_total a o g.lines h.lines_valid in
      let (st, at, mem) = u.joined.valid.labelled a s u.actor_in in
      let g1 = record g { lines = lines } in
      let h1 : IsSound g1 = record {
        has_steps = h.has_steps;
        lines_valid = u.joined.valid;
        slots_allowed =
            unified-SlotsAllowed g.rules.patterns FitsLinear a o g.lines s lines u h.slots_allowed;
      } in
      let (v, g', answered) = advance_total s t g1 st h1 at in
      (v, g', record { returned = rw go (rw u.run answered.returned); sound = answered.sound })
]

-- On a sound linear engine, a stream of events gets one verdict for each event, without a panic.
pub linear_replay_total :
    (ts : List Tagged) (g : Engine)
    → IsSound g
    → (vs : List Verdict) × (replay ts g ≡ some vs) × (length vs ≡ length ts)
unfolding replay
linear_replay_total [] g h = ([], refl, refl)
linear_replay_total (t ∷ ts) g h =
    let (v, g1, answered) = on_event_total t g h in
    let (vs, run, len) = linear_replay_total ts g1 answered.sound in
    (v ∷ vs, rw answered.returned (rw run), ap suc len)
