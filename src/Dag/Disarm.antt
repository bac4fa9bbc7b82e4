-- ===== src/Dag/Disarm.antt =====
-- The guard of `on_event` and what a verdict `disarm` means for every later event.
use correlation_engine.Prelude.{
  ℕ, ◌≡◌, refl, sym, ◌∙◌, ap, ◌≢◌, ◌⊎◌, true, false, some, List, [], ◌∷◌, Bool-cases, Option-cases,
  some_inj, pair_inj, inl, inr,
}
use mathlib.Core.Path.{subst}
use correlation_engine.Event.{Key, Op}
use correlation_engine.Detector.{Verdict, is_disarmed}
use correlation_engine.Lines.{slot, unify_storyline}
use correlation_engine.Dag.{Engine, Tagged, seed, quiet, advance_all, advance, on_event, replay}
use correlation_engine.Dag.Effect.{Granted, Follows, advance_all-Follows}

-- The sweep of an event that the guard let through.
pub record IsSwept (t : Tagged) (g : Engine) (v : Verdict) (g' : Engine) : Type 0 where
  pub allowed : is_disarmed g.disarmed t.event.actor t.event.op ≡ false
  pub follows :
      Follows t g.rules.patterns (quiet g.disarmed) (record { verdict = v; disarmed = g'.disarmed })
  pub same_rules : g'.rules ≡ g.rules

advance-Follows :
    (s : ℕ) (t : Tagged) (g : Engine) (v : Verdict) (g' : Engine)
    → advance s t g ≡ some (v, g')
    → Follows t g.rules.patterns (quiet g.disarmed) (record { verdict = v; disarmed = g'.disarmed })
      × (g'.rules ≡ g.rules)
unfolding advance
advance-Follows s t g v g' run = elim (Option-cases (slot g.lines.storylines s)) [
  | inl e ↦ absurd (cc (rw e at run))
  | inr (st, at) ↦
      let run' = rw at at run in
      elim (Option-cases (
        advance_all t g.rules.patterns (seed t 0 g.rules.patterns st.automata)
          (quiet g.disarmed))) [
            | inl e ↦ absurd (cc (rw e at run'))
            | inr ((m, r), e) ↦
                let (ev, eg) = pair_inj (some_inj (rw e at run')) in
                (
                  subst (Follows t g.rules.patterns (quiet g.disarmed))
                      (λ i. record { verdict = ev i; disarmed = (eg i).disarmed })
                      (advance_all-Follows t g.rules.patterns
                        (seed t 0 g.rules.patterns st.automata) (quiet g.disarmed) m r e),
                  λ i. (sym eg i).rules,
                )
          ]
]

-- `on_event` blocks at the guard and changes nothing, or the event is swept through the automata.
pub on_event_cases :
    (t : Tagged) (g : Engine) (v : Verdict) (g' : Engine)
    → on_event t g ≡ some (v, g')
    → ((is_disarmed g.disarmed t.event.actor t.event.op ≡ true) × (v ≡ Verdict.block) × (g' ≡ g))
      ⊎ IsSwept t g v g'
unfolding on_event
on_event_cases t g v g' run = elim (Bool-cases (is_disarmed g.disarmed t.event.actor t.event.op)) [
  | inl stop ↦ let (ev, eg) = pair_inj (some_inj (rw stop at run)) in inl (stop, sym ev, sym eg)
  | inr go ↦
      let run' = rw go at run in
      elim (Option-cases (unify_storyline t.event.actor t.event.object g.lines)) [
        | inl e ↦ absurd (cc (rw e at run'))
        | inr ((s, lines), e) ↦
            let (f, same) = advance-Follows s t (record g { lines = lines }) v g' (rw e at run') in
            inr (record { allowed = go; follows = f; same_rules = same })
      ]
]

-- A verdict `disarm` comes from a step of the rules that the event matches, and its operations are
-- taken from the actor.
pub on_event-disarm :
    (t : Tagged) (g g' : Engine)
    → on_event t g ≡ some (Verdict.disarm, g')
    → Granted t g.rules.patterns g'.disarmed
unfolding quiet
on_event-disarm t g g' run = elim (on_event_cases t g Verdict.disarm g' run) [
  | inl (stop, e, same) ↦ cc
  | inr swept ↦ elim (swept.follows.granted refl) [ inl e ↦ cc | inr h ↦ h ]
]

-- No event gives an operation back, and an event takes operations from its actor alone.
pub on_event_rights :
    (t : Tagged) (g : Engine) (v : Verdict) (g' : Engine)
    → on_event t g ≡ some (v, g')
    → ((k : Key) (op : Op)
        → is_disarmed g.disarmed k op ≡ true
        → is_disarmed g'.disarmed k op ≡ true)
      × ((k : Key) (op : Op)
          → k ≢ t.event.actor
          → is_disarmed g'.disarmed k op ≡ is_disarmed g.disarmed k op)
unfolding quiet
on_event_rights t g v g' run = elim (on_event_cases t g v g' run) [
  | inl (stop, e, same) ↦ (
    λ k op h. ap (λ (x : Engine). is_disarmed x.disarmed k op) same ∙ h,
    λ k op ne. ap (λ (x : Engine). is_disarmed x.disarmed k op) same,
  )
  | inr swept ↦ (swept.follows.kept, swept.follows.others)
]

replay_keeps :
    (ts : List Tagged) (g : Engine) (vs : List Verdict) (g' : Engine) (k : Key) (op : Op)
    → replay ts g ≡ some (vs, g')
    → is_disarmed g.disarmed k op ≡ true
    → is_disarmed g'.disarmed k op ≡ true
unfolding replay
replay_keeps [] g vs g' k op run h =
    ap (λ (x : Engine). is_disarmed x.disarmed k op) (sym (pair_inj (some_inj run)).1) ∙ h
replay_keeps (t ∷ ts) g vs g' k op run h = elim (Option-cases (on_event t g)) [
  | inl e ↦ absurd (cc (rw e at run))
  | inr ((v, g1), e) ↦
      let run' = rw e at run in
      elim (Option-cases (replay ts g1)) [
        | inl e' ↦ absurd (cc (rw e' at run'))
        | inr ((vs1, g2), e') ↦
            let same : g2 ≡ g' = (pair_inj (some_inj (rw e' at run'))).1 in
            ap (λ (x : Engine). is_disarmed x.disarmed k op) (sym same)
            ∙ replay_keeps ts g1 vs1 g2 k op e' ((on_event_rights t g v g1 e).0 k op h)
      ]
]

-- Once an operation is taken from an actor, every later event by which the actor tries it is blocked
-- at the guard and changes nothing, whatever events came between.
pub disarmed_forever :
    (ts : List Tagged) (g : Engine) (vs : List Verdict) (g' : Engine) (t : Tagged)
    → is_disarmed g.disarmed t.event.actor t.event.op ≡ true
    → replay ts g ≡ some (vs, g')
    → on_event t g' ≡ some (Verdict.block, g')
unfolding on_event
disarmed_forever ts g vs g' t h run =
    rw (replay_keeps ts g vs g' t.event.actor t.event.op run h) refl
