-- ===== src/Dag/Storylines.antt =====
-- The storylines of the engine are the connected components of the events that passed the guard.
use correlation_engine.Prelude.{
  ℕ, ◌≡◌, refl, sym, ◌∙◌, ap, ◌↔◌, true, none, some, List, [], ◌∷◌, if◌then◌else◌, Bool-cases,
  Option-cases, some_inj, pair_inj, inl, inr,
}
use mathlib.Core.Path.{subst}
use correlation_engine.Prelude.Maps.{get, contains}
use correlation_engine.Event.{Key}
use correlation_engine.Rules.{DagRuleSet}
use correlation_engine.Detector.{Verdict, is_disarmed}
use correlation_engine.Lines.{Storyline, Lines, slot, storyline_of}
use correlation_engine.Lines.Valid
use correlation_engine.Lines.Replace.{replaced, replaced-IsValid}
use correlation_engine.Lines.Merge.{unify_storyline_total}
use correlation_engine.Lines.Connected.{
  Linked, SameLine, IsPartition, no_lines-IsPartition, unify_storyline-IsPartition,
}
use correlation_engine.Dag.{
  Automaton, Engine, Tagged, new, seed, quiet, advance_all, advance, on_event, replay,
}

-- the edges after one more event
abbrev pub passed_event : Tagged → Engine → List (Key × Key) → List (Key × Key)
passed_event t g es =
    if is_disarmed g.disarmed t.event.actor t.event.op
    then es
    else (t.event.actor, t.event.object) ∷ es

-- The edges of the events that the guard lets through, newest first, before those of `es`.
unfoldable pub passed : List Tagged → Engine → List (Key × Key) → List (Key × Key)
passed [] g es = es
passed (t ∷ ts) g es = elim (on_event t g) [
  | none ↦ es
  | some (v, g') ↦ passed ts g' (passed_event t g es)
]

replaced-IsPartition :
    (es : List (Key × Key)) (s : Lines Automaton) (i : ℕ) (old st : Storyline Automaton)
    → IsPartition es s
    → slot s.storylines i ≡ some old
    → st.members ≡ old.members
    → IsPartition es (replaced i st s)
replaced-IsPartition es s i old st h at same = record {
  valid = replaced-IsValid s i old st h.valid at same;
  linked = λ j k p. h.linked j k p;
  together = λ j k d. h.together j k d;
}

advance-IsPartition :
    (es : List (Key × Key)) (s : ℕ) (t : Tagged) (g : Engine) (v : Verdict) (g' : Engine)
    → IsPartition es g.lines
    → advance s t g ≡ some (v, g')
    → IsPartition es g'.lines
unfolding advance
advance-IsPartition es s t g v g' h run = elim (Option-cases (slot g.lines.storylines s)) [
  | inl e ↦ absurd (cc (rw e at run))
  | inr (st, at) ↦
      let run' = rw at at run in
      elim (Option-cases (
        advance_all t g.rules.patterns (seed t 0 g.rules.patterns st.automata)
          (quiet g.disarmed))) [
            | inl e ↦ absurd (cc (rw e at run'))
            | inr ((m, r), e) ↦
                subst (λ (x : Engine). IsPartition es x.lines)
                  (pair_inj (some_inj (rw e at run'))).1
                  (replaced-IsPartition es g.lines s st
                    (record { members = st.members; automata = m; last_activity = t.event.ts }) h at
                    refl)
          ]
]

-- One event keeps the storylines the components of the edges that passed so far.
on_event-IsPartition :
    (es : List (Key × Key)) (t : Tagged) (g : Engine) (v : Verdict) (g' : Engine)
    → IsPartition es g.lines
    → on_event t g ≡ some (v, g')
    → IsPartition (passed_event t g es) g'.lines
unfolding on_event
on_event-IsPartition es t g v g' h run =
    elim (Bool-cases (is_disarmed g.disarmed t.event.actor t.event.op)) [
      | inl stop ↦ rw stop (
          subst (λ (x : Engine). IsPartition es x.lines) (pair_inj (some_inj (rw stop at run))).1 h)
      | inr go ↦
          let a = t.event.actor in
          let o = t.event.object in
          let (s, lines, u) = unify_storyline_total a o g.lines h.valid in
          rw go (
            advance-IsPartition ((a, o) ∷ es) s t (record g { lines = lines }) v g'
              (unify_storyline-IsPartition es g.lines h a o s lines u) (rw u.run at (rw go at run)))
    ]

replay-IsPartition :
    (ts : List Tagged) (es : List (Key × Key)) (g : Engine) (vs : List Verdict) (g' : Engine)
    → IsPartition es g.lines
    → replay ts g ≡ some (vs, g')
    → IsPartition (passed ts g es) g'.lines
unfolding replay passed
replay-IsPartition [] es g vs g' h run =
    subst (λ (x : Engine). IsPartition es x.lines) (pair_inj (some_inj run)).1 h
replay-IsPartition (t ∷ ts) es g vs g' h run = elim (Option-cases (on_event t g)) [
  | inl e ↦ absurd (cc (rw e at run))
  | inr ((v, g1), e) ↦
      let run' = rw e at run in
      elim (Option-cases (replay ts g1)) [
        | inl e' ↦ absurd (cc (rw e' at run'))
        | inr ((vs1, g2), e') ↦
            let same : g2 ≡ g' = (pair_inj (some_inj (rw e' at run'))).1 in
            subst (λ (x : Engine). IsPartition (passed (t ∷ ts) g es) x.lines) same
              (rw (e, passed)
                (replay-IsPartition ts (passed_event t g es) g1 vs1 g2
                  (on_event-IsPartition es t g v g1 h e) e'))
      ]
]

storyline_of-some :
    (s : Lines Automaton) (k : Key) (l : ℕ) (st : Storyline Automaton)
    → get k s.line ≡ some l
    → slot s.storylines l ≡ some st
    → storyline_of k s ≡ some (some st.members)
unfolding storyline_of
storyline_of-some s k l st p at = rw (p, storyline_of) (rw at)

storyline_of-none :
    (s : Lines Automaton) (k : Key) → get k s.line ≡ none → storyline_of k s ≡ some none
unfolding storyline_of
storyline_of-none s k p = rw (p, storyline_of)

-- `storyline_of` of a valid partition: the keys that share the line.
storyline_of-SameLine :
    (s : Lines Automaton) (j k : Key)
    → Valid.IsValid s
    → SameLine s k j
      ↔ ((ms : List Key) × (storyline_of k s ≡ some (some ms)) × (contains j ms ≡ true))
storyline_of-SameLine s j k v = (forth, back)
  where
    forth :
        SameLine s k j
        → (ms : List Key) × (storyline_of k s ≡ some (some ms)) × (contains j ms ≡ true)
    forth (l, p, q) =
        let (st, at, mem) = v.labelled j l q in (st.members, storyline_of-some s k l st p at, mem)

    back :
        ((ms : List Key) × (storyline_of k s ≡ some (some ms)) × (contains j ms ≡ true))
        → SameLine s k j
    back (ms, run, mem) = elim (Option-cases (get k s.line)) [
      | inl e ↦ cc (storyline_of-none s k e, run)
      | inr (l, p) ↦
          let (st, at, _) = v.labelled k l p in
          let same : st.members ≡ ms =
            some_inj (some_inj (sym (storyline_of-some s k l st p at) ∙ run)) in
          (l, p, v.listed j l st at (ap (contains j) same ∙ mem))
    ]

-- After any stream of events from a new engine, `storyline_of k` holds `j` exactly when a chain of the
-- edges of the events that passed the guard joins the two.
pub storyline_of-Linked :
    (rules : DagRuleSet) (ts : List Tagged) (vs : List Verdict) (g : Engine) (j k : Key)
    → replay ts (new rules) ≡ some (vs, g)
    → Linked (passed ts (new rules) []) k j
      ↔ ((ms : List Key) × (storyline_of k g.lines ≡ some (some ms)) × (contains j ms ≡ true))
storyline_of-Linked rules ts vs g j k run =
    let parts : IsPartition (passed ts (new rules) []) g.lines =
      replay-IsPartition ts [] (new rules) vs g (unfold new in no_lines-IsPartition) run in
    let iff = storyline_of-SameLine g.lines j k parts.valid in
    (λ d. iff.0 (parts.together k j d), λ m. parts.linked k j (iff.1 m))
