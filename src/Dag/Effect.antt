-- ===== src/Dag/Effect.antt =====
-- What a sweep over the automata does to the verdict and to `DISARMED`.
use correlation_engine.Prelude.{
  ℕ, suc, ◌≤◌, ◌≡◌, refl, ◌∙◌, ap, ◌≢◌, ◌⊎◌, true, Option, some, List, [], ◌∷◌, arith, Bool-cases,
  Option-cases, some_inj, pair_inj, inl, inr,
}
use mathlib.Core.Path.{subst}
use Prim.Native.Nat.{bit_or}
use correlation_engine.Prelude.Lists.{get_elem?}
use correlation_engine.Prelude.Maps.{Map}
use correlation_engine.Event.{Key, Op}
use correlation_engine.Event.OpSet
use correlation_engine.Event.OpSet.{OpSet}
use correlation_engine.Rules.{Action, DagStep, DagPattern, bit_mask}
use correlation_engine.Detector.{Verdict, Reaction, rank, react, is_disarmed}
use correlation_engine.Detector.Rights.{
  is_disarmed-react, is_disarmed-react_self, is_disarmed-react_other, react-disarm, react-rank,
  Verdict-cases,
}
use correlation_engine.Dag.{
  Automaton, Tagged, step_matches, is_ready, commit_steps, advance_automata, advance_all,
}
use correlation_engine.Dag.Order.{commit_steps_ready, commit_steps_idle}

-- A step of the rules that the event matches took its `disarm` operations from the actor.
abbrev pub Granted : Tagged → List DagPattern → Map OpSet → Type 0
Granted t patterns d =
    (i j : ℕ) × (p : DagPattern) × (step : DagStep) × (ops : OpSet) × (get_elem? patterns i
      ≡ some p)
    × (get_elem? p.steps j ≡ some step)
    × (step_matches t step ≡ true)
    × (step.action ≡ some (Action.disarm ops))
    × ((op : Op) → OpSet.contains ops op ≡ true → is_disarmed d t.event.actor op ≡ true)

module _ (t : Tagged) (patterns : List DagPattern) where
  -- From `r` to `r'` by committed steps.
  pub record Follows (r r' : Reaction) : Type 0 where
    pub kept :
        (k : Key) (op : Op)
        → is_disarmed r.disarmed k op ≡ true
        → is_disarmed r'.disarmed k op ≡ true
    pub others :
        (k : Key) (op : Op)
        → k ≢ t.event.actor
        → is_disarmed r'.disarmed k op ≡ is_disarmed r.disarmed k op
    pub granted :
        r'.verdict ≡ Verdict.disarm → (r.verdict ≡ Verdict.disarm) ⊎ Granted t patterns r'.disarmed
    pub grows : rank r.verdict ≤ rank r'.verdict

  Follows-refl : (r : Reaction) → Follows r r
  Follows-refl r = record {
    kept = λ k op h. h;
    others = λ k op ne. refl;
    granted = λ e. inl e;
    grows = omega arith;
  }

  Granted-kept :
      (d d' : Map OpSet)
      → ((k : Key) (op : Op) → is_disarmed d k op ≡ true → is_disarmed d' k op ≡ true)
      → Granted t patterns d
      → Granted t patterns d'
  Granted-kept d d' keep (i, j, p, step, ops, at, at', m, act, took) =
      (i, j, p, step, ops, at, at', m, act, λ op h. keep t.event.actor op (took op h))

  Follows-trans : {r r' r'' : Reaction} → Follows r r' → Follows r' r'' → Follows r r''
  Follows-trans {r} {r'} {r''} f g = record {
    kept = λ k op h. g.kept k op (f.kept k op h);
    others = λ k op ne. g.others k op ne ∙ f.others k op ne;
    granted = λ e. elim (g.granted e) [
      | inl e' ↦ elim (f.granted e') [
        | inl e'' ↦ inl e''
        | inr h ↦ inr (Granted-kept r'.disarmed r''.disarmed g.kept h)
      ]
      | inr h ↦ inr h
    ];
    grows = omega (arith, f.grows, g.grows);
  }

  react-Follows :
      (i j : ℕ) (p : DagPattern) (step : DagStep) (r : Reaction)
      → get_elem? patterns i ≡ some p
      → get_elem? p.steps j ≡ some step
      → step_matches t step ≡ true
      → Follows r (react step.action t.event.actor r)
  react-Follows i j p step r at at' m = record {
    kept = λ k op h. is_disarmed-react step.action t.event.actor r k op h;
    others = λ k op ne. is_disarmed-react_other step.action t.event.actor r k op ne;
    granted = λ e. elim (Verdict-cases r.verdict) [
      | inl old ↦ inl old
      | inr new ↦
          let (ops, act) = react-disarm step.action t.event.actor r e new in
          inr (
            i,
            j,
            p,
            step,
            ops,
            at,
            at',
            m,
            act,
            λ op h.
                ap
                  (λ (a : Option Action).
                    is_disarmed (react a t.event.actor r).disarmed t.event.actor op)
                  act
                ∙ is_disarmed-react_self ops t.event.actor r op h,
          )
    ];
    grows = (react-rank step.action t.event.actor r).0;
  }

  is_ready→matches :
      (done : ℕ) (step : DagStep) → is_ready t done step ≡ true → step_matches t step ≡ true
  unfolding is_ready
  is_ready→matches done step h = ground arith

  commit_steps-Follows :
      (i : ℕ) (p : DagPattern) (suffix : List DagStep) (done : ℕ) (r : Reaction)
      → get_elem? patterns i ≡ some p
      → ((k : ℕ) (step : DagStep)
          → get_elem? suffix k ≡ some step
          → (j : ℕ) × (get_elem? p.steps j ≡ some step))
      → Follows r (commit_steps t suffix done r).1
  unfolding commit_steps
  commit_steps-Follows i p [] done r at w = Follows-refl r
  commit_steps-Follows i p (step ∷ suffix) done r at w = elim (Bool-cases (is_ready t done step)) [
    | inl ready ↦
        let (j, at') = w 0 step refl in
        rw (commit_steps_ready t step suffix done r ready) (
          Follows-trans (react-Follows i j p step r at at' (is_ready→matches done step ready)) (
            commit_steps-Follows i p suffix (bit_or done (bit_mask step))
              (react step.action t.event.actor r) at (λ k s e. w (suc k) s e)))
    | inr idle ↦
        rw (commit_steps_idle t step suffix done r idle)
          (commit_steps-Follows i p suffix done r at (λ k s e. w (suc k) s e))
  ]

  advance_automata-Follows :
      (i : ℕ) (p : DagPattern) (as' : List Automaton) (r : Reaction)
      → get_elem? patterns i ≡ some p
      → Follows r (advance_automata t p.steps as' r).1
  unfolding advance_automata
  advance_automata-Follows i p [] r at = Follows-refl r
  advance_automata-Follows i p (a ∷ as') r at =
      Follows-trans (commit_steps-Follows i p p.steps a.done_mask r at (λ k s e. (k, e)))
        (advance_automata-Follows i p as' (commit_steps t p.steps a.done_mask r).1 at)

  pub advance_all-Follows :
      (m : Map (List Automaton)) (r : Reaction) (m' : Map (List Automaton)) (r' : Reaction)
      → advance_all t patterns m r ≡ some (m', r')
      → Follows r r'
  unfolding advance_all
  advance_all-Follows [] r m' r' run =
      subst (Follows r) (pair_inj (some_inj run)).1 (Follows-refl r)
  advance_all-Follows ((i, autos) ∷ m) r m' r' run = elim (Option-cases (get_elem? patterns i)) [
    | inl e ↦ absurd (cc (rw e at run))
    | inr (p, at) ↦
        let q = advance_automata t p.steps autos r in
        let run' = rw at at run in
        elim (Option-cases (advance_all t patterns m q.1)) [
          | inl e ↦ absurd (cc (rw e at run'))
          | inr (rest, e) ↦
              let end : rest.1 ≡ r' = (pair_inj (some_inj (rw e at run'))).1 in
              subst (Follows r) end (
                Follows-trans (advance_automata-Follows i p autos r at)
                  (advance_all-Follows m q.1 rest.0 rest.1 e))
        ]
  ]
