-- ===== src/Bounded/Kept.antt =====
-- Nothing takes back what engine_core/src/v0_0_2_bounded.rs has taken from an actor.
use correlation_engine.Prelude.{
  ℕ, ◌≡◌, refl, ◌∙◌, ap, Bool, true, false, Option, List, [], ◌∷◌, leb, ◌==◌, if◌then◌else◌,
  Option-cases, inl, inr,
}
use mathlib.Core.Path.{subst}
use correlation_engine.Prelude.Lists.{length, get_elem?}
use correlation_engine.Event.{Key, Op}
use correlation_engine.Rules.{Action, DagStep, DagPattern}
use correlation_engine.Detector.{Verdict, Tagged}
use correlation_engine.Dag.{is_ready}
use correlation_engine.Bounded.{
  cap_ent, dis_check, Sweep, react, commit_steps, advance_autos, advance, seed, line_at, alloc_line,
  free_line, new_entity, resolve_line, move_line, merge, unify, after_full, on_event, State, Engine,
  Line, Attempt, done, full, panic, ◌>>=◌,
}
use correlation_engine.Bounded.Table.{probe, value_at}
use correlation_engine.Bounded.Taken.{dis_check-react}

if_react-kept :
    (ready : Bool) (action : Option Action) (actor : Key) (w : Sweep) (key : Key) (op : Op)
    → dis_check w.dis key op ≡ true
    → dis_check (if ready then react action actor w else w).dis key op ≡ true
if_react-kept true action actor w key op h = dis_check-react action actor w key op h
if_react-kept false action actor w key op h = h

commit_steps-kept :
    (t : Tagged) (steps : List DagStep) (mask : ℕ) (w : Sweep) (key : Key) (op : Op)
    → dis_check w.dis key op ≡ true
    → dis_check (commit_steps t steps mask w).1.dis key op ≡ true
unfolding commit_steps
commit_steps-kept t [] mask w key op h = h
commit_steps-kept t (step ∷ steps) mask w key op h =
    commit_steps-kept t steps _ _ key op
      (if_react-kept (is_ready t mask step) step.action t.event.actor w key op h)

-- what an operation returns, when it returns, has the property
abbrev Gives {ℓ κ} : {A : Type ℓ} → (A → Type κ) → Attempt A → Type κ
Gives P (done a) = P a
Gives P full = Unit
Gives P panic = Unit

bind-Gives {ℓ κ μ ν} :
    {A : Type ℓ} {B : Type κ} (Q : A → Type μ) (P : B → Type ν) (o : Attempt A) (f : A → Attempt B)
    → Gives Q o
    → ((a : A) → Q a → Gives P (f a))
    → Gives P (o >>= f)
bind-Gives Q P (done a) f h hf = hf a h
bind-Gives Q P full f h hf = tt
bind-Gives Q P panic f h hf = tt

any {ℓ} : {A : Type ℓ} (o : Attempt A) → Gives (λ (_ : A). Unit {0}) o
any (done a) = tt
any full = tt
any panic = tt

Gives-done {ℓ κ} :
    {A : Type ℓ} (P : A → Type κ) (o : Attempt A) (a : A) → Gives P o → o ≡ done a → P a
Gives-done P o a h e = subst (Gives P) e h

module _ (key : Key) (op : Op) where
  advance_autos-kept :
      (t : Tagged) (patterns : List DagPattern) (autos : List (ℕ × ℕ)) (w : Sweep)
      → dis_check w.dis key op ≡ true
      → Gives
          (λ (x : List (ℕ × ℕ) × Sweep). dis_check x.1.dis key op ≡ true)
          (advance_autos t patterns autos w)
  unfolding advance_autos
  advance_autos-kept t patterns [] w h = h
  advance_autos-kept t patterns ((pid, mask) ∷ autos) w h =
      elim (Option-cases (get_elem? patterns pid)) [
        | inl e ↦ rw (e, advance_autos) tt
        | inr (p, e) ↦
            rw (e, advance_autos)
              (bind-Gives (λ (x : List (ℕ × ℕ) × Sweep). dis_check x.1.dis key op ≡ true) _
                (advance_autos t patterns autos (commit_steps t p.steps mask w).1) _
                (advance_autos-kept t patterns autos (commit_steps t p.steps mask w).1
                  (commit_steps-kept t p.steps mask w key op h))
                (λ x k. k))
      ]

  advance-kept :
      (line : ℕ) (t : Tagged) (g : Engine)
      → dis_check g.state.dis key op ≡ true
      → Gives (λ (x : Verdict × Engine). dis_check x.1.state.dis key op ≡ true) (advance line t g)
  unfolding advance
  advance-kept line t g h =
      bind-Gives (λ _. Unit) _ (line_at line g.state) _ (any (line_at line g.state))
        (λ l _.
          bind-Gives (λ (x : List (ℕ × ℕ) × Sweep). dis_check x.1.dis key op ≡ true) _
            (advance_autos t g.rules.patterns (seed t 0 g.rules.patterns l.autos)
              (record { verdict = Verdict.ignore; dis = g.state.dis }))
            _
            (advance_autos-kept t g.rules.patterns (seed t 0 g.rules.patterns l.autos)
              (record { verdict = Verdict.ignore; dis = g.state.dis }) h)
            (λ x k. k))

either {ℓ κ} :
    {A : Type ℓ} (P : A → Type κ) (b : Bool) (x y : A) → P x → P y → P (if b then x else y)
either P true x y hx hy = hx
either P false x y hx hy = hy

SameDis : State → State → Type 0
SameDis s s' = s'.dis ≡ s.dis

alloc_line-dis : (s : State) → Gives (λ (x : ℕ × State). SameDis s x.1) (alloc_line s)
unfolding alloc_line SameDis
alloc_line-dis s = elim (Option-cases (free_line 0 s.lines)) [
  | inl e ↦ rw (e, alloc_line) tt
  | inr (i, e) ↦ rw (e, alloc_line) refl
]

new_entity-dis :
    (i : ℕ) (k : Key) (s : State) → Gives (λ (x : ℕ × State). SameDis s x.1) (new_entity i k s)
unfolding new_entity SameDis
new_entity-dis i k s =
    bind-Gives (λ (x : ℕ × State). SameDis s x.1) _ (alloc_line s) _ (alloc_line-dis s)
      (λ x e. bind-Gives (λ _. Unit) _ (line_at x.0 x.1) _ (any (line_at x.0 x.1)) (λ l _. e))

-- `unify` leaves the table of the disarmed alone.
resolve_line-dis :
    (k : Key) (s : State) → Gives (λ (x : ℕ × State). SameDis s x.1) (resolve_line k s)
unfolding resolve_line SameDis
resolve_line-dis k s = elim (Option-cases (probe cap_ent k s.ent)) [
  | inl e ↦ rw (e, resolve_line) tt
  | inr (i, e) ↦ elim (Option-cases (value_at i s.ent)) [
    | inl free ↦ rw (e, resolve_line) (rw free (new_entity-dis i k s))
    | inr (line, held) ↦ rw (e, resolve_line) (rw held refl)
  ]
]

move_line-dis : (dst src : ℕ) (d l : Line) (s : State) → SameDis s (move_line dst src d l s)
unfolding move_line SameDis
move_line-dis dst src d l s = either (SameDis s) _ s _ refl refl

merge-dis : (x y : ℕ) (s : State) → Gives (SameDis s) (merge x y s)
unfolding merge
merge-dis x y s =
    bind-Gives (λ _. Unit) _ (line_at x s) _ (any (line_at x s))
      (λ lx _.
        bind-Gives (λ _. Unit) _ (line_at y s) _ (any (line_at y s))
          (λ ly _.
            either (SameDis s) (leb (length ly.members) (length lx.members)) _ _
              (move_line-dis x y lx ly s) (move_line-dis y x ly lx s)))

unify-dis : (a o : Key) (s : State) → Gives (λ (x : ℕ × State). SameDis s x.1) (unify a o s)
unfolding unify SameDis
unify-dis a o s =
    bind-Gives (λ (x : ℕ × State). SameDis s x.1) _ (resolve_line a s) _ (resolve_line-dis a s)
      (λ x e.
        bind-Gives (λ (y : ℕ × State). SameDis x.1 y.1) _ (resolve_line o x.1) _
          (resolve_line-dis o x.1)
          (λ y e'.
            bind-Gives (λ (z : State). SameDis y.1 z) _
              (if x.0 == y.0 then done y.1 else merge x.0 y.0 y.1) _
              (either (Gives (SameDis y.1)) (x.0 == y.0) (done y.1) (merge x.0 y.0 y.1) refl
                (merge-dis x.0 y.0 y.1))
              (λ z e''. e'' ∙ e' ∙ e)))

after_full-dis : (a o : Key) (s : State) → SameDis s (after_full a o s)
unfolding after_full SameDis
after_full-dis a o s = by_cases (resolve_line a s) (resolve_line-dis a s)
  where
    by_cases :
        (r : Attempt (ℕ × State))
        → Gives (λ (x : ℕ × State). SameDis s x.1) r
        → SameDis s (elim r [ full ↦ s | panic ↦ s | done (sa, s1) ↦ s1 ])
    by_cases full h = refl
    by_cases panic h = refl
    by_cases (done (sa, s1)) h = h

-- Whatever an event does, caps met included, what was taken from any actor before stays taken.
pub on_event-kept :
    (t : Tagged) (g : Engine) (v : Verdict) (g' : Engine) (key : Key) (op : Op)
    → on_event t g ≡ done (v, g')
    → dis_check g.state.dis key op ≡ true
    → dis_check g'.state.dis key op ≡ true
unfolding on_event SameDis
on_event-kept t g v g' key op run h =
    Gives-done Kept (on_event t g) (v, g')
      (either (Gives Kept) (dis_check g.state.dis t.event.actor t.event.op) _ _ h (
        by_cases (unify t.event.actor t.event.object g.state)
          (unify-dis t.event.actor t.event.object g.state)))
      run
  where
    Kept : Verdict × Engine → Type 0
    Kept x = dis_check x.1.state.dis key op ≡ true

    by_cases :
        (r : Attempt (ℕ × State))
        → Gives (λ (x : ℕ × State). SameDis g.state x.1) r
        → Gives Kept (elim r [
          | panic ↦ panic
          | full ↦
              done (
                Verdict.ignore,
                record g { state = after_full t.event.actor t.event.object g.state },
              )
          | done (line, s) ↦ advance line t (record g { state = s })
        ])
    by_cases full e =
        ap (λ d. dis_check d key op) (after_full-dis t.event.actor t.event.object g.state) ∙ h
    by_cases panic e = tt
    by_cases (done (line, s)) e =
        advance-kept key op line t (record g { state = s }) (ap (λ d. dis_check d key op) e ∙ h)

-- On the kernel's engine too an operation that was taken from an actor is blocked in every later event,
-- and the event changes nothing, whatever event came before it.
pub disarmed_stays_blocked :
    (t : Tagged) (g : Engine) (v : Verdict) (g' : Engine) (later : Tagged)
    → on_event t g ≡ done (v, g')
    → dis_check g.state.dis later.event.actor later.event.op ≡ true
    → on_event later g' ≡ done (Verdict.block, g')
unfolding on_event
disarmed_stays_blocked t g v g' later run h =
    rw (on_event-kept t g v g' later.event.actor later.event.op run h) refl
