-- ===== src/Detector/Rights.antt =====
-- `DISARMED` only grows, and a `disarm` action takes its operations from the actor.
use correlation_engine.Prelude.{
  ℕ, ◌≤◌, ◌≡◌, refl, ◌∙◌, ap, ◌≢◌, true, ◌||◌, Option, none, some, ◌==◌, ==_iff, ==_refl,
  if◌then◌else◌, arith, Bool-cases, ◌⊎◌, inl, inr,
}
use correlation_engine.Prelude.Maps.{Map, get, insert, get-insert, get_or_default}
use correlation_engine.Event.{Key, Op}
use correlation_engine.Event.OpSet
use correlation_engine.Event.OpSet.{OpSet, contains-union}
use correlation_engine.Rules.{Action}
use correlation_engine.Detector.{Verdict, Reaction, rank, react, is_disarmed}

-- Adding operations keeps what was taken, and takes these.
is_disarmed-insert :
    (d : Map OpSet) (actor k : Key) (ops : OpSet) (op : Op)
    → is_disarmed (insert actor (OpSet.union (get_or_default OpSet.empty (get actor d)) ops) d) k op
      ≡ (if actor == k
          then OpSet.contains (get_or_default OpSet.empty (get actor d)) op || OpSet.contains ops op
          else is_disarmed d k op)
unfolding is_disarmed
is_disarmed-insert d actor k ops op = elim (Bool-cases (actor == k)) [
  | inl e ↦ ground (
    arith,
    get-insert actor k (OpSet.union (get_or_default OpSet.empty (get actor d)) ops) d,
    contains-union (get_or_default OpSet.empty (get actor d)) ops op,
  )
  | inr ne ↦
      ground
        (arith, get-insert actor k (OpSet.union (get_or_default OpSet.empty (get actor d)) ops) d)
]

held-contains :
    (d : Map OpSet) (k : Key) (op : Op)
    → is_disarmed d k op ≡ true
    → OpSet.contains (get_or_default OpSet.empty (get k d)) op ≡ true
unfolding is_disarmed
held-contains d k op h = ground arith

-- What was taken from an actor stays taken, whatever the action.
pub is_disarmed-react :
    (action : Option Action) (actor : Key) (r : Reaction) (k : Key) (op : Op)
    → is_disarmed r.disarmed k op ≡ true
    → is_disarmed (react action actor r).disarmed k op ≡ true
unfolding react
is_disarmed-react none actor r k op h = h
is_disarmed-react (some Action.block) actor r k op h = h
is_disarmed-react (some (Action.disarm ops)) actor r k op h =
    is_disarmed-insert r.disarmed actor k ops op ∙ elim (Bool-cases (actor == k)) [
      | inl e ↦ ground (
        arith,
        held-contains r.disarmed k op,
        ap (λ (x : ℕ). OpSet.contains (get_or_default OpSet.empty (get x r.disarmed)) op)
            ((==_iff actor k).0 e),
      )
      | inr ne ↦ rw ne h
    ]

-- Nothing is taken from anyone else.
pub is_disarmed-react_other :
    (action : Option Action) (actor : Key) (r : Reaction) (k : Key) (op : Op)
    → k ≢ actor
    → is_disarmed (react action actor r).disarmed k op ≡ is_disarmed r.disarmed k op
unfolding react
is_disarmed-react_other none actor r k op ne = refl
is_disarmed-react_other (some Action.block) actor r k op ne = refl
is_disarmed-react_other (some (Action.disarm ops)) actor r k op ne =
    is_disarmed-insert r.disarmed actor k ops op ∙ ground arith

-- A `disarm` action takes its operations from the actor.
pub is_disarmed-react_self :
    (ops : OpSet) (actor : Key) (r : Reaction) (op : Op)
    → OpSet.contains ops op ≡ true
    → is_disarmed (react (some (Action.disarm ops)) actor r).disarmed actor op ≡ true
unfolding react
is_disarmed-react_self ops actor r op h =
    is_disarmed-insert r.disarmed actor actor ops op ∙ ground (arith, ==_refl actor)

-- The verdict becomes `disarm` only by a `disarm` action.
pub react-disarm :
    (action : Option Action) (actor : Key) (r : Reaction)
    → (react action actor r).verdict ≡ Verdict.disarm
    → r.verdict ≢ Verdict.disarm
    → (ops : OpSet) × (action ≡ some (Action.disarm ops))
unfolding react
react-disarm none actor r h ne = absurd (ground arith)
react-disarm (some Action.block) actor r h ne = absurd (ground arith)
react-disarm (some (Action.disarm ops)) actor r h ne = (ops, refl)

-- A committed step never leaves the verdict `ignore`, and never lowers it.
pub react-rank :
    (action : Option Action) (actor : Key) (r : Reaction)
    → (rank r.verdict ≤ rank (react action actor r).verdict)
      × (1 ≤ rank (react action actor r).verdict)
unfolding react
react-rank none actor r = ground arith
react-rank (some Action.block) actor r = ground arith
react-rank (some (Action.disarm ops)) actor r = ground arith

pub Verdict-cases : (v : Verdict) → (v ≡ Verdict.disarm) ⊎ (v ≢ Verdict.disarm)
Verdict-cases Verdict.ignore = inr (λ e. cc)
Verdict-cases Verdict.inspect = inr (λ e. cc)
Verdict-cases Verdict.block = inr (λ e. cc)
Verdict-cases Verdict.disarm = inl refl
