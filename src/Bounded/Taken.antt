-- ===== src/Bounded/Taken.antt =====
-- `DISARMED` of engine_core/src/v0_0_2_bounded.rs as a hash table: an insertion keeps what was taken.
use correlation_engine.Prelude.{
  ℕ, ◌≡◌, sym, ◌∙◌, ap, true, Option, none, some, bit_or, ◌==◌, ==_iff, arith, Bool-cases,
  Option-cases, some_inj, inl, inr,
}
use correlation_engine.Prelude.Lists.{get_elem?, set}
use correlation_engine.Event.{Key, Op}
use correlation_engine.Event.OpSet
use correlation_engine.Event.OpSet.{OpSet, contains-union}
use correlation_engine.Rules.{Action}
use correlation_engine.Bounded.{cap_dis, dis_check, dis_insert, apply_action, Sweep, react}
use correlation_engine.Bounded.Table.{
  Slots, probe, value_at, Found, walk-Found, walk-set, holder-set, value_at-own, own_slot,
}

probe-Found :
    (key : Key) (dis : Slots OpSet) (j : ℕ) → probe cap_dis key dis ≡ some j → Found key dis j
unfolding probe
probe-Found key dis j run = walk-Found cap_dis cap_dis _ key dis j run

-- `dis_check` says yes exactly when the key's own slot holds the operation
record Holds (dis : Slots OpSet) (key : Key) (op : Op) : Type 0 where
  at_slot : ℕ
  ops : OpSet
  walked : probe cap_dis key dis ≡ some at_slot
  held : get_elem? dis at_slot ≡ some (some (key, ops))
  has : OpSet.contains ops op ≡ true

dis_check→Holds :
    (dis : Slots OpSet) (key : Key) (op : Op) → dis_check dis key op ≡ true → Holds dis key op
unfolding dis_check OpSet.contains
dis_check→Holds dis key op h = elim (Option-cases (probe cap_dis key dis)) [
  | inl e ↦ absurd (cc (rw (e, dis_check) at h))
  | inr (j, e) ↦ elim (Option-cases (value_at j dis)) [
    | inl free ↦ absurd (cc (rw (free, dis_check) at (rw (e, dis_check) at h)))
    | inr (ops, value) ↦ record {
      at_slot = j;
      ops = ops;
      walked = e;
      held = own_slot dis key j ops (probe-Found key dis j e) value;
      has = rw value at (rw (e, dis_check) at h);
    }
  ]
]

Holds→dis_check :
    (dis : Slots OpSet) (key : Key) (op : Op) → Holds dis key op → dis_check dis key op ≡ true
unfolding dis_check OpSet.contains
Holds→dis_check dis key op h =
    rw (h.walked, dis_check) (rw (value_at-own h.at_slot dis key h.ops h.held) h.has)

Holds-set :
    (dis : Slots OpSet) (key : Key) (op : Op) (at_slot : ℕ) (actor : Key) (w : OpSet)
    → Holds dis key op
    → Found actor dis at_slot
    → ((v : OpSet)
        → value_at at_slot dis ≡ some v
        → OpSet.contains v op ≡ true
        → OpSet.contains w op ≡ true)
    → Holds (set dis at_slot (some (actor, w))) key op
unfolding probe
Holds-set dis key op at_slot actor w h f grows =
    let (ops', held', (same, apart)) =
      holder-set h.at_slot dis key h.ops at_slot actor w h.held f in
    record {
      at_slot = h.at_slot;
      ops = ops';
      walked = walk-set cap_dis cap_dis _ key dis h.at_slot h.ops at_slot actor w h.walked h.held f;
      held = held';
      has = elim (Bool-cases (at_slot == h.at_slot)) [
        | inl eq ↦
            let e : at_slot ≡ h.at_slot = (==_iff at_slot h.at_slot).0 eq in
            ap (λ (x : OpSet). OpSet.contains x op) (same e).1
            ∙ grows h.ops
                (ap (λ (x : ℕ). value_at x dis) e ∙ value_at-own h.at_slot dis key h.ops h.held)
                h.has
        | inr ne ↦
            ap (λ (x : OpSet). OpSet.contains x op)
              (apart (λ e. ground (arith, (==_iff at_slot h.at_slot).1 e)))
            ∙ h.has
      ];
    }

dis_insert-Holds :
    (dis : Slots OpSet) (actor : Key) (ops : OpSet) (key : Key) (op : Op)
    → Holds dis key op
    → Holds (dis_insert actor ops dis) key op
unfolding dis_insert OpSet.union
dis_insert-Holds dis actor ops key op h = elim (Option-cases (probe cap_dis actor dis)) [
  | inl e ↦ rw (e, dis_insert) h
  | inr (i, e) ↦ elim (Option-cases (value_at i dis)) [
    | inl free ↦
        rw (e, dis_insert)
          (rw free (Holds-set dis key op i actor ops h (probe-Found actor dis i e) (λ v value. cc)))
    | inr (old, value) ↦
        rw (e, dis_insert)
          (rw value (
            Holds-set dis key op i actor (bit_or old ops) h (probe-Found actor dis i e)
              (λ v value' has.
                let same : old ≡ v = some_inj (sym value ∙ value') in
                ground (
                  arith,
                  contains-union old ops op,
                  ap (λ (x : OpSet). OpSet.contains x op) same,
                ))))
  ]
]

-- A disarm never shrinks the table: what was taken from any actor stays taken.
pub dis_check-react :
    (action : Option Action) (actor : Key) (w : Sweep) (key : Key) (op : Op)
    → dis_check w.dis key op ≡ true
    → dis_check (react action actor w).dis key op ≡ true
unfolding react apply_action
dis_check-react none actor w key op h = h
dis_check-react (some Action.block) actor w key op h = h
dis_check-react (some (Action.disarm ops)) actor w key op h =
    Holds→dis_check (dis_insert actor ops w.dis) key op
      (dis_insert-Holds w.dis actor ops key op (dis_check→Holds w.dis key op h))
