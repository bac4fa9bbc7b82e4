-- ===== src/Detector.antt =====
-- engine_core/src/detector.rs: the verdict of one event, and the effect of a step's action.
pub mod Rights
use correlation_engine.Prelude.{ℕ, Bool, false, Option, none, some, ltb, if◌then◌else◌, List}
use correlation_engine.Prelude.Maps.{Map, get, insert, get_or_default}
use correlation_engine.Event.{Key, Op, Ttp, Event}
use correlation_engine.Event.OpSet
use correlation_engine.Event.OpSet.{OpSet}
use correlation_engine.Rules.{Action}

pub data Verdict : Type 0 where
  ignore inspect block disarm : Verdict

-- the discriminants of `repr(u32)`, by which the verdicts are ordered
unfoldable pub rank : Verdict → ℕ
rank ignore = 0
rank inspect = 1
rank block = 2
rank disarm = 3

unfoldable pub max_verdict : Verdict → Verdict → Verdict
unfolding rank
max_verdict a b = if ltb (rank b) (rank a) then a else b

unfoldable pub apply : Option Action → Key → Map OpSet → Verdict × Map OpSet
apply none actor disarmed = (inspect, disarmed)
apply (some Action.block) actor disarmed = (block, disarmed)
apply (some (Action.disarm ops)) actor disarmed = (
  disarm,
  insert actor (OpSet.union (get_or_default OpSet.empty (get actor disarmed)) ops) disarmed,
)

-- What a sweep over the steps builds up: the strongest verdict so far, and `DISARMED`.
pub record Reaction : Type 0 where
  pub verdict : Verdict
  pub disarmed : Map OpSet

-- `verdict = verdict.max(apply(action, actor, disarmed))`
unfoldable pub react : Option Action → Key → Reaction → Reaction
unfolding apply max_verdict
react action actor r =
    let (v, d) = apply action actor r.disarmed in
    record { verdict = max_verdict r.verdict v; disarmed = d }

-- The guard that stands before everything else in `on_event`.
unfoldable pub is_disarmed : Map OpSet → Key → Op → Bool
is_disarmed disarmed actor op = elim (get actor disarmed) [
  | none ↦ false
  | some ops ↦ OpSet.contains ops op
]

-- One event with its TTPs, the arguments of `Detector::on_event`.
pub record Tagged : Type 0 where
  pub event : Event
  pub ttps : List Ttp
