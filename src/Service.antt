-- ===== src/Service.antt =====
-- `Service::process_batch` of endpoint_service/src/lib.rs: the frame of a driver through the sensor format
-- and the translation into the engine. The engine is the crate `edr_engine`, which is not in the
-- repository: its endpoint and backend are parameters, and so are what they send. The printed line of an
-- outcome is left out.
pub mod Counts
use correlation_engine.Prelude.{
  ℕ, ◌+◌, Bool, true, false, ◌||◌, Option, none, some, List, [], ◌∷◌, ◌++◌, if◌then◌else◌,
}
use correlation_engine.Control.{ArmCmd}
use correlation_engine.Translate.{EdrEvent, to_engine_event}
use correlation_engine.Sensor.{SensorEvent, parse_batch}
use correlation_engine.Sensor.Outcomes.{Outcome, ok, ◌>>=◌}

pub data Decision : Type 0 where
  allow deny : Decision

pub record EventOutcome : Type 0 where
  pub denied : Bool
  pub advanced : Bool
  pub completed : Bool

pub record BatchOutcome (Chain Message : Type 0) : Type 0 where
  pub outcomes : List EventOutcome
  pub chains : List Chain
  pub deny_batch : Bool
  pub state_only : ℕ
  pub arms : List ArmCmd
  pub wire : List Message

-- the parts of `edr_engine` that the service calls
pub record Pipeline (E B Chain Message V : Type 0) : Type 0 where
  pub on_event : EdrEvent → E → Decision × V × E
  pub drain_outbox : E → List Message × E
  pub drain_arm_cmds : E → List ArmCmd × E
  pub ingest : Message → B → Option Chain × B
  pub has_advanced : V → Bool
  pub has_completed : V → Bool

pub record Service (E B : Type 0) : Type 0 where
  pub endpoint : E
  pub backend : B
  pub remote : Bool
  pub events_seen : ℕ
  pub denies : ℕ

abbrev pub is_deny : Decision → Bool
is_deny allow = false
is_deny deny = true

abbrev pub or_else {ℓ} : {A : Type ℓ} → Option A → Option A → Option A
or_else none old = old
or_else (some a) old = some a

abbrev pub to_list {ℓ} : {A : Type ℓ} → Option A → List A
to_list none = []
to_list (some a) = a ∷ []

abbrev pub one_if : Bool → ℕ
one_if true = 1
one_if false = 0

module _ {E B Chain Message V : Type 0} (pipe : Pipeline E B Chain Message V) where
  -- the messages of one event into the backend of the process; the last chain stays
  unfoldable pub ingest_all : List Message → Option Chain → B → Option Chain × B
  ingest_all [] chain b = (chain, b)
  ingest_all (m ∷ ms) chain b = let (c, b') = pipe.ingest m b in ingest_all ms (or_else c chain) b'

  -- one event that the engine has an operation for
  unfoldable pub handle :
      EdrEvent → Service E B → BatchOutcome Chain Message → Service E B × BatchOutcome Chain Message
  handle ev s out =
      let (d, v, e1) = pipe.on_event ev s.endpoint in
      let (messages, e2) = pipe.drain_outbox e1 in
      let (chain, b) = if s.remote then (none, s.backend) else ingest_all messages none s.backend in
      (
        record {
          endpoint = e2;
          backend = b;
          remote = s.remote;
          events_seen = s.events_seen + 1;
          denies = s.denies + one_if (is_deny d);
        },
        record {
          outcomes =
              out.outcomes
              ++ (record {
                denied = is_deny d;
                advanced = pipe.has_advanced v;
                completed = pipe.has_completed v;
              }
                  ∷ []);
          chains = if is_deny d then out.chains ++ to_list chain else out.chains;
          deny_batch = is_deny d || out.deny_batch;
          state_only = out.state_only;
          arms = out.arms;
          wire = if s.remote then out.wire ++ messages else out.wire;
        },
      )

  abbrev pub process_event :
      Option EdrEvent
      → Service E B
      → BatchOutcome Chain Message
      → Service E B × BatchOutcome Chain Message
  process_event none s out = (s, record out { state_only = out.state_only + 1 })
  process_event (some ev) s out = handle ev s out

  unfoldable pub process_events :
      List SensorEvent
      → Service E B
      → BatchOutcome Chain Message
      → Service E B × BatchOutcome Chain Message
  process_events [] s out = (s, out)
  process_events (se ∷ ses) s out =
      let (s', out') = process_event (to_engine_event se) s out in process_events ses s' out'

  abbrev pub no_outcome : BatchOutcome Chain Message
  no_outcome = record {
    outcomes = [];
    chains = [];
    deny_batch = false;
    state_only = 0;
    arms = [];
    wire = [];
  }

  -- the arm commands of the batch go to the caller
  abbrev pub with_arms :
      Service E B × BatchOutcome Chain Message → Service E B × BatchOutcome Chain Message
  with_arms (s, out) =
      let (arms, e) = pipe.drain_arm_cmds s.endpoint in
      (record s { endpoint = e }, record out { arms = arms })

  unfoldable pub process_batch :
      List ℕ → Service E B → Outcome (Service E B × BatchOutcome Chain Message)
  process_batch payload s = do
    events ← parse_batch payload
    ok (with_arms (process_events events s no_outcome))
