-- ===== src/Ffi.antt =====
-- engine_core/src/ffi.rs: the C interface, over the engine of v0_0_2.rs. A pointer is an `Option`, `none`
-- the null pointer; a buffer that a pointer and a length describe is the list behind the pointer. The
-- outer `none` of `engine_on_event` is a panic.
pub mod Total
use correlation_engine.Prelude.{
  ℕ, ◌*◌, ◌^◌, Bool, true, false, not, ◌&&◌, ◌||◌, Option, none, some, List, [], ◌++◌, min, bit_or,
  ◌==◌, if◌then◌else◌, ◌>>=◌,
}
use correlation_engine.Prelude.Lists.{length, take, drop}
use correlation_engine.Event.{Key, Kind, Op, Ttp, Event}
use correlation_engine.Detector.{Verdict, Tagged, rank}
use correlation_engine.Dag.{Engine, try_new, referenced_ttps, on_event}
use correlation_engine.Rules.{DagRuleSet}
use correlation_engine.Wire.{decode_dag}
use correlation_engine.Wire.Primitives.{Result, ok, err}

pub record CEvent : Type 0 where
  pub ts : ℕ
  pub op : ℕ
  pub actor_lo : ℕ
  pub actor_hi : ℕ
  pub actor_kind : ℕ
  pub object_lo : ℕ
  pub object_hi : ℕ
  pub object_kind : ℕ

unfoldable pub make_key : ℕ → ℕ → Key
make_key lo hi = bit_or (hi * 2 ^ 64) lo

unfoldable pub op_from_index : ℕ → Option Op
op_from_index i =
    if i == 0
    then some Op.exec
    else if i == 1
    then some Op.create
    else if i == 2
    then some Op.write
    else if i == 3
    then some Op.read
    else if i == 4
    then some Op.open_op
    else if i == 5
    then some Op.connect
    else if i == 6
    then some Op.inject
    else if i == 7
    then some Op.dup
    else none

unfoldable pub kind_from_index : ℕ → Kind
kind_from_index i =
    if i == 0
    then Kind.process
    else if i == 1
    then Kind.file
    else if i == 2
    then Kind.socket
    else Kind.other

unfoldable pub to_event : CEvent → Option Event
to_event c = do
  op ← op_from_index c.op
  some (record {
    ts = c.ts;
    op = op;
    actor = make_key c.actor_lo c.actor_hi;
    actor_kind = kind_from_index c.actor_kind;
    object = make_key c.object_lo c.object_hi;
    object_kind = kind_from_index c.object_kind;
  })

abbrev is_null {ℓ} : {A : Type ℓ} → Option A → Bool
is_null none = true
is_null (some a) = false

-- the elements that a pointer and a length stand for
abbrev elements : Option (List ℕ) → ℕ → List ℕ
elements none n = []
elements (some xs) n = take n xs

-- `.ok().and_then(Engine::try_new)`
abbrev engine_of : Result DagRuleSet → Option Engine
engine_of (ok rules) = try_new rules
engine_of (err e) = none

unfoldable pub engine_create : Option (List ℕ) → ℕ → Option Engine
engine_create rules len =
    if is_null rules && not (len == 0) then none else engine_of (decode_dag (elements rules len))

unfoldable pub handle_event : Option Event → List Ttp → Engine → Option (ℕ × Engine)
handle_event none ttps g = some (0, g)
handle_event (some e) ttps g = do
  (v, g') ← on_event (record { event = e; ttps = ttps }) g
  some (rank v, g')

unfoldable pub engine_on_event :
    Option Engine → Option CEvent → Option (List ℕ) → ℕ → Option (ℕ × Option Engine)
engine_on_event none ev ttps len = some (0, none)
engine_on_event (some g) none ttps len = some (0, some g)
engine_on_event (some g) (some c) ttps len = do
  (v, g') ← handle_event (to_event c) (elements ttps len) g
  some (v, some g')

-- the total, and the buffer `out` with the first of the TTPs written over it
unfoldable pub engine_referenced_ttps : Option Engine → Option (List ℕ) → ℕ → ℕ × Option (List ℕ)
engine_referenced_ttps none out cap = (0, out)
engine_referenced_ttps (some g) none cap = (length (referenced_ttps g), none)
engine_referenced_ttps (some g) (some buffer) cap =
    let n = min cap (length (referenced_ttps g)) in
    (length (referenced_ttps g), some (take n (referenced_ttps g) ++ drop n buffer))
