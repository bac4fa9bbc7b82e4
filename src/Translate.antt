-- ===== src/Translate.antt =====
-- endpoint_service/src/translate.rs: the records of the sensor as events of the crate `edr_engine`. `Attrs`
-- has the fields that are set here, the others keep their defaults; a text is its code points.
pub mod Identity
use correlation_engine.Prelude.{
  ℕ, ◌/◌, ◌^◌, Bool, true, false, not, Option, none, some, List, [], ◌∷◌, bit_and, leb, ◌==◌,
  if◌then◌else◌,
}
use correlation_engine.Prelude.Texts.{is_nil}
use correlation_engine.Edr.{Op, NodeKey}
use correlation_engine.Sensor.{SensorEvent}

pub record Attrs : Type 0 where
  pub image : Option (List ℕ)
  pub cmd : Option (List ℕ)
  pub target_image : Option (List ℕ)
  pub vm_read : Bool

abbrev pub default_attrs : Attrs
default_attrs = record { image = none; cmd = none; target_image = none; vm_read = false }

pub record EdrEvent : Type 0 where
  pub ts : ℕ
  pub op : Op
  pub actor : NodeKey
  pub object : NodeKey
  pub attrs : Attrs

-- `(ts.max(0) / 10_000) as u64`, of a time as its bit pattern
unfoldable pub ms : ℕ → ℕ
ms ts = if leb (2 ^ 63) ts then 0 else ts / 10000

unfoldable pub proc : ℕ → ℕ → NodeKey
proc pid start = NodeKey.process pid (ms start)

abbrev pub ev : ℕ → Op → NodeKey → NodeKey → Attrs → Option EdrEvent
ev ts op actor object attrs =
    some (record { ts = ts; op = op; actor = actor; object = object; attrs = attrs })

abbrev pub open_attrs : ℕ → List ℕ → Attrs
open_attrs access target_image = record {
  image = none;
  cmd = none;
  target_image = if is_nil target_image then none else some target_image;
  vm_read = not (bit_and access 0x10 == 0);
}

unfoldable pub to_engine_event : SensorEvent → Option EdrEvent
to_engine_event (SensorEvent.process_exist ts pid start image) = none
to_engine_event (SensorEvent.process_exit ts pid start) = none
to_engine_event (SensorEvent.process_create ts pid start child_pid child_start image cmdline) =
    ev (ms ts) Op.exec (proc pid start) (proc child_pid child_start)
      (record { image = some image; cmd = some cmdline; target_image = none; vm_read = false })
to_engine_event (SensorEvent.file_open ts pid start file_name) =
    ev (ms ts) Op.open_op (proc pid start) (NodeKey.file file_name) default_attrs
to_engine_event (SensorEvent.file_write ts pid start file_name) =
    ev (ms ts) Op.write (proc pid start) (NodeKey.file file_name) default_attrs
to_engine_event
      (SensorEvent.process_open ts pid start target_pid target_start access target_image) =
    ev (ms ts) Op.read (proc pid start) (proc target_pid target_start)
      (open_attrs access target_image)
to_engine_event (SensorEvent.remote_thread_create ts pid start target_pid target_start thread_id) =
    ev (ms ts) Op.inject (proc pid start) (proc target_pid target_start) default_attrs
