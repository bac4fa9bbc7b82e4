-- ===== src/Event.antt =====
-- engine_core/src/event.rs: the raw event that enters an engine, its operation and kinds.
-- Keys (u128), TTP ids (u32) and time stamps (u64) are numbers: the engines only compare them.
pub mod OpSet
use correlation_engine.Prelude.{ℕ, ◌^◌}

pub data Kind : Type 0 where
  process file socket other : Kind

pub data Op : Type 0 where
  exec create write read open_op connect inject dup : Op

abbrev pub Key : Type 0
Key = ℕ

abbrev pub Ttp : Type 0
Ttp = ℕ

-- the position of the operation's bit
unfoldable pub op_index : Op → ℕ
op_index exec = 0
op_index create = 1
op_index write = 2
op_index read = 3
op_index open_op = 4
op_index connect = 5
op_index inject = 6
op_index dup = 7

-- `op as u32`
unfoldable pub op_bit : Op → ℕ
op_bit op = 2 ^ op_index op

pub record Event : Type 0 where
  pub ts : ℕ
  pub op : Op
  pub actor : Key
  pub actor_kind : Kind
  pub object : Key
  pub object_kind : Kind
