-- ===== src/Edr.antt =====
-- v1/engine/src/event.rs, the crate `edr_engine`: the operations and the keys of nodes. A `String` is its
-- code points. endpoint_service uses a later version of this crate, which is not in the repository, by
-- the same names.
pub mod UnionFind
pub mod Automaton
use correlation_engine.Prelude.{ℕ, Bool, true, false, Option, none, some, List, if◌then◌else◌}
use correlation_engine.Prelude.Texts.{codes, equal}

pub data Op : Type 0 where
  exec open_op read write connect inject create delete load dup : Op

-- only these edges merge storylines
unfoldable pub is_causal : Op → Bool
is_causal exec = true
is_causal inject = true
is_causal create = true
is_causal dup = true
is_causal write = true
is_causal open_op = false
is_causal read = false
is_causal connect = false
is_causal delete = false
is_causal load = false

unfoldable pub parse : List ℕ → Option Op
parse s =
    if equal s (codes "exec")
    then some exec
    else if equal s (codes "open")
    then some open_op
    else if equal s (codes "read")
    then some read
    else if equal s (codes "write")
    then some write
    else if equal s (codes "connect")
    then some connect
    else if equal s (codes "inject")
    then some inject
    else if equal s (codes "create")
    then some create
    else if equal s (codes "delete")
    then some delete
    else if equal s (codes "load")
    then some load
    else if equal s (codes "dup")
    then some dup
    else none

pub data NodeKey : Type 0 where
  process : (pid start_ts : ℕ) → NodeKey
  file : (file_id : List ℕ) → NodeKey
  socket : (key : List ℕ) → NodeKey
  other : (kind key : List ℕ) → NodeKey
