-- ===== src/Control.antt =====
-- endpoint_service/src/control.rs: the commands that the service sends down to the driver. Bytes are
-- numbers. `ArmCmd` has the two shapes that `encode` matches.
pub mod RoundTrip
pub mod Frame
use correlation_engine.Prelude.{
  ℕ, ◌%◌, ◌^◌, Bool, Option, none, some, List, [], ◌∷◌, ◌++◌, ltb, ◌==◌, if◌then◌else◌,
}
use correlation_engine.Prelude.Lists.{length, take, drop}
use correlation_engine.Wire.Primitives.{le_bytes, from_le}
use correlation_engine.Edr.{Op, NodeKey}

pub data ArmCmd : Type 0 where
  arm : (actor : NodeKey) (op : Op) → ArmCmd
  disarm : (actor : NodeKey) → ArmCmd

unfoldable pub op_code : Op → ℕ
op_code Op.exec = 1
op_code Op.read = 2
op_code Op.write = 3
op_code Op.inject = 4
op_code Op.open_op = 5
op_code Op.connect = 6
op_code Op.create = 7
op_code Op.delete = 8
op_code Op.load = 9
op_code Op.dup = 10

unfoldable pub op_from_code : ℕ → Option Op
op_from_code c =
    if c == 1
    then some Op.exec
    else if c == 2
    then some Op.read
    else if c == 3
    then some Op.write
    else if c == 4
    then some Op.inject
    else if c == 5
    then some Op.open_op
    else if c == 6
    then some Op.connect
    else if c == 7
    then some Op.create
    else if c == 8
    then some Op.delete
    else if c == 9
    then some Op.load
    else if c == 10
    then some Op.dup
    else none

-- only the identity of a process can be enforced in the kernel
unfoldable pub command : ℕ → ℕ → NodeKey → Option (List ℕ)
command kind op (NodeKey.process pid start_ms) =
    some (kind ∷ op ∷ 0 ∷ 0 ∷ (le_bytes 4 pid ++ le_bytes 8 start_ms))
command kind op (NodeKey.file id) = none
command kind op (NodeKey.socket key) = none
command kind op (NodeKey.other k key) = none

unfoldable pub encode : ArmCmd → Option (List ℕ)
encode (arm actor op) = command 1 (op_code op) actor
encode (disarm actor) = command 2 0 actor

-- `Result<ArmCmd, String>`, with a constructor for each message
pub data Decoded : Type 0 where
  ok : ArmCmd → Decoded
  too_short bad_op unknown_kind : ℕ → Decoded

abbrev pub arm_for : Option Op → ℕ → NodeKey → Decoded
arm_for none code actor = bad_op code
arm_for (some op) code actor = ok (arm actor op)

-- `rec[from..from + n]` as a number, within the 16 bytes that were checked
abbrev pub field : ℕ → ℕ → List ℕ → ℕ
field n from rec = from_le (take n (drop from rec))

unfoldable pub decode : List ℕ → Decoded
decode rec =
    if ltb (length rec) 16
    then too_short (length rec)
    else if field 1 0 rec == 1
    then arm_for (op_from_code (field 1 1 rec)) (field 1 1 rec)
        (NodeKey.process (field 4 4 rec) (field 8 8 rec))
    else if field 1 0 rec == 2
    then ok (disarm (NodeKey.process (field 4 4 rec) (field 8 8 rec)))
    else unknown_kind (field 1 0 rec)

abbrev pub or_nothing : Option (List ℕ) → List ℕ
or_nothing none = []
or_nothing (some bytes) = bytes

unfoldable pub encode_frame : List ArmCmd → List ℕ
encode_frame [] = []
encode_frame (c ∷ cs) = or_nothing (encode c) ++ encode_frame cs

unfoldable pub encode_set_self : ℕ → List ℕ
encode_set_self pid = 3 ∷ 0 ∷ 0 ∷ 0 ∷ (le_bytes 4 pid ++ le_bytes 8 0)

unfoldable pub encode_register_ring : ℕ → ℕ → List ℕ
encode_register_ring ring_bytes doorbell =
    4 ∷ 0 ∷ 0 ∷ 0 ∷ (le_bytes 4 ring_bytes ++ le_bytes 8 doorbell)

-- of any length, unlike the others
unfoldable pub encode_set_rules : List ℕ → List ℕ
encode_set_rules wire = 6 ∷ 0 ∷ 0 ∷ 0 ∷ (le_bytes 4 (length wire % 2 ^ 32) ++ wire)

unfoldable pub encode_verdict : ℕ → Bool → List ℕ
encode_verdict req_id deny =
    5 ∷ (if deny then 1 else 0) ∷ 0 ∷ 0 ∷ (le_bytes 4 req_id ++ le_bytes 8 0)
