-- ===== src/Compile/Tokens.antt =====
-- The steps of a rule text: `parse_step`, `parse_dag_step` and what they call, in
-- engine_rules/src/lib.rs.
use correlation_engine.Prelude.{
  ℕ, ◌^◌, ◌-◌, Option, none, some, List, [], ◌∷◌, ◌++◌, bit_or, leb, if◌then◌else◌,
}
use correlation_engine.Prelude.Texts.{
  codes, equal, trim, split, split_whitespace, split_once, strip_prefix, strip_last, parse_uint,
}
use correlation_engine.Event.{Op, Ttp}
use correlation_engine.Event.OpSet
use correlation_engine.Event.OpSet.{OpSet}
use correlation_engine.Rules.{Action, Step, DagStep}
use correlation_engine.Compile.{
  Fault, not_key_value, bad_bit, bit_range, bad_prereq, prereq_range, strange_op, strange_ttp,
  action_twice, strange_key, no_bit, strange_action, strange_disarm_op, empty_disarm, Result, ok,
  err, ◌>>=◌,
}

unfoldable pub parse_op : List ℕ → Option Op
parse_op name =
    if equal name (codes "exec")
    then some Op.exec
    else if equal name (codes "create")
    then some Op.create
    else if equal name (codes "write")
    then some Op.write
    else if equal name (codes "read")
    then some Op.read
    else if equal name (codes "open")
    then some Op.open_op
    else if equal name (codes "connect")
    then some Op.connect
    else if equal name (codes "inject")
    then some Op.inject
    else if equal name (codes "dup")
    then some Op.dup
    else none

unfoldable pub parse_ttp : List ℕ → Option Ttp
parse_ttp t = elim (strip_prefix (codes "T") t) [
  | none ↦ parse_uint (2 ^ 32 - 1) t
  | some digits ↦ parse_uint (2 ^ 32 - 1) digits
]

abbrev pub or_err {ℓ} : {A : Type ℓ} → ℕ → Fault → Option A → Result A
or_err line why none = err line why
or_err line why (some a) = ok a

-- `for name in ..split(..) { ops.insert(parse_op(name)..) }`
unfoldable pub insert_ops : ℕ → Fault → List (List ℕ) → OpSet → Result OpSet
insert_ops line why [] ops = ok ops
insert_ops line why (name ∷ names) ops = do
  op ← or_err line why (parse_op name)
  insert_ops line why names (OpSet.insert ops op)

unfoldable pub push_ttps : ℕ → List (List ℕ) → List Ttp → Result (List Ttp)
push_ttps line [] ttps = ok ttps
push_ttps line (t ∷ ts) ttps = do
  n ← or_err line strange_ttp (parse_ttp t)
  push_ttps line ts (ttps ++ (n ∷ []))

abbrev pub trimmed : List (List ℕ) → List (List ℕ)
trimmed [] = []
trimmed (s ∷ ss) = trim s ∷ trimmed ss

abbrev pub disarm_of : ℕ → OpSet → Result Action
disarm_of line ops = if OpSet.is_empty ops then err line empty_disarm else ok (Action.disarm ops)

unfoldable pub parse_disarm : ℕ → List ℕ → Result Action
parse_disarm line inner = do
  ops ← insert_ops line strange_disarm_op (trimmed (split b',' inner)) OpSet.empty
  disarm_of line ops

abbrev pub inner_of : List ℕ → Option (List ℕ)
inner_of v = elim (strip_prefix (codes "disarm(") v) [ none ↦ none | some s ↦ strip_last b')' s ]

unfoldable pub parse_action : List ℕ → ℕ → Result Action
parse_action v line =
    if equal v (codes "block")
    then ok Action.block
    else (or_err line strange_action (inner_of v) >>= parse_disarm line)

-- the variables of `parse_dag_step` before its loop ends; `parse_step` has the last three
pub record Fields : Type 0 where
  pub bit : Option ℕ
  pub prereq_mask : ℕ
  pub ops : OpSet
  pub ttps : List Ttp
  pub action : Option Action

abbrev pub no_fields : Fields
no_fields = record { bit = none; prereq_mask = 0; ops = OpSet.empty; ttps = []; action = none }

abbrev pub below_64 : ℕ → Fault → ℕ → Result ℕ
below_64 line why n = if leb 64 n then err line why else ok n

unfoldable pub set_bit : ℕ → List ℕ → Fields → Result Fields
set_bit line v f = do
  n ← or_err line bad_bit (parse_uint 255 v)
  bit ← below_64 line bit_range n
  ok (record f { bit = some bit })

unfoldable pub add_prereqs : ℕ → List (List ℕ) → ℕ → Result ℕ
add_prereqs line [] mask = ok mask
add_prereqs line (p ∷ ps) mask = do
  n ← or_err line bad_prereq (parse_uint 255 p)
  bit ← below_64 line prereq_range n
  add_prereqs line ps (bit_or mask (2 ^ bit))

unfoldable pub set_action : ℕ → List ℕ → Fields → Result Fields
set_action line v f = elim f.action [
  | some a ↦ err line action_twice
  | none ↦ do a ← parse_action v line; ok (record f { action = some a })
]

abbrev pub set_ops : ℕ → List ℕ → Fields → Result Fields
set_ops line v f = do
  ops ← insert_ops line strange_op (split b'|' v) f.ops
  ok (record f { ops = ops })

abbrev pub set_ttps : ℕ → List ℕ → Fields → Result Fields
set_ttps line v f = do ttps ← push_ttps line (split b',' v) f.ttps; ok (record f { ttps = ttps })

abbrev pub set_prereqs : ℕ → List ℕ → Fields → Result Fields
set_prereqs line v f = do
  mask ← add_prereqs line (split b',' v) f.prereq_mask
  ok (record f { prereq_mask = mask })

-- the keys that both kinds of step have
unfoldable pub set_common : ℕ → List ℕ → List ℕ → Fields → Result Fields
set_common line k v f =
    if equal k (codes "ops")
    then set_ops line v f
    else if equal k (codes "ttps")
    then set_ttps line v f
    else if equal k (codes "action")
    then set_action line v f
    else err line strange_key

unfoldable pub set_dag : ℕ → List ℕ → List ℕ → Fields → Result Fields
set_dag line k v f =
    if equal k (codes "bit")
    then set_bit line v f
    else if equal k (codes "prereq")
    then set_prereqs line v f
    else set_common line k v f

-- the loop over the tokens of a step
unfoldable pub read_tokens :
    (ℕ → List ℕ → List ℕ → Fields → Result Fields) → ℕ → List (List ℕ) → Fields → Result Fields
read_tokens set line [] f = ok f
read_tokens set line (tok ∷ toks) f = do
  (k, v) ← or_err line not_key_value (split_once b'=' tok)
  f' ← set line k v f
  read_tokens set line toks f'

unfoldable pub parse_step : List ℕ → ℕ → Result Step
parse_step rest line = do
  f ← read_tokens set_common line (split_whitespace rest) no_fields
  ok (record { matcher = record { ops = f.ops; ttps = f.ttps }; action = f.action })

unfoldable pub parse_dag_step : List ℕ → ℕ → Result DagStep
parse_dag_step rest line = do
  f ← read_tokens set_dag line (split_whitespace rest) no_fields
  bit ← or_err line no_bit f.bit
  ok (record {
    matcher = record { ops = f.ops; ttps = f.ttps };
    bit = bit;
    prereq_mask = f.prereq_mask;
    action = f.action;
  })
