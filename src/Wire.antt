-- ===== src/Wire.antt =====
-- engine_core/src/wire.rs: the byte format of a compiled ruleset, linear (`ERL1`) and DAG (`ERD1`).
-- Bytes are numbers. A `Reader` is the bytes that are left, `self.bytes[self.pos..]`: its position only
-- grows, within the length, so `checked_add` does not overflow. A name is its bytes.
pub mod Primitives
pub mod Utf8
pub mod Fields
pub mod RoundTrip
use correlation_engine.Prelude.{
  ℕ, zero, suc, ◌%◌, ◌^◌, Bool, Option, none, some, List, [], ◌∷◌, ◌++◌, if◌then◌else◌, ◌==◌,
}
use correlation_engine.Prelude.Lists.{length}
use correlation_engine.Event.{Ttp}
use correlation_engine.Rules
use correlation_engine.Rules.{
  Action, StepMatch, Step, Pattern, RuleSet, DagStep, DagPattern, DagRuleSet,
}
use Primitives.{
  WireError, bad_magic, bad_utf8, bad_action, trailing_bytes, Result, ok, err, ◌>>=◌, le_bytes,
  take, u8, u16, u32, u64, same_bytes,
}
use Utf8.{is_utf8}

abbrev pub magic : List ℕ
magic = b'E' ∷ b'R' ∷ b'L' ∷ b'1' ∷ []

abbrev pub magic_dag : List ℕ
magic_dag = b'E' ∷ b'R' ∷ b'D' ∷ b'1' ∷ []

-- ---- encode: the bytes that each function appends to `out`

unfoldable pub encode_ttps : List Ttp → List ℕ
encode_ttps [] = []
encode_ttps (t ∷ ts) = le_bytes 4 t ++ encode_ttps ts

unfoldable pub encode_match : StepMatch → List ℕ
encode_match m = le_bytes 4 m.ops ++ (length m.ttps % 2 ^ 8 ∷ encode_ttps m.ttps)

unfoldable pub encode_action : Option Action → List ℕ
encode_action none = 0 ∷ []
encode_action (some Action.block) = 1 ∷ []
encode_action (some (Action.disarm ops)) = 2 ∷ le_bytes 4 ops

unfoldable pub encode_steps : List Step → List ℕ
encode_steps [] = []
encode_steps (s ∷ ss) = encode_match s.matcher ++ (encode_action s.action ++ encode_steps ss)

unfoldable pub encode_patterns : List Pattern → List ℕ
encode_patterns [] = []
encode_patterns (p ∷ ps) =
    le_bytes 2 (length p.name % 2 ^ 16)
    ++ (p.name
        ++ (le_bytes 2 (length p.steps % 2 ^ 16) ++ (encode_steps p.steps ++ encode_patterns ps)))

unfoldable pub encode : RuleSet → List ℕ
encode r = magic ++ (le_bytes 2 (length r.patterns % 2 ^ 16) ++ encode_patterns r.patterns)

unfoldable pub encode_dag_steps : List DagStep → List ℕ
encode_dag_steps [] = []
encode_dag_steps (s ∷ ss) =
    s.bit
    ∷ (le_bytes 8 s.prereq_mask
        ++ (encode_match s.matcher ++ (encode_action s.action ++ encode_dag_steps ss)))

unfoldable pub encode_dag_patterns : List DagPattern → List ℕ
encode_dag_patterns [] = []
encode_dag_patterns (p ∷ ps) =
    le_bytes 2 (length p.name % 2 ^ 16)
    ++ (p.name
        ++ (le_bytes 2 (length p.steps % 2 ^ 16)
            ++ (encode_dag_steps p.steps ++ encode_dag_patterns ps)))

unfoldable pub encode_dag : DagRuleSet → List ℕ
encode_dag r =
    magic_dag ++ (le_bytes 2 (length r.patterns % 2 ^ 16) ++ encode_dag_patterns r.patterns)

-- ---- decode: each reader returns its value and the bytes left

unfoldable pub read_ttps : ℕ → List ℕ → Result (List Ttp × List ℕ)
read_ttps zero bs = ok ([], bs)
read_ttps (suc n) bs = do (t, bs1) ← u32 bs; (ts, bs2) ← read_ttps n bs1; ok (t ∷ ts, bs2)

unfoldable pub read_match : List ℕ → Result (StepMatch × List ℕ)
read_match bs = do
  (ops, bs1) ← u32 bs
  (count, bs2) ← u8 bs1
  (ttps, bs3) ← read_ttps count bs2
  ok (record { ops = ops; ttps = ttps }, bs3)

unfoldable pub read_disarm : List ℕ → Result (Option Action × List ℕ)
read_disarm bs = do (ops, bs1) ← u32 bs; ok (some (Action.disarm ops), bs1)

unfoldable pub action_of : ℕ → List ℕ → Result (Option Action × List ℕ)
action_of code bs =
    if code == 0
    then ok (none, bs)
    else if code == 1
    then ok (some Action.block, bs)
    else if code == 2
    then read_disarm bs
    else err (bad_action code)

unfoldable pub read_action : List ℕ → Result (Option Action × List ℕ)
read_action bs = do (code, bs1) ← u8 bs; action_of code bs1

unfoldable pub read_steps : ℕ → List ℕ → Result (List Step × List ℕ)
read_steps zero bs = ok ([], bs)
read_steps (suc n) bs = do
  (matcher, bs1) ← read_match bs
  (action, bs2) ← read_action bs1
  (steps, bs3) ← read_steps n bs2
  ok (record { matcher = matcher; action = action } ∷ steps, bs3)

unfoldable pub read_name : List ℕ → Result (List ℕ × List ℕ)
read_name bs = do
  (len, bs1) ← u16 bs
  (name, bs2) ← take len bs1
  if is_utf8 name then ok (name, bs2) else err bad_utf8

unfoldable pub read_patterns : ℕ → List ℕ → Result (List Pattern × List ℕ)
read_patterns zero bs = ok ([], bs)
read_patterns (suc n) bs = do
  (name, bs1) ← read_name bs
  (count, bs2) ← u16 bs1
  (steps, bs3) ← read_steps count bs2
  (patterns, bs4) ← read_patterns n bs3
  ok (record { name = name; steps = steps } ∷ patterns, bs4)

unfoldable pub expect_magic : List ℕ → List ℕ → Result (List ℕ)
expect_magic want bs = do
  (got, bs1) ← take 4 bs
  if same_bytes got want then ok bs1 else err bad_magic

unfoldable pub expect_end {ℓ} : {A : Type ℓ} → A → List ℕ → Result A
expect_end a [] = ok a
expect_end a (b ∷ bs) = err trailing_bytes

unfoldable pub decode : List ℕ → Result RuleSet
decode bs = do
  bs1 ← expect_magic magic bs
  (count, bs2) ← u16 bs1
  (patterns, bs3) ← read_patterns count bs2
  expect_end (record { patterns = patterns }) bs3

unfoldable pub read_dag_steps : ℕ → List ℕ → Result (List DagStep × List ℕ)
read_dag_steps zero bs = ok ([], bs)
read_dag_steps (suc n) bs = do
  (bit, bs1) ← u8 bs
  (prereq_mask, bs2) ← u64 bs1
  (matcher, bs3) ← read_match bs2
  (action, bs4) ← read_action bs3
  (steps, bs5) ← read_dag_steps n bs4
  ok (
    record { matcher = matcher; bit = bit; prereq_mask = prereq_mask; action = action } ∷ steps,
    bs5,
  )

unfoldable pub read_dag_patterns : ℕ → List ℕ → Result (List DagPattern × List ℕ)
read_dag_patterns zero bs = ok ([], bs)
read_dag_patterns (suc n) bs = do
  (name, bs1) ← read_name bs
  (count, bs2) ← u16 bs1
  (steps, bs3) ← read_dag_steps count bs2
  (patterns, bs4) ← read_dag_patterns n bs3
  ok (record { name = name; steps = steps } ∷ patterns, bs4)

unfoldable pub decode_dag : List ℕ → Result DagRuleSet
decode_dag bs = do
  bs1 ← expect_magic magic_dag bs
  (count, bs2) ← u16 bs1
  (patterns, bs3) ← read_dag_patterns count bs2
  expect_end (record { patterns = patterns }) bs3
