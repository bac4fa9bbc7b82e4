-- ===== src/Wire/Fields.antt =====
-- What the rulesets of engine_core/src/wire.rs can hold to fit their fields, and that the reader takes
-- back each field that an encoder wrote.
use correlation_engine.Prelude.{
  ℕ, ◌%◌, ◌^◌, ◌<◌, ◌≡◌, refl, ◌∙◌, ap, true, Option, none, some, List, [], ◌∷◌, ◌++◌, arith,
}
use mathlib.Core.List.{append_assoc}
use correlation_engine.Prelude.Lists.{length, All}
use correlation_engine.Event.{Ttp}
use correlation_engine.Rules.{
  Action, StepMatch, Step, Pattern, RuleSet, DagStep, DagPattern, DagRuleSet,
}
use correlation_engine.Wire.Primitives.{
  Result, ok, le_bytes, from_le, u8, u16, u32, u64, same_bytes, length-le_bytes, from_le-le_bytes,
  take-append,
}
use correlation_engine.Wire.Utf8.{is_utf8}
use correlation_engine.Wire.{
  encode_ttps, encode_match, encode_action, read_ttps, read_match, read_disarm, action_of,
  read_action, read_name, expect_magic,
}

pub u16-le_bytes : (x : ℕ) (rest : List ℕ) → x < 2 ^ 16 → u16 (le_bytes 2 x ++ rest) ≡ ok (x, rest)
unfolding u16
u16-le_bytes x rest h =
    rw (take-append 2 (le_bytes 2 x) rest (length-le_bytes 2 x))
      (ap {B = Result (ℕ × List ℕ)} (λ y. ok (y, rest)) (from_le-le_bytes 2 x (omega arith)))

pub u32-le_bytes : (x : ℕ) (rest : List ℕ) → x < 2 ^ 32 → u32 (le_bytes 4 x ++ rest) ≡ ok (x, rest)
unfolding u32
u32-le_bytes x rest h =
    rw (take-append 4 (le_bytes 4 x) rest (length-le_bytes 4 x))
      (ap {B = Result (ℕ × List ℕ)} (λ y. ok (y, rest)) (from_le-le_bytes 4 x (omega arith)))

pub u64-le_bytes : (x : ℕ) (rest : List ℕ) → x < 2 ^ 64 → u64 (le_bytes 8 x ++ rest) ≡ ok (x, rest)
unfolding u64
u64-le_bytes x rest h =
    rw (take-append 8 (le_bytes 8 x) rest (length-le_bytes 8 x))
      (ap {B = Result (ℕ × List ℕ)} (λ y. ok (y, rest)) (from_le-le_bytes 8 x (omega arith)))

pub u8-cons : (b : ℕ) (rest : List ℕ) → u8 (b ∷ rest) ≡ ok (b, rest)
unfolding u8 from_le
u8-cons b rest =
    rw (take-append 1 (b ∷ []) rest refl)
      (ap {B = Result (ℕ × List ℕ)} (λ y. ok (y, rest)) (omega arith))

-- ---- what the format can carry

abbrev pub FitsMatch : StepMatch → Type 0
FitsMatch m = (m.ops < 2 ^ 32) × (length m.ttps < 2 ^ 8) × All (λ t. t < 2 ^ 32) m.ttps

abbrev pub FitsAction : Option Action → Type 0
FitsAction (some (Action.disarm ops)) = ops < 2 ^ 32
FitsAction _ = Unit {0}

abbrev pub FitsName : List ℕ → Type 0
FitsName name = (length name < 2 ^ 16) × (is_utf8 name ≡ true)

abbrev pub FitsStep : Step → Type 0
FitsStep s = FitsMatch s.matcher × FitsAction s.action

abbrev pub FitsPattern : Pattern → Type 0
FitsPattern p = FitsName p.name × (length p.steps < 2 ^ 16) × All FitsStep p.steps

abbrev pub Fits : RuleSet → Type 0
Fits r = (length r.patterns < 2 ^ 16) × All FitsPattern r.patterns

abbrev pub FitsDagStep : DagStep → Type 0
FitsDagStep s =
    (s.bit < 2 ^ 8) × (s.prereq_mask < 2 ^ 64) × FitsMatch s.matcher × FitsAction s.action

abbrev pub FitsDagPattern : DagPattern → Type 0
FitsDagPattern p = FitsName p.name × (length p.steps < 2 ^ 16) × All FitsDagStep p.steps

abbrev pub FitsDag : DagRuleSet → Type 0
FitsDag r = (length r.patterns < 2 ^ 16) × All FitsDagPattern r.patterns

-- ---- each reader takes back what its encoder wrote, and leaves the rest

read_ttps-encode :
    (ts : List Ttp) (rest : List ℕ)
    → All (λ t. t < 2 ^ 32) ts
    → read_ttps (length ts) (encode_ttps ts ++ rest) ≡ ok (ts, rest)
unfolding read_ttps encode_ttps
read_ttps-encode [] rest h = refl
read_ttps-encode (t ∷ ts) rest h =
    rw (append_assoc (le_bytes 4 t) (encode_ttps ts) rest)
      (rw (u32-le_bytes t (encode_ttps ts ++ rest) h.0) (rw (read_ttps-encode ts rest h.1)))

pub read_match-encode :
    (m : StepMatch) (rest : List ℕ)
    → FitsMatch m
    → read_match (encode_match m ++ rest) ≡ ok (m, rest)
unfolding read_match encode_match
read_match-encode m rest h =
    rw (append_assoc (le_bytes 4 m.ops) (length m.ttps % 2 ^ 8 ∷ encode_ttps m.ttps) rest) (
      rw (u32-le_bytes m.ops ((length m.ttps % 2 ^ 8 ∷ encode_ttps m.ttps) ++ rest) h.0) (
        rw (u8-cons (length m.ttps % 2 ^ 8) (encode_ttps m.ttps ++ rest))
          (rw (small (length m.ttps) h.1) (rw (read_ttps-encode m.ttps rest h.2)))))
  where
    small : (n : ℕ) → n < 2 ^ 8 → n % 2 ^ 8 ≡ n
    small n lt = omega arith

pub read_action-encode :
    (a : Option Action) (rest : List ℕ)
    → FitsAction a
    → read_action (encode_action a ++ rest) ≡ ok (a, rest)
unfolding read_action action_of encode_action read_disarm
read_action-encode none rest h = rw (u8-cons 0 rest)
read_action-encode (some Action.block) rest h = rw (u8-cons 1 rest)
read_action-encode (some (Action.disarm ops)) rest h =
    rw (u8-cons 2 (le_bytes 4 ops ++ rest)) (rw (u32-le_bytes ops rest h))

pub u16-length :
    (n : ℕ) (rest : List ℕ) → n < 2 ^ 16 → u16 (le_bytes 2 (n % 2 ^ 16) ++ rest) ≡ ok (n, rest)
u16-length n rest h =
    let small : n % 2 ^ 16 ≡ n = omega arith in
    ap (λ (x : ℕ). u16 (le_bytes 2 x ++ rest)) small ∙ u16-le_bytes n rest h

pub read_name-encode :
    (name rest : List ℕ)
    → FitsName name
    → read_name (le_bytes 2 (length name % 2 ^ 16) ++ (name ++ rest)) ≡ ok (name, rest)
unfolding read_name
read_name-encode name rest h =
    rw (u16-length (length name) (name ++ rest) h.0)
      (rw (take-append (length name) name rest refl) (rw h.1))

pub expect_magic_lem :
    (m rest : List ℕ) → length m ≡ 4 → same_bytes m m ≡ true → expect_magic m (m ++ rest) ≡ ok rest
unfolding expect_magic
expect_magic_lem m rest len same = rw (take-append 4 m rest len) (rw same)
