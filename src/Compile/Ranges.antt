-- ===== src/Compile/Ranges.antt =====
-- The numbers, sets and lists that the token parsers of engine_rules/src/lib.rs return, in their ranges.
use correlation_engine.Prelude.{
  ℕ, ◌+◌, ◌*◌, ◌-◌, ◌^◌, ◌≤◌, ◌<◌, ◌≡◌, refl, ◌&&◌, Option, none, some, List, [], ◌∷◌, ◌++◌, leb,
  ◌==◌, arith, if◌then◌else◌, Bool-cases, Option-cases, some_inj, inl, inr,
}
use correlation_engine.Prelude.Lists.{All, All-append}
use correlation_engine.Prelude.Bits.{bit_or_lt}
use correlation_engine.Prelude.Texts.{codes, strip_prefix, digits_from, parse_uint}
use correlation_engine.Event.{Op, Ttp, op_index, op_bit}
use correlation_engine.Event.OpSet
use correlation_engine.Event.OpSet.{OpSet}
use correlation_engine.Compile.{Fault, strange_ttp}
use correlation_engine.Compile.Outcomes.{Gives, Gives-bind, Gives-any}
use correlation_engine.Compile.Tokens.{parse_op, parse_ttp, or_err, insert_ops, push_ttps}

pub Gives-or_err {ℓ} :
    {A : Type ℓ} (P : A → Type 0) (line : ℕ) (why : Fault) (o : Option A)
    → ((a : A) → o ≡ some a → P a)
    → Gives P (or_err line why o)
Gives-or_err P line why none h = tt
Gives-or_err P line why (some a) h = h a refl

digits_from-le :
    (most acc : ℕ) (s : List ℕ) {n : ℕ} → acc ≤ most → digits_from most acc s ≡ some n → n ≤ most
unfolding digits_from
digits_from-le most acc [] {n} h e = omega (arith, some_inj e)
digits_from-le most acc (c ∷ cs) {n} h e =
    elim (Bool-cases (leb 48 c && leb c 57 && leb (acc * 10 + (c - 48)) most)) [
      | inl t ↦ digits_from-le most (acc * 10 + (c - 48)) cs (ground arith) (rw t at e)
      | inr t ↦ absurd (ground arith)
    ]

-- no value past the greatest of the type
pub parse_uint-le : (most : ℕ) (s : List ℕ) {n : ℕ} → parse_uint most s ≡ some n → n ≤ most
unfolding parse_uint
parse_uint-le most [] e = cc
parse_uint-le most (c ∷ []) e = elim (Bool-cases (c == 43)) [
  | inl t ↦ ground arith
  | inr t ↦ digits_from-le most 0 (c ∷ []) (omega arith) (ground arith)
]
parse_uint-le most (c ∷ d ∷ cs) e =
    digits_from-le most 0 (if c == 43 then d ∷ cs else c ∷ d ∷ cs) (omega arith) e

pub parse_ttp-lt : (t : List ℕ) {n : ℕ} → parse_ttp t ≡ some n → n < 2 ^ 32
unfolding parse_ttp strip_prefix
parse_ttp-lt t e = elim (Option-cases (strip_prefix (codes "T") t)) [
  | inl s ↦ omega (arith, parse_uint-le (2 ^ 32 - 1) t (rw s at e))
  | inr (digits, s) ↦ omega (arith, parse_uint-le (2 ^ 32 - 1) digits (rw s at e))
]

op_bit-lt : (op : Op) → (0 < op_bit op) × (op_bit op < 2 ^ 8)
unfolding op_bit op_index
op_bit-lt Op.exec = omega arith
op_bit-lt Op.create = omega arith
op_bit-lt Op.write = omega arith
op_bit-lt Op.read = omega arith
op_bit-lt Op.open_op = omega arith
op_bit-lt Op.connect = omega arith
op_bit-lt Op.inject = omega arith
op_bit-lt Op.dup = omega arith

pub insert_ops-lt :
    (line : ℕ) (why : Fault) (names : List (List ℕ)) (ops : OpSet)
    → ops < 2 ^ 8
    → Gives (λ (s : OpSet). s < 2 ^ 8) (insert_ops line why names ops)
unfolding insert_ops OpSet.insert
insert_ops-lt line why [] ops h = h
insert_ops-lt line why (name ∷ names) ops h =
    Gives-bind (λ (op : Op). Unit {0}) (λ (s : OpSet). s < 2 ^ 8) (or_err line why (parse_op name))
      _ (Gives-any (or_err line why (parse_op name)))
      (λ op u.
        insert_ops-lt line why names (OpSet.insert ops op)
          (bit_or_lt 8 ops (op_bit op) h (op_bit-lt op).1))

pub push_ttps-lt :
    (line : ℕ) (ts : List (List ℕ)) (ttps : List Ttp)
    → All (λ (t : Ttp). t < 2 ^ 32) ttps
    → Gives (All (λ (t : Ttp). t < 2 ^ 32)) (push_ttps line ts ttps)
unfolding push_ttps
push_ttps-lt line [] ttps h = h
push_ttps-lt line (t ∷ ts) ttps h =
    Gives-bind (λ (n : Ttp). n < 2 ^ 32) (All (λ (x : Ttp). x < 2 ^ 32))
      (or_err line strange_ttp (parse_ttp t)) _
      (Gives-or_err (λ (n : Ttp). n < 2 ^ 32) line strange_ttp (parse_ttp t)
        (λ n e. parse_ttp-lt t e))
      (λ n small.
        push_ttps-lt line ts (ttps ++ (n ∷ []))
          (All-append (λ (x : Ttp). x < 2 ^ 32) ttps (n ∷ []) h (small, tt)))
