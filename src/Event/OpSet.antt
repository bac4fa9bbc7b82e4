-- ===== src/Event/OpSet.antt =====
-- `OpSet` of engine_core/src/event.rs: a set of operations as a bit mask.
use correlation_engine.Prelude.{
  ℕ, ◌≡◌, ◌∙◌, Bool, not, ◌||◌, bit_and, bit_or, ◌==◌, Bool-cases, inl, inr,
}
use correlation_engine.Prelude.Bits.{testb, testb-bit_or, testb-two_pow, and-two_pow_eq_zero}
use correlation_engine.Event.{Op, op_index, op_bit}

abbrev pub OpSet : Type 0
OpSet = ℕ

abbrev pub empty : OpSet
empty = 0

unfoldable pub single : Op → OpSet
single op = op_bit op

unfoldable pub contains : OpSet → Op → Bool
contains s op = not (bit_and s (op_bit op) == 0)

unfoldable pub is_empty : OpSet → Bool
is_empty s = s == 0

unfoldable pub union : OpSet → OpSet → OpSet
union s t = bit_or s t

unfoldable pub insert : OpSet → Op → OpSet
insert s op = bit_or s (op_bit op)

-- the membership test reads the operation's digit
pub contains-testb : (s : OpSet) (op : Op) → contains s op ≡ testb (op_index op) s
unfolding contains op_bit
contains-testb s op = elim (Bool-cases (testb (op_index op) s)) [
  | inl t ↦ rw (and-two_pow_eq_zero s (op_index op), t)
  | inr t ↦ rw (and-two_pow_eq_zero s (op_index op), t)
]

-- A union contains an operation exactly when one of the two sets contains it.
pub contains-union :
    (s t : OpSet) (op : Op) → contains (union s t) op ≡ (contains s op || contains t op)
unfolding union
contains-union s t op =
    rw (contains-testb (bit_or s t) op, contains-testb s op, contains-testb t op)
      (testb-bit_or (op_index op) s t)

-- A set with one operation added contains that operation and what it contained before.
pub contains-insert :
    (s : OpSet) (new op : Op)
    → contains (insert s new) op ≡ (contains s op || op_index op == op_index new)
unfolding insert op_bit
contains-insert s new op =
    contains-testb (insert s new) op
    ∙ testb-bit_or (op_index op) s (op_bit new)
    ∙ rw (contains-testb s op, testb-two_pow (op_index op) (op_index new))
