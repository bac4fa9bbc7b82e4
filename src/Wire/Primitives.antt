-- ===== src/Wire/Primitives.antt =====
-- The errors and the `Reader` of engine_core/src/wire.rs, and little-endian numbers.
use correlation_engine.Prelude.{
  ℕ, zero, suc, ◌+◌, ◌*◌, ◌/◌, ◌%◌, ◌^◌, ◌<◌, ◌≡◌, refl, ap, Bool, true, false, ◌&&◌, List, [], ◌∷◌,
  ◌++◌, ltb, ◌==◌, if◌then◌else◌, arith,
}
use native.Mathlib.Nat.{pow-suc}
use correlation_engine.Prelude.Lists
use correlation_engine.Prelude.Lists.{
  length, drop, length-append, take-length-append, drop-length-append,
}

pub data WireError : Type 0 where
  bad_magic truncated bad_utf8 : WireError
  bad_action : ℕ → WireError
  trailing_bytes : WireError

pub data Result {ℓ} (A : Type ℓ) : Type ℓ where
  ok : A → Result A
  err : WireError → Result A

infixl 5 ◌>>=◌
abbrev pub ◌>>=◌ {ℓ κ} : {A : Type ℓ} {B : Type κ} → Result A → (A → Result B) → Result B
ok a >>= f = f a
err e >>= f = err e

-- `x.to_le_bytes()` of a number of `n` bytes
unfoldable pub le_bytes : ℕ → ℕ → List ℕ
le_bytes zero x = []
le_bytes (suc n) x = x % 256 ∷ le_bytes n (x / 256)

unfoldable pub from_le : List ℕ → ℕ
from_le [] = 0
from_le (b ∷ bs) = b + 256 * from_le bs

unfoldable pub take : ℕ → List ℕ → Result (List ℕ × List ℕ)
take n bs = if ltb (length bs) n then err truncated else ok (Lists.take n bs, drop n bs)

abbrev number : ℕ → List ℕ → Result (ℕ × List ℕ)
number n bs = do (b, rest) ← take n bs; ok (from_le b, rest)

unfoldable pub u8 : List ℕ → Result (ℕ × List ℕ)
u8 bs = number 1 bs

unfoldable pub u16 : List ℕ → Result (ℕ × List ℕ)
u16 bs = number 2 bs

unfoldable pub u32 : List ℕ → Result (ℕ × List ℕ)
u32 bs = number 4 bs

unfoldable pub u64 : List ℕ → Result (ℕ × List ℕ)
u64 bs = number 8 bs

unfoldable pub same_bytes : List ℕ → List ℕ → Bool
same_bytes [] [] = true
same_bytes (a ∷ as') (b ∷ bs) = a == b && same_bytes as' bs
same_bytes _ _ = false

pub length-le_bytes : (n x : ℕ) → length (le_bytes n x) ≡ n
unfolding le_bytes
length-le_bytes zero x = refl
length-le_bytes (suc n) x = ap suc (length-le_bytes n (x / 256))

pub from_le-le_bytes : (n x : ℕ) → x < 256 ^ n → from_le (le_bytes n x) ≡ x
unfolding from_le le_bytes
from_le-le_bytes zero x h = omega arith
from_le-le_bytes (suc n) x h =
    omega (arith, pow-suc 256 n, from_le-le_bytes n (x / 256) (omega (arith, pow-suc 256 n)))

-- Taking as many bytes as stand in front of `rest` gives these bytes and `rest`.
pub take-append : (n : ℕ) (bs rest : List ℕ) → length bs ≡ n → take n (bs ++ rest) ≡ ok (bs, rest)
unfolding take
take-append n bs rest e = rw (← e) (
    rw (take-length-append bs rest)
      (rw (drop-length-append bs rest) (ground (arith, length-append bs rest))))
