-- ===== src/Sensor/Outcomes.antt =====
-- What a function of endpoint_service/src/sensor.rs ends with, and its reads at fixed offsets.
use correlation_engine.Prelude.{ℕ, ◌+◌, List, ltb, if◌then◌else◌}
use correlation_engine.Prelude.Lists.{length, take, drop}
use correlation_engine.Wire.Primitives.{from_le}

-- one constructor for each message of the source
pub data SensorError : Type 0 where
  batch_too_short bad_version truncated_record truncated_length odd_length : ℕ → SensorError
  bad_total bad_size truncated_string : ℕ → ℕ → SensorError

pub data Outcome {ℓ} (A : Type ℓ) : Type ℓ where
  ok : A → Outcome A
  err : SensorError → Outcome A
  panic : Outcome A

infixl 5 ◌>>=◌
abbrev pub ◌>>=◌ {ℓ κ} : {A : Type ℓ} {B : Type κ} → Outcome A → (A → Outcome B) → Outcome B
ok a >>= f = f a
err e >>= f = err e
panic >>= f = panic

-- `b[off..off + n]`
unfoldable pub slice : ℕ → ℕ → List ℕ → Outcome (List ℕ)
slice off n b = if ltb (length b) (off + n) then panic else ok (take n (drop off b))

unfoldable pub number_at : ℕ → List ℕ → ℕ → Outcome ℕ
number_at n b off = do bs ← slice off n b; ok (from_le bs)

unfoldable pub byte_at : List ℕ → ℕ → Outcome ℕ
byte_at b off = number_at 1 b off

unfoldable pub u16_at : List ℕ → ℕ → Outcome ℕ
u16_at b off = number_at 2 b off

unfoldable pub u32_at : List ℕ → ℕ → Outcome ℕ
u32_at b off = number_at 4 b off

unfoldable pub i64_at : List ℕ → ℕ → Outcome ℕ
i64_at b off = number_at 8 b off
