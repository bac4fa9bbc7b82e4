-- ===== src/Sensor/Fuel.antt =====
-- The fuel of the loop over records in endpoint_service/src/sensor.rs is enough.
use correlation_engine.Prelude.{
  ℕ, zero, suc, ◌+◌, ◌≤◌, ◌≡◌, refl, ap, false, Option, List, ltb, arith, Bool-cases, inl, inr,
}
use correlation_engine.Sensor.{SensorEvent, record_at, push_event, parse_records}
use correlation_engine.Sensor.Outcomes.{Outcome, ok, err, panic, ◌>>=◌, u32_at}

bind-cong {ℓ κ} :
    {A : Type ℓ} {B : Type κ} (o : Outcome A) (f g : A → Outcome B)
    → ((a : A) → o ≡ ok a → f a ≡ g a)
    → (o >>= f) ≡ (o >>= g)
bind-cong (ok a) f g h = h a refl
bind-cong (err e) f g h = refl
bind-cong panic f g h = refl

-- A record that is decoded has 32 bytes or more.
record_at-size :
    (payload : List ℕ) (total off size : ℕ) (ev : Option SensorEvent)
    → record_at payload total off size ≡ ok ev
    → 32 ≤ size
unfolding record_at
record_at-size payload total off size ev run = elim (Bool-cases (ltb size 32)) [
  | inl small ↦ absurd (cc (rw small at run))
  | inr big ↦ ground arith
]

-- The loop over the records gives the same outcome on every fuel that reaches the end of the frame, so
-- the fuel that `parse_batch` gives it, the frame's size, is enough.
pub parse_records_fuel :
    (f g : ℕ) (payload : List ℕ) (total off : ℕ)
    → total ≤ off + f
    → total ≤ off + g
    → parse_records f payload total off ≡ parse_records g payload total off
unfolding parse_records
parse_records_fuel zero zero payload total off hf hg = refl
parse_records_fuel zero (suc g) payload total off hf hg =
    let done : ltb off total ≡ false = ground arith in rw done refl
parse_records_fuel (suc f) zero payload total off hf hg =
    let done : ltb off total ≡ false = ground arith in rw done refl
parse_records_fuel (suc f) (suc g) payload total off hf hg = elim (Bool-cases (ltb off total)) [
  | inr done ↦ rw done refl
  | inl more ↦ elim (Bool-cases (ltb total (off + 32))) [
    | inl short ↦ rw (more, short) refl
    | inr long ↦
        rw (more, long)
          (bind-cong (u32_at payload off) _ _ (λ size _.
            bind-cong (record_at payload total off size) _ _ (λ ev run.
              let big : 32 ≤ size = record_at-size payload total off size ev run in
              ap (λ (o : Outcome (List SensorEvent)). o >>= (λ evs. ok (push_event ev evs)))
                (parse_records_fuel f g payload total (off + size) (omega arith) (omega arith)))))
  ]
]
