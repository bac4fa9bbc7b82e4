-- ===== src/Sensor/Decoded.antt =====
-- What endpoint_service/src/sensor.rs decodes of the records that it encodes.
use correlation_engine.Prelude.{
  ℕ, zero, suc, ◌+◌, ◌-◌, ◌%◌, ◌^◌, ◌<◌, ◌≤◌, ◌≡◌, refl, sym, ap, ◌∙◌, List, [], ◌∷◌, ◌++◌, ◌==◌,
  arith, Bool-cases, inl, inr,
}
use mathlib.Core.List.{append_assoc, append-nil}
use correlation_engine.Prelude.Lists.{length, length-append, drop, replicate, length-replicate}
use correlation_engine.Wire.Primitives.{le_bytes, from_le}
use correlation_engine.Sensor.{decode_body, decode_record}
use correlation_engine.Sensor.Outcomes.{ok, number_at, byte_at, u32_at, i64_at}
use correlation_engine.Sensor.Reads.{slice-append, number_at-append}
use correlation_engine.Sensor.Encode.{header, pad, finish}

-- a record: its size and header, and what follows
abbrev pub record_of : (size ty ts pid start : ℕ) → List ℕ → List ℕ
record_of size ty ts pid start tail =
    le_bytes 4 size
    ++ (ty
        ∷ 0
        ∷ 0
        ∷ 0
        ∷ (le_bytes 8 ts ++ (le_bytes 4 pid ++ (le_bytes 4 0 ++ (le_bytes 8 start ++ tail)))))

byte_at-append :
    (pre post : List ℕ) (off x : ℕ) → off ≡ length pre → byte_at (pre ++ (x ∷ post)) off ≡ ok x
unfolding byte_at number_at from_le
byte_at-append pre post off x at =
    rw (slice-append pre (x ∷ []) post off 1 at refl) (ap ok (omega arith))

pub decode_record-record_of :
    (size ty ts pid start : ℕ) (tail : List ℕ)
    → ts < 2 ^ 64
    → pid < 2 ^ 32
    → start < 2 ^ 64
    → decode_record (record_of size ty ts pid start tail)
      ≡ decode_body ts pid start (record_of size ty ts pid start tail) ty
unfolding decode_record u32_at i64_at le_bytes
decode_record-record_of size ty ts pid start tail p q r =
    rw
      (byte_at-append (le_bytes 4 size)
        (0
          ∷ 0
          ∷ 0
          ∷ (le_bytes 8 ts ++ (le_bytes 4 pid ++ (le_bytes 4 0 ++ (le_bytes 8 start ++ tail)))))
        4 ty refl)
      (rw
        (number_at-append 8 (le_bytes 4 size ++ (ty ∷ 0 ∷ 0 ∷ 0 ∷ []))
          (le_bytes 4 pid ++ (le_bytes 4 0 ++ (le_bytes 8 start ++ tail))) 8 ts refl (omega arith))
        (rw
          (number_at-append 4 (le_bytes 4 size ++ (ty ∷ 0 ∷ 0 ∷ 0 ∷ le_bytes 8 ts))
            (le_bytes 4 0 ++ (le_bytes 8 start ++ tail)) 16 pid refl (omega arith))
          (rw (
            number_at-append 8
              (le_bytes 4 size
                ++ (ty ∷ 0 ∷ 0 ∷ 0 ∷ (le_bytes 8 ts ++ (le_bytes 4 pid ++ le_bytes 4 0))))
              tail 24 start refl (omega arith)))))

pad_lem :
    (rounds : ℕ) (v : List ℕ)
    → (8 - length v % 8) % 8 ≤ rounds
    → (k : ℕ) × (pad rounds v ≡ v ++ replicate k 0) × ((length v + k) % 8 ≡ 0) × (k ≤ rounds)
unfolding pad
pad_lem zero v h = (0, sym (append-nil v), omega arith, omega arith)
pad_lem (suc rounds) v h = elim (Bool-cases (length v % 8 == 0)) [
  | inl done ↦ (0, rw done (sym (append-nil v)), ground arith, omega arith)
  | inr more ↦
      let not_yet : 0 < length v % 8 = ground arith in
      let longer : length (v ++ (0 ∷ [])) ≡ length v + 1 = length-append v (0 ∷ []) in
      let (k, e, r, b) = pad_lem rounds (v ++ (0 ∷ [])) (omega arith) in
      (suc k, rw more (e ∙ append_assoc v (0 ∷ []) (replicate k 0)), omega arith, omega arith)
]

-- The encoded form of a record: its length in the first four bytes, a multiple of 8, and at least the
-- header.
pub record IsRecord (bytes : List ℕ) : Type 0 where
  pub rest : List ℕ
  pub sized : bytes ≡ le_bytes 4 (length bytes) ++ rest
  pub header_in : 32 ≤ length bytes
  pub eights : length bytes % 8 ≡ 0
  pub fits : length bytes < 2 ^ 32

length-record_of :
    (size ty ts pid start : ℕ) (tail : List ℕ)
    → length (record_of size ty ts pid start tail) ≡ 32 + length tail
unfolding le_bytes
length-record_of size ty ts pid start tail = omega arith

-- what `finish` makes of a header and a body: a record with zeros behind the body
pub finish_lem :
    (ty ts pid start : ℕ) (body : List ℕ)
    → length body < 2 ^ 31
    → (k : ℕ) × (size : ℕ) × (finish (header ty ts pid start ++ body)
        ≡ record_of size ty ts pid start (body ++ replicate k 0))
      × IsRecord (record_of size ty ts pid start (body ++ replicate k 0))
unfolding finish header le_bytes
finish_lem ty ts pid start body small =
    let v = header ty ts pid start ++ body in
    let len : length v ≡ 32 + length body = omega arith in
    let (k, e, r, b) = pad_lem 7 v (omega arith) in
    let zeros : List ℕ = replicate k 0 in
    let tail = body ++ zeros in
    let tail_len : length tail ≡ length body + k =
      omega (arith, length-append body zeros, length-replicate k (let z : ℕ = 0 in z)) in
    let size : ℕ = 32 + length tail in
    let whole : length (v ++ zeros) % 2 ^ 32 ≡ size = omega (arith, length-append v zeros) in
    let r_len : length (record_of size ty ts pid start tail) ≡ size =
      length-record_of size ty ts pid start tail in
    (
      k,
      size,
      ap (λ (t : List ℕ). le_bytes 4 (length t % 2 ^ 32) ++ drop 4 t) e
          ∙ ap (λ (n : ℕ). le_bytes 4 n ++ drop 4 (v ++ zeros)) whole,
      record {
        rest = drop 4 (record_of size ty ts pid start tail);
        sized =
            ap (λ (n : ℕ). le_bytes 4 n ++ drop 4 (record_of size ty ts pid start tail))
              (sym r_len);
        header_in = omega arith;
        eights = omega arith;
        fits = omega arith;
      },
    )
