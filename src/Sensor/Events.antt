-- ===== src/Sensor/Events.antt =====
-- Each encoder of endpoint_service/src/sensor.rs, and what `decode_record` makes of its record.
use correlation_engine.Prelude.{ℕ, ◌+◌, ◌^◌, ◌<◌, ◌≡◌, refl, ap, ◌∙◌, some, List, [], ◌++◌, arith}
use mathlib.Core.List.{append_assoc}
use correlation_engine.Prelude.Lists.{length, length-append, replicate}
use correlation_engine.Prelude.Chars.{IsText}
use correlation_engine.Wire.Primitives.{le_bytes}
use correlation_engine.Sensor.{
  SensorEvent, wstr_at, decode_process_create, decode_process_open, decode_remote_thread,
  decode_named, decode_body, decode_record,
}
use correlation_engine.Sensor.Outcomes.{ok, u32_at, i64_at}
use correlation_engine.Sensor.Text.{encode_utf16, unit_bytes}
use correlation_engine.Sensor.Reads.{number_at-append, wstr_at-push_wstr}
use correlation_engine.Sensor.Decoded.{record_of, decode_record-record_of, IsRecord, finish_lem}
use correlation_engine.Sensor.Encode.{
  push_wstr, header, finish, enc_process_create, enc_process_exit, enc_process_open,
  enc_remote_thread,
}

-- a string that its length field can count
abbrev pub Fits16 : List ℕ → Type 0
Fits16 s = IsText s × (length (unit_bytes (encode_utf16 s)) < 2 ^ 16)

-- bytes that are one record, decoded as the event
pub record Carries (bytes : List ℕ) (se : SensorEvent) : Type 0 where
  pub shaped : IsRecord bytes
  pub decoded : decode_record bytes ≡ ok (some se)

push_wstr-lt : (s : List ℕ) → Fits16 s → length (push_wstr s) < 2 ^ 16 + 2
unfolding push_wstr le_bytes
push_wstr-lt s h = omega arith

module _ (ts pid start : ℕ) (p : ts < 2 ^ 64) (q : pid < 2 ^ 32) (r : start < 2 ^ 64) where
  pub named-Carries :
      (ty : ℕ) (event : List ℕ → SensorEvent) (s : List ℕ)
      → Fits16 s
      → ((rec : List ℕ) → decode_body ts pid start rec ty ≡ decode_named ts pid start rec event)
      → Carries (finish (header ty ts pid start ++ push_wstr s)) (event s)
  unfolding decode_named
  named-Carries ty event s h body =
      let (k, size, e, shaped) =
        finish_lem ty ts pid start (push_wstr s) (omega (arith, push_wstr-lt s h)) in
      let post : List ℕ = replicate k 0 in
      let read : wstr_at (record_of size ty ts pid start (push_wstr s ++ post)) 32
          ≡ ok (s, 32 + length (push_wstr s)) =
        unfold le_bytes in
        wstr_at-push_wstr (record_of size ty ts pid start []) s post 32 refl h.0 h.1 in
      rw e (record {
        shaped = shaped;
        decoded =
            decode_record-record_of size ty ts pid start (push_wstr s ++ post) p q r
            ∙ body (record_of size ty ts pid start (push_wstr s ++ post))
            ∙ rw read;
      })

  -- a record whose body has two numbers of 32 bits, one of 64, and `more`
  abbrev body_of : ℕ → ℕ → ℕ → List ℕ → List ℕ
  body_of a b c more = le_bytes 4 a ++ (le_bytes 4 b ++ (le_bytes 8 c ++ more))

  reads_32 :
      (size ty a b c : ℕ) (more : List ℕ)
      → a < 2 ^ 32
      → u32_at (record_of size ty ts pid start (body_of a b c more)) 32 ≡ ok a
  unfolding u32_at le_bytes
  reads_32 size ty a b c more h =
      number_at-append 4 (record_of size ty ts pid start [])
        (le_bytes 4 b ++ (le_bytes 8 c ++ more)) 32 a refl (omega arith)

  reads_36 :
      (size ty a b c : ℕ) (more : List ℕ)
      → b < 2 ^ 32
      → u32_at (record_of size ty ts pid start (body_of a b c more)) 36 ≡ ok b
  unfolding u32_at le_bytes
  reads_36 size ty a b c more h =
      number_at-append 4 (record_of size ty ts pid start (le_bytes 4 a)) (le_bytes 8 c ++ more) 36 b
        refl (omega arith)

  reads_40 :
      (size ty a b c : ℕ) (more : List ℕ)
      → c < 2 ^ 64
      → i64_at (record_of size ty ts pid start (body_of a b c more)) 40 ≡ ok c
  unfolding i64_at le_bytes
  reads_40 size ty a b c more h =
      number_at-append 8 (record_of size ty ts pid start (le_bytes 4 a ++ le_bytes 4 b)) more 40 c
        refl (omega arith)

  reads_48 :
      (size ty a b c : ℕ) (s more : List ℕ)
      → Fits16 s
      → wstr_at (record_of size ty ts pid start (body_of a b c (push_wstr s ++ more))) 48
        ≡ ok (s, 48 + length (push_wstr s))
  unfolding le_bytes
  reads_48 size ty a b c s more h =
      wstr_at-push_wstr (record_of size ty ts pid start (body_of a b c [])) s more 48 refl h.0 h.1

  length-body_of : (a b c : ℕ) (more : List ℕ) → length (body_of a b c more) ≡ 16 + length more
  unfolding le_bytes
  length-body_of a b c more = omega arith

  pub remote_thread-Carries :
      (target target_start thread : ℕ)
      → target < 2 ^ 32
      → target_start < 2 ^ 64
      → thread < 2 ^ 32
      → Carries
          (enc_remote_thread ts pid start target target_start thread)
          (SensorEvent.remote_thread_create ts pid start target target_start thread)
  unfolding enc_remote_thread decode_body decode_remote_thread header le_bytes
  remote_thread-Carries target target_start thread h j l =
      let (k, size, e, shaped) =
        finish_lem 104 ts pid start (body_of target thread target_start [])
          (omega (arith, length-body_of target thread target_start [])) in
      let more : List ℕ = replicate k 0 in
      rw e (record {
        shaped = shaped;
        decoded =
            decode_record-record_of size 104 ts pid start (body_of target thread target_start more)
              p q r
            ∙ rw (reads_32 size 104 target thread target_start more h) (
                rw (reads_40 size 104 target thread target_start more j)
                  (rw (reads_36 size 104 target thread target_start more l)));
      })

  pub process_open-Carries :
      (target target_start access : ℕ) (image : List ℕ)
      → target < 2 ^ 32
      → target_start < 2 ^ 64
      → access < 2 ^ 32
      → Fits16 image
      → Carries
          (enc_process_open ts pid start target target_start access image)
          (SensorEvent.process_open ts pid start target target_start access image)
  unfolding enc_process_open decode_body decode_process_open header le_bytes
  process_open-Carries target target_start access image h j l fits =
      let (k, size, e, shaped) =
        finish_lem 102 ts pid start (body_of target access target_start (push_wstr image)) (
          omega (
            arith,
            length-body_of target access target_start (push_wstr image),
            push_wstr-lt image fits,
          )) in
      let more : List ℕ = push_wstr image ++ replicate k 0 in
      rw e (record {
        shaped = shaped;
        decoded =
            decode_record-record_of size 102 ts pid start (body_of target access target_start more)
              p q r
            ∙ rw (reads_48 size 102 target access target_start image (replicate k 0) fits) (
                rw (reads_32 size 102 target access target_start more h) (
                  rw (reads_40 size 102 target access target_start more j)
                    (rw (reads_36 size 102 target access target_start more l))));
      })

  pub process_exit-Carries :
      Carries (enc_process_exit ts pid start) (SensorEvent.process_exit ts pid start)
  unfolding enc_process_exit decode_body header le_bytes
  process_exit-Carries =
      let (k, size, e, shaped) = finish_lem 101 ts pid start [] (omega arith) in
      rw e (record {
        shaped = shaped;
        decoded = decode_record-record_of size 101 ts pid start (replicate k 0) p q r;
      })

  pub process_create-Carries :
      (child : ℕ) (image cmdline : List ℕ)
      → child < 2 ^ 32
      → Fits16 image
      → Fits16 cmdline
      → Carries
          (enc_process_create ts child pid start image cmdline)
          (SensorEvent.process_create ts pid start child ts image cmdline)
  unfolding enc_process_create decode_body decode_process_create header le_bytes
  process_create-Carries child image cmdline h fits fits' =
      let strings = push_wstr image ++ push_wstr cmdline in
      let (k, size, e, shaped) = finish_lem 100 ts pid start (body_of child 0 ts strings) (
        omega (
          arith,
          length-body_of child 0 ts strings,
          length-append (push_wstr image) (push_wstr cmdline),
          push_wstr-lt image fits,
          push_wstr-lt cmdline fits',
        )) in
      let zeros : List ℕ = replicate k 0 in
      let more : List ℕ = push_wstr image ++ (push_wstr cmdline ++ zeros) in
      let tail : strings ++ zeros ≡ more =
        append_assoc (push_wstr image) (push_wstr cmdline) zeros in
      let second : wstr_at (record_of size 100 ts pid start (body_of child 0 ts more))
            (48 + length (push_wstr image))
          ≡ ok (cmdline, 48 + length (push_wstr image) + length (push_wstr cmdline)) =
        wstr_at-push_wstr (record_of size 100 ts pid start (body_of child 0 ts (push_wstr image)))
          cmdline zeros (48 + length (push_wstr image)) (omega arith) fits'.0 fits'.1 in
      rw e (record {
        shaped = shaped;
        decoded =
            ap
              (λ (t : List ℕ).
                decode_record (record_of size 100 ts pid start (body_of child 0 ts t)))
              tail
            ∙ decode_record-record_of size 100 ts pid start (body_of child 0 ts more) p q r
            ∙ rw (reads_48 size 100 child 0 ts image (push_wstr cmdline ++ zeros) fits) (
                rw second (
                  rw (reads_32 size 100 child 0 ts more h)
                    (rw (reads_40 size 100 child 0 ts more p))));
      })
