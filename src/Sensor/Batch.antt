-- ===== src/Sensor/Batch.antt =====
-- A batch of encoded records of endpoint_service/src/sensor.rs is parsed back.
use correlation_engine.Prelude.{
  ℕ, zero, suc, ◌+◌, ◌%◌, ◌^◌, ◌<◌, ◌≤◌, ◌≡◌, refl, sym, ap, ◌∙◌, Bool, true, false, some, List, [],
  ◌∷◌, ◌++◌, bit_and, bit_or, ltb, ◌==◌, if◌then◌else◌, arith,
}
use mathlib.Core.List.{append_assoc}
use correlation_engine.Prelude.Lists.{length, length-append, All}
use correlation_engine.Prelude.Bits.{bit_or_lt, bit_and_le_right}
use correlation_engine.Wire.Primitives.{le_bytes}
use correlation_engine.Sensor.{
  SensorEvent, decode_body, push_event, record_at, parse_records, parse_frame, parse_batch,
}
use correlation_engine.Sensor.Outcomes.{ok, number_at, u16_at, u32_at}
use correlation_engine.Sensor.Reads.{slice-append, number_at-append}
use correlation_engine.Sensor.Decoded.{IsRecord}
use correlation_engine.Sensor.Events.{
  Fits16, Carries, named-Carries, remote_thread-Carries, process_open-Carries, process_exit-Carries,
  process_create-Carries,
}
use correlation_engine.Sensor.Encode.{
  enc_file_open, enc_file_write, enc_process_create, enc_process_exit, enc_process_open,
  enc_process_exist, enc_remote_thread, concat, build_frame,
}

-- the encoder of each kind of event
unfoldable pub encode_event : SensorEvent → List ℕ
encode_event (SensorEvent.file_open ts pid start f) = enc_file_open ts pid start f
encode_event (SensorEvent.file_write ts pid start f) = enc_file_write ts pid start f
encode_event (SensorEvent.process_create ts pid start child cstart image cmd) =
    enc_process_create ts child pid start image cmd
encode_event (SensorEvent.process_exit ts pid start) = enc_process_exit ts pid start
encode_event (SensorEvent.process_open ts pid start t tstart access image) =
    enc_process_open ts pid start t tstart access image
encode_event (SensorEvent.process_exist ts pid start image) = enc_process_exist ts pid start image
encode_event (SensorEvent.remote_thread_create ts pid start t tstart th) =
    enc_remote_thread ts pid start t tstart th

abbrev Header : ℕ → ℕ → ℕ → Type 0
Header ts pid start = (ts < 2 ^ 64) × (pid < 2 ^ 32) × (start < 2 ^ 64)

-- numbers of their widths, and strings that a length field can count; a created process starts at the
-- time of the record
abbrev pub IsSendable : SensorEvent → Type 0
IsSendable (SensorEvent.file_open ts pid start f) = Header ts pid start × Fits16 f
IsSendable (SensorEvent.file_write ts pid start f) = Header ts pid start × Fits16 f
IsSendable (SensorEvent.process_create ts pid start child cstart image cmd) =
    Header ts pid start × (child < 2 ^ 32) × (cstart ≡ ts) × Fits16 image × Fits16 cmd
IsSendable (SensorEvent.process_exit ts pid start) = Header ts pid start
IsSendable (SensorEvent.process_open ts pid start t tstart access image) =
    Header ts pid start × (t < 2 ^ 32) × (tstart < 2 ^ 64) × (access < 2 ^ 32) × Fits16 image
IsSendable (SensorEvent.process_exist ts pid start image) = Header ts pid start × Fits16 image
IsSendable (SensorEvent.remote_thread_create ts pid start t tstart th) =
    Header ts pid start × (t < 2 ^ 32) × (tstart < 2 ^ 64) × (th < 2 ^ 32)

-- Every encoded event is one record, which is decoded as the event.
pub encode_event-Carries : (se : SensorEvent) → IsSendable se → Carries (encode_event se) se
unfolding encode_event enc_file_open enc_file_write enc_process_exist decode_body
encode_event-Carries (SensorEvent.file_open ts pid start f) ((p, q, r), h) =
    named-Carries ts pid start p q r 1 (SensorEvent.file_open ts pid start) f h (λ rec. refl)
encode_event-Carries (SensorEvent.file_write ts pid start f) ((p, q, r), h) =
    named-Carries ts pid start p q r 2 (SensorEvent.file_write ts pid start) f h (λ rec. refl)
encode_event-Carries (SensorEvent.process_exist ts pid start f) ((p, q, r), h) =
    named-Carries ts pid start p q r 103 (SensorEvent.process_exist ts pid start) f h (λ rec. refl)
encode_event-Carries (SensorEvent.process_exit ts pid start) (p, q, r) =
    process_exit-Carries ts pid start p q r
encode_event-Carries (SensorEvent.remote_thread_create ts pid start t tstart th)
      ((p, q, r), h, j, l) =
    remote_thread-Carries ts pid start p q r t tstart th h j l
encode_event-Carries (SensorEvent.process_open ts pid start t tstart access image)
      ((p, q, r), h, j, l, f) =
    process_open-Carries ts pid start p q r t tstart access image h j l f
encode_event-Carries (SensorEvent.process_create ts pid start child cstart image cmd)
      ((p, q, r), h, same, f, f') =
    rw same (process_create-Carries ts pid start p q r child image cmd h f f')

abbrev pub encoded : List SensorEvent → List (List ℕ)
encoded [] = []
encoded (se ∷ ses) = encode_event se ∷ encoded ses

-- one round of the loop reads the size of the record that stands at `off`
size_at :
    (pre b more : List ℕ) (off : ℕ)
    → off ≡ length pre
    → IsRecord b
    → u32_at (pre ++ (b ++ more)) off ≡ ok (length b)
unfolding u32_at
size_at pre b more off at h =
    ap (λ (t : List ℕ). u32_at (pre ++ t) off)
      (ap (λ (t : List ℕ). t ++ more) h.sized ∙ append_assoc (le_bytes 4 (length b)) h.rest more)
    ∙ number_at-append 4 pre (h.rest ++ more) off (length b) at (omega (arith, h.fits))

-- and the record
record_at-Carries :
    (pre b more : List ℕ) (total off : ℕ) (se : SensorEvent)
    → off ≡ length pre
    → total ≡ length pre + (length b + length more)
    → Carries b se
    → record_at (pre ++ (b ++ more)) total off (length b) ≡ ok (some se)
unfolding record_at
record_at-Carries pre b more total off se at len c =
    let big : ltb (length b) 32 ≡ false = ground (arith, c.shaped.header_in) in
    let eights : (length b % 8 == 0) ≡ true = ground (arith, c.shaped.eights) in
    let inside : ltb total (off + length b) ≡ false = ground arith in
    rw (big, eights, inside) (rw (slice-append pre b more off (length b) at refl) c.decoded)

parse_records-next :
    (fuel : ℕ) (pre b more : List ℕ) (total off : ℕ) (se : SensorEvent) (ses : List SensorEvent)
    → off ≡ length pre
    → total ≡ length pre + (length b + length more)
    → Carries b se
    → parse_records fuel ((pre ++ b) ++ more) total (off + length b) ≡ ok ses
    → parse_records (suc fuel) (pre ++ (b ++ more)) total off ≡ ok (se ∷ ses)
unfolding parse_records push_event
parse_records-next fuel pre b more total off se ses at len c run =
    let big : 32 ≤ length b = c.shaped.header_in in
    let going : ltb off total ≡ true = ground arith in
    let room : ltb total (off + 32) ≡ false = ground arith in
    rw (going, room)
      (rw (size_at pre b more off at c.shaped) (
        rw (record_at-Carries pre b more total off se at len c)
          (rw (sym (append_assoc pre b more)) (rw run))))

parse_records-encoded :
    (ses : List SensorEvent) (pre : List ℕ) (fuel total off : ℕ)
    → All IsSendable ses
    → off ≡ length pre
    → total ≡ length pre + length (concat (encoded ses))
    → length (concat (encoded ses)) ≤ fuel
    → parse_records fuel (pre ++ concat (encoded ses)) total off ≡ ok ses
unfolding concat
parse_records-encoded [] pre zero total off h at len enough = unfold parse_records in refl
parse_records-encoded [] pre (suc fuel) total off h at len enough =
    let done : ltb off total ≡ false = ground arith in unfold parse_records in rw done
parse_records-encoded (se ∷ ses) pre zero total off h at len enough =
    let c = encode_event-Carries se h.0 in
    absurd
      (omega (arith, c.shaped.header_in, length-append (encode_event se) (concat (encoded ses))))
parse_records-encoded (se ∷ ses) pre (suc fuel) total off h at len enough =
    let b = encode_event se in
    let more = concat (encoded ses) in
    let c = encode_event-Carries se h.0 in
    let joined : length (b ++ more) ≡ length b + length more = length-append b more in
    let front : length (pre ++ b) ≡ length pre + length b = length-append pre b in
    let big : 32 ≤ length b = c.shaped.header_in in
    parse_records-next fuel pre b more total off se ses at (omega arith) c (
      parse_records-encoded ses (pre ++ b) fuel total (off + length b) h.1 (omega arith)
        (omega arith) (omega arith))

-- the header of a frame is read back
parse_batch-header :
    (count : ℕ) (body : List ℕ)
    → count < 2 ^ 16
    → 8 + length body < 2 ^ 32
    → (let total = 8 + length body in
        let frame = le_bytes 4 total ++ (le_bytes 2 2 ++ (le_bytes 2 count ++ body)) in
        parse_batch frame ≡ parse_records total frame total 8)
unfolding parse_batch parse_frame u16_at u32_at
parse_batch-header count body c small =
    let total = 8 + length body in
    let frame = le_bytes 4 total ++ (le_bytes 2 2 ++ (le_bytes 2 count ++ body)) in
    let len : length frame ≡ total = unfold le_bytes in omega arith in
    let long : ltb (length frame) 8 ≡ false = ground arith in
    let eight : ltb total 8 ≡ false = ground arith in
    let inside : ltb (length frame) total ≡ false = ground arith in
    let version : number_at 2 frame 4 ≡ ok 2 =
      unfold le_bytes in
      number_at-append 2 (le_bytes 4 total) (le_bytes 2 count ++ body) 4 2 refl (omega arith) in
    let counted : number_at 2 frame 6 ≡ ok count =
      unfold le_bytes in
      number_at-append 2 (le_bytes 4 total ++ le_bytes 2 2) body 6 count refl (omega arith) in
    rw long (
      rw
        (number_at-append 4 [] (le_bytes 2 2 ++ (le_bytes 2 count ++ body)) 0 total refl
          (omega arith))
        (rw version (rw counted (rw (eight, inside)))))

count_small :
    (n : ℕ) (reply : Bool)
    → (if reply then bit_or (bit_and n 0x7fff) 0x8000 else bit_and n 0x7fff) < 2 ^ 16
count_small n true =
    bit_or_lt 16 (bit_and n 0x7fff) 0x8000 (omega (arith, bit_and_le_right n 0x7fff)) (omega arith)
count_small n false = omega (arith, bit_and_le_right n 0x7fff)

-- A frame of encoded events is parsed back as the same events in their order, whether it asks for a
-- reply or not, when its size is below 2 ^ 32, every number of an event is below the bound of its field,
-- every string is shorter than 2 ^ 16 bytes in UTF-16, and a created process starts at the time of its
-- record, the only start that the encoder writes.
pub parse_batch-build_frame :
    (ses : List SensorEvent) (reply : Bool)
    → All IsSendable ses
    → 8 + length (concat (encoded ses)) < 2 ^ 32
    → parse_batch (build_frame (encoded ses) reply) ≡ ok ses
unfolding build_frame le_bytes
parse_batch-build_frame ses reply h small =
    let n = length (encoded ses) % 2 ^ 16 in
    let count = if reply then bit_or (bit_and n 0x7fff) 0x8000 else bit_and n 0x7fff in
    let body = concat (encoded ses) in
    let total = 8 + length body in
    let fits : total % 2 ^ 32 ≡ total = omega arith in
    ap (λ (t : ℕ). parse_batch (le_bytes 4 t ++ (le_bytes 2 2 ++ (le_bytes 2 count ++ body)))) fits
    ∙ parse_batch-header count body (count_small n reply) small
    ∙ parse_records-encoded ses (le_bytes 4 total ++ (le_bytes 2 2 ++ le_bytes 2 count)) total total
        8 h refl (omega arith) (omega arith)
