-- ===== src/Tests/Driver.antt =====
-- Frames, rings and tables of endpoint_service/src and of the kernel's engine.
use correlation_engine.Prelude.{
  ℕ, ◌≤◌, ◌<◌, ◌≡◌, refl, sym, ◌∙◌, ap, ◌↔◌, ◌≢◌, ◌⊎◌, inl, inr, Bool, true, none, some, List,
  Option, [], ◌∷◌, ◌++◌, arith,
}
use correlation_engine.Prelude.Lists.{length, take, take-length-append, replicate}
use correlation_engine.Event.{Op, op_index, op_bit}
use correlation_engine.Wire.Primitives.{from_le}
use correlation_engine.Detector.{Verdict}
use correlation_engine.Dag
use correlation_engine.Wire.{encode_dag}
use correlation_engine.Wire.RoundTrip.{decode_dag-encode_dag}
use correlation_engine.Tests.Formats.{ransomware_dag-FitsDag}
use mathlib.Core.Path.{subst}
use mathlib.Core.List.{append-nil}
use correlation_engine.Ffi
use correlation_engine.Ffi.{op_from_index}
use correlation_engine.Ffi.Total.{Handle, Answer, op_from_index_iff, engine_on_event_total}
use correlation_engine.Ringbuf.{Ring, Producer, Priority, Reservation, publish}
use correlation_engine.Ringbuf.Bounds.{IsAligned, publish_total}
use correlation_engine.Sensor.{
  expects_reply, SensorEvent, parse_frame, record_at, decode_body, push_event, decode_record,
  parse_records, parse_batch,
}
use correlation_engine.Sensor.Outcomes.{
  Outcome, ok, panic, byte_at, u16_at, i64_at, u32_at, number_at, slice,
}
use correlation_engine.Sensor.Panics.{
  IsCalm, IsRecordStart, first, next, ThreadsFit, decode_record_panics, parse_batch-IsCalm,
}
use correlation_engine.Sensor.Encode.{build_frame}
use correlation_engine.Sensor.Reply.{expects_reply-build_frame}
use correlation_engine.Sensor.Fuel.{parse_records_fuel}
use correlation_engine.Bounded
use correlation_engine.Bounded.{dis_check, done}
use correlation_engine.Bounded.Table.{probe, value_at}
use correlation_engine.Bounded.Kept.{disarmed_stays_blocked}
use correlation_engine.Tests.Scenario.{ransomware_dag, event}

-- a `RemoteThreadCreate` record that ends behind its header
abbrev short_thread : List ℕ
short_thread = replicate 4 0 ++ (104 ∷ replicate 27 0)

decode_record_panics_example :
    (decode_record short_thread ≡ panic)
    ↔ ((byte_at short_thread 4 ≡ ok 104) × (length short_thread < 48))
decode_record_panics_example = decode_record_panics short_thread (omega arith)

-- a frame with one `ProcessExit` record
abbrev exit_frame : List ℕ
exit_frame =
    (40 ∷ 0 ∷ 0 ∷ 0 ∷ 2 ∷ 0 ∷ 1 ∷ 0 ∷ [])
    ++ ((32 ∷ 0 ∷ 0 ∷ 0 ∷ 101 ∷ 0 ∷ 0 ∷ 0 ∷ [])
        ++ ((5 ∷ replicate 7 0) ++ ((7 ∷ replicate 7 0) ++ (6 ∷ replicate 7 0))))

parse_batch-exit_frame : parse_batch exit_frame ≡ ok (SensorEvent.process_exit 5 7 6 ∷ [])
unfolding parse_batch u32_at number_at slice u16_at parse_frame from_le parse_records record_at
    decode_record byte_at i64_at decode_body push_event
parse_batch-exit_frame = refl

abbrev IsBehind : ℕ → Type 0
IsBehind off = (off ≡ 8) ⊎ (40 ≤ off)

record_size : (size : ℕ) → u32_at exit_frame 8 ≡ ok size → size ≡ 32
unfolding u32_at number_at slice from_le
record_size size e = cc

starts-IsBehind : (off : ℕ) → IsRecordStart exit_frame off → IsBehind off
starts-IsBehind off first = inl refl
starts-IsBehind off (next o size start read) = elim (starts-IsBehind o start) [
  | inl e ↦ inr (omega (arith, record_size size (ap (u32_at exit_frame) (sym e) ∙ read)))
  | inr far ↦ inr (omega arith)
]

beyond : (off size : ℕ) → 40 ≤ off → u32_at exit_frame off ≢ ok size
unfolding u32_at number_at slice
beyond off size far e = ground arith

types_differ : (ty : ℕ) → ty ≡ 104 → ty ≢ 101
types_differ ty e e' = omega arith

exit_record : (rec : List ℕ) → slice 8 32 exit_frame ≡ ok rec → byte_at rec 4 ≢ ok 104
unfolding slice byte_at number_at from_le
exit_record rec cut thread =
    types_differ 101 (ap value_of (ap (λ (r : Outcome (List ℕ)). value_of_record r) cut ∙ thread))
      refl
  where
    value_of : Outcome ℕ → ℕ
    value_of (ok n) = n
    value_of _ = 0

    value_of_record : Outcome (List ℕ) → Outcome ℕ
    value_of_record (ok r) = byte_at r 4
    value_of_record _ = panic

exit_frame-ThreadsFit : ThreadsFit exit_frame
exit_frame-ThreadsFit off size rec start read cut thread = elim (starts-IsBehind off start) [
  | inl e ↦
      let sized : size ≡ 32 = record_size size (ap (u32_at exit_frame) (sym e) ∙ read) in
      absurd (
        exit_record rec
          (ap (λ (x : ℕ). slice x 32 exit_frame) (sym e)
            ∙ ap (λ (n : ℕ). slice off n exit_frame) (sym sized)
            ∙ cut)
          thread)
  | inr far ↦ absurd (beyond off size far read)
]

parse_batch-IsCalm_example : IsCalm (parse_batch exit_frame)
parse_batch-IsCalm_example = parse_batch-IsCalm exit_frame exit_frame-ThreadsFit

parse_records_fuel_example : parse_records 40 exit_frame 40 8 ≡ parse_records 100 exit_frame 40 8
parse_records_fuel_example = parse_records_fuel 40 100 exit_frame 40 8 (omega arith) (omega arith)

expects_reply-build_frame_example : expects_reply (build_frame (short_thread ∷ []) true) ≡ ok true
expects_reply-build_frame_example = expects_reply-build_frame (short_thread ∷ []) true

-- a ring of 64 bytes whose head is near its end
abbrev ring : Ring
ring = record {
  magic = 0x474e5253;
  abi = 1;
  data_size = 64;
  head_mirror = 56;
  dropped = 0;
  tail = 40;
  consumer_state = 0;
  bytes = replicate 64 0;
}

abbrev producer : Producer
producer = record { ring = ring; head = 56 }

abbrev frame_bytes : List ℕ
frame_bytes = 16 ∷ 0 ∷ 0 ∷ 0 ∷ 2 ∷ 0 ∷ 0 ∷ 0 ∷ 1 ∷ 2 ∷ 3 ∷ 4 ∷ 5 ∷ 6 ∷ 7 ∷ 8 ∷ []

producer-IsAligned : IsAligned producer
producer-IsAligned = record {
  size_of_bytes = refl;
  size_eights = refl;
  size_least = omega arith;
  head_eights = refl;
}

publish_total_example :
    (taken : Bool) × (p' : Producer) × (publish frame_bytes Priority.telemetry producer
      ≡ some (taken, p'))
    × IsAligned p'
publish_total_example =
    publish_total frame_bytes Priority.telemetry producer producer-IsAligned refl

-- the frame goes to the start, behind a pad of eight bytes
abbrev wrapped : Reservation
wrapped = record { write_off = 0; pad = some (56, 8); new_head = 80 }

op_from_index_iff_example : (op_from_index 6 ≡ some Op.inject) ↔ (6 ≡ op_index Op.inject)
op_from_index_iff_example = op_from_index_iff 6 Op.inject

-- an event whose object has a kind that is out of range
abbrev strange : Ffi.CEvent
strange = record {
  ts = 1;
  op = 0;
  actor_lo = 1;
  actor_hi = 0;
  actor_kind = 0;
  object_lo = 2;
  object_hi = 0;
  object_kind = 7;
}

created :
    Ffi.engine_create (some (encode_dag ransomware_dag)) (length (encode_dag ransomware_dag))
    ≡ some (Dag.new ransomware_dag)
unfolding Ffi.engine_create Dag.try_new
created =
    let bytes = encode_dag ransomware_dag in
    let all : take (length bytes) bytes ≡ bytes =
      ap (take (length bytes)) (sym (append-nil bytes)) ∙ take-length-append bytes [] in
    rw all (rw (decode_dag-encode_dag ransomware_dag ransomware_dag-FitsDag))

ransomware-Handle : Handle (some (Dag.new ransomware_dag))
ransomware-Handle =
    subst Handle created
      (Handle.created (some (encode_dag ransomware_dag)) (length (encode_dag ransomware_dag)))

engine_on_event_total_example :
    (code : ℕ) × (h' : Option Dag.Engine) × (Ffi.engine_on_event
        (some (Dag.new ransomware_dag))
        (some strange)
        (some (1059 ∷ []))
        1
      ≡ some (code, h'))
    × Answer (some (Dag.new ransomware_dag)) (some strange) (1059 ∷ []) code h'
engine_on_event_total_example =
    engine_on_event_total (some (Dag.new ransomware_dag)) (some strange) (some (1059 ∷ [])) 1
      ransomware-Handle (omega arith)

-- the kernel's engine with one actor, 0, that may no longer write
abbrev one_disarmed : Bounded.Engine
one_disarmed = record {
  rules = ransomware_dag;
  state = record { ent = replicate 4096 none; lines = []; dis = some (0, 4) ∷ replicate 1023 none };
}

write_is_taken : dis_check one_disarmed.state.dis 0 Op.write ≡ true
unfolding dis_check probe value_at op_bit op_index
write_is_taken = refl

on_event-one_disarmed :
    Bounded.on_event (event 1 Op.write 0 5 []) one_disarmed ≡ done (Verdict.block, one_disarmed)
unfolding Bounded.on_event
on_event-one_disarmed = rw write_is_taken refl

disarmed_stays_blocked_example :
    Bounded.on_event (event 2 Op.write 0 6 []) one_disarmed ≡ done (Verdict.block, one_disarmed)
disarmed_stays_blocked_example =
    disarmed_stays_blocked (event 1 Op.write 0 5 []) one_disarmed Verdict.block one_disarmed
      (event 2 Op.write 0 6 []) on_event-one_disarmed write_is_taken
