-- ===== src/Tests/Service.antt =====
-- Records, commands and streams of endpoint_service/src.
use correlation_engine.Wire.Primitives.{le_bytes}
use correlation_engine.Prelude.{
  ◌+◌, ◌<◌, ◌^◌, Bool, ℕ, ◌≡◌, ◌⊎◌, suc, true, false, none, some, List, [], ◌∷◌, ◌++◌, arith,
}
use correlation_engine.Prelude.Lists.{length}
use correlation_engine.Edr.{Op, NodeKey}
use correlation_engine.Prelude.Lists.{All}
use correlation_engine.Sensor.{SensorEvent, parse_batch}
use correlation_engine.Sensor.Outcomes.{ok}
use correlation_engine.Sensor.Text.{encode_utf16, unit_bytes}
use correlation_engine.Sensor.Encode.{
  enc_file_write, enc_process_open, enc_process_exit, finish, pad, header, push_wstr,
}
use correlation_engine.Sensor.Batch.{IsSendable, encoded, encode_event, parse_batch-build_frame}
use correlation_engine.Service.{
  Decision, allow, deny, BatchOutcome, Pipeline, Service, process_batch,
}
use correlation_engine.Service.Counts.{IsCounted, process_batch-IsCounted}
use correlation_engine.Sensor.Encode.{build_frame, concat}
use correlation_engine.Control.{
  ArmCmd, decode, encode_frame, encode_set_self, encode_register_ring, encode_verdict,
  encode_set_rules, unknown_kind,
}
use correlation_engine.Control.RoundTrip.{IsCarried, encode-IsCarried}
use correlation_engine.Control.Frame.{
  enforceable, read_frame, read_frame-encode_frame, other_records_distinct,
}
use correlation_engine.Translate.{EdrEvent, to_engine_event}
use correlation_engine.Translate.Identity.{is_state_only, IsFaithful, to_engine_event-IsFaithful}
use correlation_engine.Batches.{Call, gives, interrupted, next_batch}
use correlation_engine.Batches.Whole.{Expected, next_batch-Expected}
use correlation_engine.Batches.Frames.{batches, batches-concat, build_frame-IsFrame}

abbrev arm_read : ArmCmd
arm_read = ArmCmd.arm (NodeKey.process 800 2000) Op.read

abbrev commands : List ArmCmd
commands =
    arm_read ∷ ArmCmd.disarm (NodeKey.file (88 ∷ [])) ∷ ArmCmd.disarm (NodeKey.process 7 1) ∷ []

encode-IsCarried_example : (bytes : List ℕ) × IsCarried arm_read bytes
encode-IsCarried_example = encode-IsCarried arm_read (omega arith)

read_frame_example :
    read_frame (length (enforceable commands)) (encode_frame commands) ≡ some (enforceable commands)
read_frame_example = read_frame-encode_frame commands (omega arith)

other_records_example :
    (decode (encode_set_self 4242 ++ []) ≡ unknown_kind 3)
    × (decode (encode_register_ring 4194304 4660 ++ []) ≡ unknown_kind 4)
    × (decode (encode_verdict 7 true ++ []) ≡ unknown_kind 5)
    × (decode (encode_set_rules (69 ∷ 82 ∷ 68 ∷ 49 ∷ 0 ∷ 0 ∷ 0 ∷ 0 ∷ 0 ∷ []) ++ [])
        ≡ unknown_kind 6)
other_records_example =
    other_records_distinct 4242 4194304 4660 7 true (69 ∷ 82 ∷ 68 ∷ 49 ∷ 0 ∷ 0 ∷ 0 ∷ 0 ∷ 0 ∷ []) []
      (omega arith)

abbrev a_write : SensorEvent
a_write = SensorEvent.file_write 133000000000000000 800 20000000 (97 ∷ [])

to_engine_event_example :
    ((is_state_only a_write ≡ true) × (to_engine_event a_write ≡ none))
    ⊎ ((e : EdrEvent) × (is_state_only a_write ≡ false)
        × (to_engine_event a_write ≡ some e)
        × IsFaithful a_write e)
to_engine_event_example = to_engine_event-IsFaithful a_write (omega arith) (omega arith)

-- a frame of no record and one of a record of 32 bytes, read in small pieces
abbrev two_frames : List (List ℕ)
two_frames = build_frame [] false ∷ build_frame ((32 ∷ 0 ∷ 0 ∷ 0 ∷ []) ∷ []) true ∷ []

abbrev plan : List Call
plan = gives 1 ∷ interrupted ∷ gives 2 ∷ gives 5 ∷ interrupted ∷ gives 3 ∷ []

batches_example :
    batches (suc (length two_frames)) (record { left = concat two_frames; plan = plan })
    ≡ some two_frames
batches_example =
    batches-concat two_frames plan
      (
        build_frame-IsFrame [] false (unfold concat in omega arith),
        (build_frame-IsFrame ((32 ∷ 0 ∷ 0 ∷ 0 ∷ []) ∷ []) true (unfold concat in omega arith), tt),
      )
      tt

next_batch_example :
    Expected
      (8 ∷ 0 ∷ 0 ∷ 0 ∷ 2 ∷ 0 ∷ 0 ∷ 0 ∷ [])
      (next_batch (record { left = 8 ∷ 0 ∷ 0 ∷ 0 ∷ 2 ∷ 0 ∷ 0 ∷ 0 ∷ []; plan = plan }))
next_batch_example = next_batch-Expected (8 ∷ 0 ∷ 0 ∷ 0 ∷ 2 ∷ 0 ∷ 0 ∷ 0 ∷ []) plan tt

abbrev denies_write : Op → Decision
denies_write Op.write = deny
denies_write _ = allow

abbrev an_open : SensorEvent
an_open = SensorEvent.process_open 10000000 800 20000000 640 10000000 16 (0x1f600 ∷ 108 ∷ [])

abbrev an_exit : SensorEvent
an_exit = SensorEvent.process_exit 10000000 7 20000000

abbrev sent : List SensorEvent
sent = a_write ∷ an_open ∷ an_exit ∷ []

sent-IsSendable : All IsSendable sent
unfolding encode_utf16 unit_bytes le_bytes
sent-IsSendable = omega arith

sent_size : 8 + length (concat (encoded sent)) < 2 ^ 32
unfolding concat encode_event enc_file_write enc_process_open enc_process_exit finish pad header
    push_wstr encode_utf16 unit_bytes le_bytes
sent_size = omega arith

parse_batch_example : parse_batch (build_frame (encoded sent) true) ≡ ok sent
parse_batch_example = parse_batch-build_frame sent true sent-IsSendable sent_size

-- an engine that denies writes, sends the time of each event, and whose backend makes it a chain
abbrev pipe : Pipeline ℕ ℕ ℕ ℕ Bool
pipe = record {
  on_event = λ ev e. (denies_write ev.op, true, suc e);
  drain_outbox = λ e. (e ∷ [], e);
  drain_arm_cmds = λ e. ([], e);
  ingest = λ m b. (some m, suc b);
  has_advanced = λ v. v;
  has_completed = λ v. v;
}

abbrev service : Service ℕ ℕ
service = record { endpoint = 0; backend = 0; remote = false; events_seen = 5; denies = 1 }

process_batch_example :
    (s' : Service ℕ ℕ) × (out : BatchOutcome ℕ ℕ) × (process_batch pipe
        (build_frame (encoded sent) true)
        service
      ≡ ok (s', out))
    × IsCounted pipe service 3 s' out
process_batch_example =
    process_batch-IsCounted pipe (build_frame (encoded sent) true) sent service parse_batch_example
