-- ===== src/Translate/Identity.antt =====
-- What endpoint_service/src/translate.rs keeps of a record.
use correlation_engine.Prelude.{
  ℕ, suc, ◌*◌, ◌^◌, [], ◌∷◌, ◌≢◌, leb, Bool-cases, ◌<◌, ◌≤◌, ◌≡◌, ◌⊎◌, refl, Bool, true, false,
  none, some, List, arith, inl, inr,
}
use correlation_engine.Edr.{Op, NodeKey}
use correlation_engine.Sensor.{SensorEvent}
use correlation_engine.Prelude.Bits.{testb, and-two_pow_eq_zero}
use correlation_engine.Control.{ArmCmd}
use correlation_engine.Control.RoundTrip.{IsCarried, encode-IsCarried}
use correlation_engine.Translate.{Attrs, EdrEvent, ms, proc, open_attrs, to_engine_event}

-- the header of a record: its time, and who acted
pub record Header : Type 0 where
  pub time : ℕ
  pub pid : ℕ
  pub pid_start : ℕ

abbrev pub header_of : SensorEvent → Header
header_of (SensorEvent.file_open ts pid start f) = record {
  time = ts;
  pid = pid;
  pid_start = start;
}
header_of (SensorEvent.file_write ts pid start f) = record {
  time = ts;
  pid = pid;
  pid_start = start;
}
header_of (SensorEvent.process_create ts pid start c cs i l) = record {
  time = ts;
  pid = pid;
  pid_start = start;
}
header_of (SensorEvent.process_exit ts pid start) = record {
  time = ts;
  pid = pid;
  pid_start = start;
}
header_of (SensorEvent.process_open ts pid start t tstart a i) = record {
  time = ts;
  pid = pid;
  pid_start = start;
}
header_of (SensorEvent.process_exist ts pid start i) = record {
  time = ts;
  pid = pid;
  pid_start = start;
}
header_of (SensorEvent.remote_thread_create ts pid start t tstart th) = record {
  time = ts;
  pid = pid;
  pid_start = start;
}

-- a record of a process that only exists or ends
pub is_state_only : SensorEvent → Bool
is_state_only (SensorEvent.process_exist ts pid start i) = true
is_state_only (SensorEvent.process_exit ts pid start) = true
is_state_only (SensorEvent.file_open ts pid start f) = false
is_state_only (SensorEvent.file_write ts pid start f) = false
is_state_only (SensorEvent.process_create ts pid start c cs i l) = false
is_state_only (SensorEvent.process_open ts pid start t tstart a i) = false
is_state_only (SensorEvent.remote_thread_create ts pid start t tstart th) = false

-- `m` is the time `t`, an `i64` in units of 100 ns by its bit pattern, in whole milliseconds; a negative
-- time is 0
abbrev pub IsMillis : ℕ → ℕ → Type 0
IsMillis t m = ((2 ^ 63 ≤ t) × (m ≡ 0)) ⊎ ((t < 2 ^ 63) × (m * 10000 ≤ t) × (t < suc m * 10000))

ms-IsMillis : (t : ℕ) → IsMillis t (ms t)
unfolding ms
ms-IsMillis t = elim (Bool-cases (leb (2 ^ 63) t)) [
  | inl negative ↦ rw negative (inl (ground arith, refl))
  | inr since ↦ rw since (inr (ground arith, omega arith, omega arith))
]

-- the key of the process `pid` that started at `start`
abbrev pub IsProcess : NodeKey → ℕ → ℕ → Type 0
IsProcess key pid start = (m : ℕ) × (key ≡ NodeKey.process pid m) × IsMillis start m

proc-IsProcess : (pid start : ℕ) → IsProcess (proc pid start) pid start
unfolding proc
proc-IsProcess pid start = (ms start, refl, ms-IsMillis start)

abbrev pub IsPlain : Attrs → Type 0
IsPlain a = (a.image ≡ none) × (a.cmd ≡ none) × (a.target_image ≡ none) × (a.vm_read ≡ false)

-- the image of the process that is opened is set unless it is empty, and `vm_read` is the bit 4 of the
-- access that is asked for
pub record IsOpening (access : ℕ) (target_image : List ℕ) (a : Attrs) : Type 0 where
  pub no_image : a.image ≡ none
  pub no_cmd : a.cmd ≡ none
  pub target :
      ((target_image ≡ []) × (a.target_image ≡ none))
      ⊎ ((target_image ≢ []) × (a.target_image ≡ some target_image))
  pub vm_read : a.vm_read ≡ testb 4 access

-- what was done, and to what
abbrev pub IsDeed : SensorEvent → EdrEvent → Type 0
IsDeed (SensorEvent.file_open ts pid start f) e =
    (e.op ≡ Op.open_op) × (e.object ≡ NodeKey.file f) × IsPlain e.attrs
IsDeed (SensorEvent.file_write ts pid start f) e =
    (e.op ≡ Op.write) × (e.object ≡ NodeKey.file f) × IsPlain e.attrs
IsDeed (SensorEvent.process_create ts pid start child child_start image cmdline) e =
    (e.op ≡ Op.exec)
    × IsProcess e.object child child_start
    × (e.attrs.image ≡ some image)
    × (e.attrs.cmd ≡ some cmdline)
    × (e.attrs.target_image ≡ none)
    × (e.attrs.vm_read ≡ false)
IsDeed (SensorEvent.process_open ts pid start t tstart access target_image) e =
    (e.op ≡ Op.read) × IsProcess e.object t tstart × IsOpening access target_image e.attrs
IsDeed (SensorEvent.remote_thread_create ts pid start t tstart th) e =
    (e.op ≡ Op.inject) × IsProcess e.object t tstart × IsPlain e.attrs
IsDeed (SensorEvent.process_exit ts pid start) e = ⊥
IsDeed (SensorEvent.process_exist ts pid start i) e = ⊥

pub record IsFaithful (se : SensorEvent) (e : EdrEvent) : Type 0 where
  pub time : IsMillis (header_of se).time e.ts
  pub actor : IsProcess e.actor (header_of se).pid (header_of se).pid_start
  pub deed : IsDeed se e
  pub enforceable : (op : Op) → (bytes : List ℕ) × IsCarried (ArmCmd.arm e.actor op) bytes

open_attrs-IsOpening :
    (access : ℕ) (target_image : List ℕ)
    → IsOpening access target_image (open_attrs access target_image)
open_attrs-IsOpening access [] = record {
  no_image = refl;
  no_cmd = refl;
  target = inl (refl, refl);
  vm_read = ground (arith, and-two_pow_eq_zero access 4);
}
open_attrs-IsOpening access (c ∷ cs) = record {
  no_image = refl;
  no_cmd = refl;
  target = inr (λ e. absurd cc, refl);
  vm_read = ground (arith, and-two_pow_eq_zero access 4);
}

-- whatever the operation, a command for the process is carried
armed :
    (pid start : ℕ)
    → pid < 2 ^ 32
    → start < 2 ^ 64
    → (op : Op) → (bytes : List ℕ) × IsCarried (ArmCmd.arm (proc pid start) op) bytes
unfolding proc ms
armed pid start p q op = encode-IsCarried (ArmCmd.arm (proc pid start) op) (p, ground arith)

faithful :
    (se : SensorEvent) (e : EdrEvent)
    → (header_of se).pid < 2 ^ 32
    → (header_of se).pid_start < 2 ^ 64
    → e.ts ≡ ms (header_of se).time
    → e.actor ≡ proc (header_of se).pid (header_of se).pid_start
    → IsDeed se e
    → IsFaithful se e
faithful se e p q time actor deed = record {
  time = rw time (ms-IsMillis (header_of se).time);
  actor = rw actor (proc-IsProcess (header_of se).pid (header_of se).pid_start);
  deed = deed;
  enforceable = rw actor (armed (header_of se).pid (header_of se).pid_start p q);
}

-- Only the records of processes that exist or end are dropped. Every other record, with numbers of their
-- widths, becomes one event: its time is the record's in whole milliseconds, or 0 for a negative time; its
-- actor and the process it is done to have the record's numbers and starts, also in milliseconds; its
-- operation, object and attributes are those of the record's type, with `vm_read` from the bit 4 of the
-- access. A command that arms any operation for the actor is written and read back as this command.
pub to_engine_event-IsFaithful :
    (se : SensorEvent)
    → (header_of se).pid < 2 ^ 32
    → (header_of se).pid_start < 2 ^ 64
    → ((is_state_only se ≡ true) × (to_engine_event se ≡ none))
      ⊎ ((e : EdrEvent) × (is_state_only se ≡ false)
          × (to_engine_event se ≡ some e)
          × IsFaithful se e)
unfolding to_engine_event is_state_only
to_engine_event-IsFaithful (SensorEvent.process_exist ts pid start i) p q = inl (refl, refl)
to_engine_event-IsFaithful (SensorEvent.process_exit ts pid start) p q = inl (refl, refl)
to_engine_event-IsFaithful (SensorEvent.file_open ts pid start f) p q =
    let se = SensorEvent.file_open ts pid start f in
    inr (_, refl, refl, faithful se _ p q refl refl (refl, refl, (refl, refl, refl, refl)))
to_engine_event-IsFaithful (SensorEvent.file_write ts pid start f) p q =
    let se = SensorEvent.file_write ts pid start f in
    inr (_, refl, refl, faithful se _ p q refl refl (refl, refl, (refl, refl, refl, refl)))
to_engine_event-IsFaithful (SensorEvent.process_create ts pid start c cs i l) p q =
    let se = SensorEvent.process_create ts pid start c cs i l in
    inr (
      _,
      refl,
      refl,
      faithful se _ p q refl refl (refl, proc-IsProcess c cs, refl, refl, refl, refl),
    )
to_engine_event-IsFaithful (SensorEvent.process_open ts pid start t tstart a i) p q =
    let se = SensorEvent.process_open ts pid start t tstart a i in
    inr (
      _,
      refl,
      refl,
      faithful se _ p q refl refl (refl, proc-IsProcess t tstart, open_attrs-IsOpening a i),
    )
to_engine_event-IsFaithful (SensorEvent.remote_thread_create ts pid start t tstart th) p q =
    let se = SensorEvent.remote_thread_create ts pid start t tstart th in
    inr (
      _,
      refl,
      refl,
      faithful se _ p q refl refl (refl, proc-IsProcess t tstart, (refl, refl, refl, refl)),
    )
