-- ===== src/Sensor.antt =====
-- endpoint_service/src/sensor.rs: the frames and records that the driver sends, decoded and encoded.
-- Bytes are numbers. A time (`i64`) is its bit pattern, a number below `2 ^ 64`: it is only copied.
pub mod Outcomes
pub mod Text
pub mod Encode
pub mod Panics
pub mod Reply
pub mod Fuel
pub mod Utf16
pub mod Reads
pub mod Decoded
pub mod Events
pub mod Batch
use correlation_engine.Prelude.{
  ℕ, zero, suc, ◌+◌, ◌%◌, Bool, false, not, ◌||◌, Option, none, some, List, [], ◌∷◌, bit_and, ltb,
  ◌==◌, if◌then◌else◌,
}
use correlation_engine.Prelude.Lists.{length, take, drop}
use Outcomes.{SensorError, Outcome, ok, err, ◌>>=◌, slice, byte_at, u16_at, u32_at, i64_at}
use Text.{units, from_utf16_lossy}

pub data SensorEvent : Type 0 where
  file_open : (ts pid pid_start : ℕ) (file_name : List ℕ) → SensorEvent
  file_write : (ts pid pid_start : ℕ) (file_name : List ℕ) → SensorEvent
  process_create :
      (ts pid pid_start child_pid child_start : ℕ) (image cmdline : List ℕ) → SensorEvent
  process_exit : (ts pid pid_start : ℕ) → SensorEvent
  process_open :
      (ts pid pid_start target_pid target_start desired_access : ℕ) (target_image : List ℕ)
      → SensorEvent
  process_exist : (ts pid pid_start : ℕ) (image : List ℕ) → SensorEvent
  remote_thread_create : (ts pid pid_start target_pid target_start thread_id : ℕ) → SensorEvent

-- the checks of the length `len` that was read at `off`, and the string
unfoldable pub string_at : List ℕ → ℕ → ℕ → Outcome (List ℕ × ℕ)
string_at b off len =
    if not (len % 2 == 0)
    then err (SensorError.odd_length len)
    else if ltb (length b) (off + 2 + len)
    then err (SensorError.truncated_string len (off + 2))
    else ok (from_utf16_lossy (units (take len (drop (off + 2) b))), off + 2 + len)

-- the string at `off` and the offset behind it
unfoldable pub wstr_at : List ℕ → ℕ → Outcome (List ℕ × ℕ)
wstr_at b off =
    if ltb (length b) (off + 2)
    then err (SensorError.truncated_length off)
    else do len ← u16_at b off; string_at b off len

module _ (ts pid pid_start : ℕ) (rec : List ℕ) where
  unfoldable pub decode_process_create : Outcome (Option SensorEvent)
  decode_process_create = do
    (image, next) ← wstr_at rec 48
    (cmdline, _) ← wstr_at rec next
    child_pid ← u32_at rec 32
    child_start ← i64_at rec 40
    ok (some (SensorEvent.process_create ts pid pid_start child_pid child_start image cmdline))

  unfoldable pub decode_process_open : Outcome (Option SensorEvent)
  decode_process_open = do
    (image, _) ← wstr_at rec 48
    target_pid ← u32_at rec 32
    target_start ← i64_at rec 40
    access ← u32_at rec 36
    ok (some (SensorEvent.process_open ts pid pid_start target_pid target_start access image))

  unfoldable pub decode_remote_thread : Outcome (Option SensorEvent)
  decode_remote_thread = do
    target_pid ← u32_at rec 32
    target_start ← i64_at rec 40
    thread_id ← u32_at rec 36
    ok (some (SensorEvent.remote_thread_create ts pid pid_start target_pid target_start thread_id))

  unfoldable pub decode_named : (List ℕ → SensorEvent) → Outcome (Option SensorEvent)
  decode_named event = do (name, _) ← wstr_at rec 32; ok (some (event name))

  -- the `match` on the record's type; an unknown type is skipped
  unfoldable pub decode_body : ℕ → Outcome (Option SensorEvent)
  decode_body ty =
      if ty == 1
      then decode_named (SensorEvent.file_open ts pid pid_start)
      else if ty == 2
      then decode_named (SensorEvent.file_write ts pid pid_start)
      else if ty == 100
      then decode_process_create
      else if ty == 101
      then ok (some (SensorEvent.process_exit ts pid pid_start))
      else if ty == 102
      then decode_process_open
      else if ty == 103
      then decode_named (SensorEvent.process_exist ts pid pid_start)
      else if ty == 104
      then decode_remote_thread
      else ok none

unfoldable pub decode_record : List ℕ → Outcome (Option SensorEvent)
decode_record rec = do
  ty ← byte_at rec 4
  ts ← i64_at rec 8
  pid ← u32_at rec 16
  pid_start ← i64_at rec 24
  decode_body ts pid pid_start rec ty

unfoldable pub push_event : Option SensorEvent → List SensorEvent → List SensorEvent
push_event none evs = evs
push_event (some ev) evs = ev ∷ evs

-- the record of `size` bytes at `off`, after the checks of its size
unfoldable pub record_at : List ℕ → ℕ → ℕ → ℕ → Outcome (Option SensorEvent)
record_at payload total off size =
    if ltb size 32 || (not (size % 8 == 0) || ltb total (off + size))
    then err (SensorError.bad_size size off)
    else do rec ← slice off size payload; decode_record rec

-- the `while` loop, on fuel: each record moves `off` by 32 at least
unfoldable pub parse_records : ℕ → List ℕ → ℕ → ℕ → Outcome (List SensorEvent)
parse_records zero payload total off = ok []
parse_records (suc fuel) payload total off =
    if not (ltb off total)
    then ok []
    else if ltb total (off + 32)
    then err (SensorError.truncated_record off)
    else do
      size ← u32_at payload off
      ev ← record_at payload total off size
      evs ← parse_records fuel payload total (off + size)
      ok (push_event ev evs)

-- the checks of the frame's header, and the records behind it
unfoldable pub parse_frame : List ℕ → ℕ → ℕ → Outcome (List SensorEvent)
parse_frame payload total version =
    if not (version == 2)
    then err (SensorError.bad_version version)
    else if ltb total 8 || ltb (length payload) total
    then err (SensorError.bad_total total (length payload))
    else parse_records total payload total 8

unfoldable pub parse_batch : List ℕ → Outcome (List SensorEvent)
parse_batch payload =
    if ltb (length payload) 8 then err (SensorError.batch_too_short (length payload)) else do
      total ← u32_at payload 0
      version ← u16_at payload 4
      count ← u16_at payload 6
      parse_frame payload total version

unfoldable pub expects_reply : List ℕ → Outcome Bool
expects_reply payload =
    if ltb (length payload) 8
    then ok false
    else do count ← u16_at payload 6; ok (not (bit_and count 0x8000 == 0))

unfoldable pub req_id : List ℕ → Outcome ℕ
req_id payload = if ltb (length payload) 40 then ok 0 else u32_at payload 28
