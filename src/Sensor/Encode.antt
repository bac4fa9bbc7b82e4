-- ===== src/Sensor/Encode.antt =====
-- The encoders of endpoint_service/src/sensor.rs.
use correlation_engine.Prelude.{
  ℕ, ◌+◌, ◌%◌, ◌^◌, Bool, true, false, List, [], ◌∷◌, ◌++◌, bit_and, bit_or, if◌then◌else◌, zero,
  suc, ◌==◌,
}
use correlation_engine.Prelude.Lists.{length, take, drop}
use correlation_engine.Wire.Primitives.{le_bytes}
use correlation_engine.Sensor.Text.{encode_utf16, unit_bytes}

-- the bytes that `push_wstr` appends
unfoldable pub push_wstr : List ℕ → List ℕ
push_wstr s = let w = unit_bytes (encode_utf16 s) in le_bytes 2 (length w % 2 ^ 16) ++ w

unfoldable pub header : ℕ → ℕ → ℕ → ℕ → List ℕ
header ty ts pid pid_start =
    le_bytes 4 0
    ++ (ty ∷ 0 ∷ 0 ∷ 0 ∷ [])
    ++ le_bytes 8 ts
    ++ le_bytes 4 pid
    ++ le_bytes 4 0
    ++ le_bytes 8 pid_start

-- `while v.len() % 8 != 0 { v.push(0); }`: seven rounds are enough
unfoldable pub pad : ℕ → List ℕ → List ℕ
pad zero v = v
pad (suc rounds) v = if length v % 8 == 0 then v else pad rounds (v ++ (0 ∷ []))

-- pad, and write the size over the first four bytes
unfoldable pub finish : List ℕ → List ℕ
finish v = let w = pad 7 v in le_bytes 4 (length w % 2 ^ 32) ++ drop 4 w

unfoldable pub enc_file_open : ℕ → ℕ → ℕ → List ℕ → List ℕ
enc_file_open ts pid pid_start file = finish (header 1 ts pid pid_start ++ push_wstr file)

unfoldable pub enc_file_write : ℕ → ℕ → ℕ → List ℕ → List ℕ
enc_file_write ts pid pid_start file = finish (header 2 ts pid pid_start ++ push_wstr file)

unfoldable pub enc_process_create : ℕ → ℕ → ℕ → ℕ → List ℕ → List ℕ → List ℕ
enc_process_create ts pid ppid ppid_start image cmd = finish (
    header 100 ts ppid ppid_start
    ++ le_bytes 4 pid
    ++ le_bytes 4 0
    ++ le_bytes 8 ts
    ++ push_wstr image
    ++ push_wstr cmd)

unfoldable pub enc_process_exit : ℕ → ℕ → ℕ → List ℕ
enc_process_exit ts pid pid_start = finish (header 101 ts pid pid_start)

unfoldable pub enc_process_open : ℕ → ℕ → ℕ → ℕ → ℕ → ℕ → List ℕ → List ℕ
enc_process_open ts pid pid_start target_pid target_start access image = finish (
    header 102 ts pid pid_start
    ++ le_bytes 4 target_pid
    ++ le_bytes 4 access
    ++ le_bytes 8 target_start
    ++ push_wstr image)

unfoldable pub enc_process_exist : ℕ → ℕ → ℕ → List ℕ → List ℕ
enc_process_exist ts pid creation image = finish (header 103 ts pid creation ++ push_wstr image)

unfoldable pub enc_remote_thread : ℕ → ℕ → ℕ → ℕ → ℕ → ℕ → List ℕ
enc_remote_thread ts pid pid_start target_pid target_start thread_id = finish (
    header 104 ts pid pid_start
    ++ le_bytes 4 target_pid
    ++ le_bytes 4 thread_id
    ++ le_bytes 8 target_start)

unfoldable pub concat : List (List ℕ) → List ℕ
concat [] = []
concat (e ∷ es) = e ++ concat es

unfoldable pub build_frame : List (List ℕ) → Bool → List ℕ
build_frame events reply_expected =
    let count = bit_and (length events % 2 ^ 16) 0x7fff in
    le_bytes 4 ((8 + length (concat events)) % 2 ^ 32)
    ++ le_bytes 2 2
    ++ le_bytes 2 (if reply_expected then bit_or count 0x8000 else count)
    ++ concat events

unfoldable pub build_batch : List (List ℕ) → List ℕ
build_batch events = build_frame events false

-- `v[28..32].copy_from_slice(..)`, on the frame of one record of 32 bytes at least
unfoldable pub build_enforce_frame : List ℕ → ℕ → List ℕ
build_enforce_frame record_bytes req_id =
    let v = build_frame (record_bytes ∷ []) true in take 28 v ++ le_bytes 4 req_id ++ drop 32 v
