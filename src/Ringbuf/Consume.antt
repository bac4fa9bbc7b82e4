-- ===== src/Ringbuf/Consume.antt =====
-- The consumer of endpoint_service/src/ringbuf.rs.
use correlation_engine.Prelude.{
  ℕ, zero, suc, ◌+◌, ◌-◌, ◌%◌, ◌^◌, Bool, true, false, Option, none, some, List, bit_and, ◌==◌,
  if◌then◌else◌, ◌>>=◌,
}
use correlation_engine.Ringbuf.Memory.{write_at, read_at}
use correlation_engine.Wire.Primitives.{le_bytes, from_le}
use correlation_engine.Ringbuf.{Ring}

pub record Frame : Type 0 where
  pub off : ℕ
  pub len : ℕ

pub record Consumer : Type 0 where
  pub ring : Ring
  pub tail : ℕ

pub data Empty : Type 0 where
  no_data uncommitted : Empty

pub data Next : Type 0 where
  frame : Frame → Next
  empty : Empty → Next

unfoldable pub new_consumer : Ring → Consumer
new_consumer r = record { ring = r; tail = r.tail }

-- zero `TotalSize`, then move the tail
unfoldable pub advance : Frame → Consumer → Option Consumer
advance f c = do
  bytes ← write_at f.off (le_bytes 4 0) c.ring.bytes
  let tail = (c.tail + f.len) % 2 ^ 64
  some (record { ring = record c.ring { bytes = bytes; tail = tail }; tail = tail })

-- what one round of `next` sees at the tail
pub data Look : Type 0 where
  found : Next → Look
  pad_frame : Frame → Look

unfoldable pub look_at : ℕ → ℕ → Consumer → Option Look
look_at off total c = if total == 0 then some (found (empty uncommitted)) else do
  version ← read_at (off + 4) 2 c.ring.bytes
  let f : Frame = record { off = off; len = total }
  some (if from_le version == 0 then pad_frame f else found (frame f))

unfoldable pub look : Consumer → Option Look
look c =
    let off = bit_and c.tail (c.ring.data_size - 1) in
    if c.tail == c.ring.head_mirror
    then some (found (empty no_data))
    else do size ← read_at off 4 c.ring.bytes; look_at off (from_le size) c

-- the loop of `next`, on fuel: each pad frame that is skipped takes one round
unfoldable pub next : ℕ → Consumer → Option (Next × Consumer)
next zero c = none
next (suc fuel) c = do
  seen ← look c
  elim seen [ found n ↦ some (n, c) | pad_frame f ↦ do c' ← advance f c; next fuel c' ]

unfoldable pub bytes_of : Frame → Consumer → Option (List ℕ)
bytes_of f c = read_at f.off f.len c.ring.bytes

unfoldable pub set_state : ℕ → Consumer → Consumer
set_state s c = record c { ring = record c.ring { consumer_state = s } }

abbrev is_no_data : Next → Bool
is_no_data (empty no_data) = true
is_no_data _ = false

unfoldable pub should_sleep : ℕ → Consumer → Option (Bool × Consumer)
should_sleep fuel c = do
  (result, c') ← next fuel (set_state 1 c)
  if is_no_data result then some (true, c') else some (false, set_state 0 c')

unfoldable pub awake : Consumer → Consumer
awake c = set_state 0 c
