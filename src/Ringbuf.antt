-- ===== src/Ringbuf.antt =====
-- endpoint_service/src/ringbuf.rs: the ring between driver and service. The control block is a record of
-- its fields, the data region a list of bytes. `none` is an access outside the data region, which in the
-- source is undefined behaviour. The accesses of one call are taken in their program order; the reserve
-- loop is its last round, the one whose compare-and-swap finds the head that it read.
pub mod Memory
pub mod Consume
pub mod Bounds
pub mod Budget
use correlation_engine.Prelude.{
  ℕ, zero, suc, ◌+◌, ◌-◌, ◌*◌, ◌/◌, ◌%◌, ◌^◌, Bool, true, false, not, ◌||◌, ◌&&◌, Option, none,
  some, List, [], ◌∷◌, max, bit_and, ltb, leb, ◌==◌, if◌then◌else◌, ◌>>=◌,
}
use correlation_engine.Prelude.Lists.{length, take, drop, replicate}
use Memory.{write_at, read_at}
use correlation_engine.Wire.Primitives.{le_bytes, from_le}

-- A view of the mapping: the control block's fields, the data, and the view's own copy of the size.
pub record Ring : Type 0 where
  pub magic : ℕ
  pub abi : ℕ
  pub data_size : ℕ
  pub head_mirror : ℕ
  pub dropped : ℕ
  pub tail : ℕ
  pub consumer_state : ℕ
  pub bytes : List ℕ

pub data RingError : Type 0 where
  too_small bad_magic bad_abi not_a_power bad_data_size : ℕ → RingError
  overruns : ℕ → ℕ → RingError

pub data Opened : Type 0 where
  opened : Ring → Opened
  refused : RingError → Opened

abbrev pub ring_magic : ℕ
ring_magic = 0x474e5253

abbrev pub ring_abi : ℕ
ring_abi = 1

abbrev pub data_offset : ℕ
data_offset = 4096

unfoldable pub align8 : ℕ → ℕ
align8 n = (n + 7) / 8 * 8

-- `usize::is_power_of_two`
unfoldable pub is_power_of_two : ℕ → Bool
is_power_of_two n = ltb 0 n && bit_and n (n - 1) == 0

-- `Ring::from_raw` on a mapping of `len` bytes
unfoldable pub from_raw : ℕ → Ring → Opened
from_raw len r =
    if leb len data_offset
    then refused (too_small len)
    else if not (r.magic == ring_magic)
    then refused (bad_magic r.magic)
    else if not (r.abi % 2 ^ 16 == ring_abi)
    then refused (bad_abi (r.abi % 2 ^ 16))
    else if not (is_power_of_two r.data_size)
    then refused (not_a_power r.data_size)
    else if ltb len (data_offset + r.data_size)
    then refused (overruns r.data_size len)
    else opened r

-- `Ring::init` on a mapping of `len` bytes
unfoldable pub init : ℕ → ℕ → Opened
init len data_size =
    if not (is_power_of_two data_size) || ltb data_size 8
    then refused (bad_data_size data_size)
    else if ltb len (data_offset + data_size)
    then refused (overruns data_size len)
    else opened (record {
      magic = ring_magic;
      abi = ring_abi;
      data_size = data_size;
      head_mirror = 0;
      dropped = 0;
      tail = 0;
      consumer_state = 0;
      bytes = replicate data_size 0;
    })

-- ---- producer

pub data Priority : Type 0 where
  telemetry enforce : Priority

pub record Producer : Type 0 where
  pub ring : Ring
  pub head : ℕ

unfoldable pub new_producer : Ring → Producer
new_producer r = record { ring = r; head = r.head_mirror }

-- the bytes that the priority may occupy
unfoldable pub budget : Ring → Priority → ℕ
budget r enforce = r.data_size
budget r telemetry = r.data_size * 7 / 8

pub record Reservation : Type 0 where
  pub write_off : ℕ
  pub pad : Option (ℕ × ℕ)
  pub new_head : ℕ

unfoldable pub wrapping_sub : ℕ → ℕ → ℕ
wrapping_sub a b = (a + 2 ^ 64 - b) % 2 ^ 64

-- one round of the loop: where a frame of `len` bytes goes, when there is room
unfoldable pub reserve : ℕ → Priority → Producer → Option Reservation
reserve len prio p =
    let ds = p.ring.data_size in
    let used = wrapping_sub p.head p.ring.tail in
    let off = bit_and p.head (ds - 1) in
    let remainder = ds - off in
    let wraps = ltb remainder len in
    let need = if wraps then remainder + len else len in
    if ltb ds used || ltb (budget p.ring prio - used) need
    then none
    else some (record {
      write_off = if wraps then 0 else off;
      pad = if wraps then some (off, remainder) else none;
      new_head = (p.head + need) % 2 ^ 64;
    })

unfoldable pub bump_dropped : Producer → Producer
bump_dropped p = record p { ring = record p.ring { dropped = (p.ring.dropped + 1) % 2 ^ 64 } }

-- the store of `TotalSize` that makes a frame visible
unfoldable pub commit : ℕ → ℕ → Ring → Option Ring
commit off total r = do
  bytes ← write_at off (le_bytes 4 (total % 2 ^ 32)) r.bytes
  some (record r { bytes = bytes })

unfoldable pub write_pad : ℕ → ℕ → Ring → Option Ring
write_pad off len r = do
  bytes ← write_at (off + 4) (0 ∷ 0 ∷ []) r.bytes
  bytes' ← write_at (off + 6) (0 ∷ 0 ∷ []) bytes
  commit off len (record r { bytes = bytes' })

unfoldable pub pad_if : Option (ℕ × ℕ) → Ring → Option Ring
pad_if none r = some r
pad_if (some (off, remainder)) r = write_pad off remainder r

-- after the reservation: the mirror, the pad, the body, and the commit
unfoldable pub fill : List ℕ → Reservation → Ring → Option Ring
fill frame res r = do
  padded ← pad_if res.pad (record r { head_mirror = max r.head_mirror res.new_head })
  bytes ← write_at (res.write_off + 4) (drop 4 frame) padded.bytes
  commit res.write_off (length frame) (record padded { bytes = bytes })

unfoldable pub publish : List ℕ → Priority → Producer → Option (Bool × Producer)
publish frame prio p =
    if ltb (length frame) 8 || ltb p.ring.data_size (length frame)
    then some (false, bump_dropped p)
    else elim (reserve (length frame) prio p) [
      | none ↦ some (false, bump_dropped p)
      | some res ↦ do
        ring ← fill frame res p.ring
        some (true, record { ring = ring; head = res.new_head })
    ]

unfoldable pub needs_doorbell : Ring → Bool
needs_doorbell r = r.consumer_state == 1
