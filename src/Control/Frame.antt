-- ===== src/Control/Frame.antt =====
-- Frames and the other records of endpoint_service/src/control.rs.
use correlation_engine.Prelude.{
  ℕ, zero, suc, ◌^◌, ◌%◌, ◌<◌, ◌≤◌, ◌≡◌, ◌⊎◌, refl, sym, ap, ◌∙◌, Bool, true, false, Option, none,
  some, List, [], ◌∷◌, ◌++◌, if◌then◌else◌, arith, inl, inr,
}
use correlation_engine.Prelude.Lists.{length, length-append, drop, drop-length-append, All}
use correlation_engine.Wire.Primitives.{le_bytes, from_le, length-le_bytes}
use correlation_engine.Edr.{NodeKey}
use correlation_engine.Control.{
  ArmCmd, arm, disarm, encode, command, Decoded, ok, too_short, bad_op, unknown_kind, decode,
  encode_frame, encode_set_self, encode_register_ring, encode_set_rules, encode_verdict,
}
use correlation_engine.Control.RoundTrip.{IsEnforceable, actor_of, IsCarried, encode-IsCarried}

-- the numbers of a process's identity have their widths
abbrev pub IsInRange : NodeKey → Type 0
IsInRange (NodeKey.process pid start_ms) = (pid < 2 ^ 32) × (start_ms < 2 ^ 64)
IsInRange _ = Unit {0}

is_process : NodeKey → Bool
is_process (NodeKey.process pid start_ms) = true
is_process _ = false

-- the commands that the kernel can enforce
pub enforceable : List ArmCmd → List ArmCmd
unfolding is_process
enforceable [] = []
enforceable (c ∷ cs) =
    let rest = enforceable cs in if is_process (actor_of c) then c ∷ rest else rest

abbrev followed : Decoded → Option (List ArmCmd) → Option (List ArmCmd)
followed (ok c) (some cs) = some (c ∷ cs)
followed (ok c) none = none
followed (too_short l) rest = none
followed (bad_op o) rest = none
followed (unknown_kind k) rest = none

-- A reader of a frame: `n` records of 16 bytes, and nothing behind them.
pub read_frame : ℕ → List ℕ → Option (List ArmCmd)
read_frame zero [] = some []
read_frame zero (b ∷ bs) = none
read_frame (suc n) bs = followed (decode bs) (read_frame n (drop 16 bs))

split_actor :
    (c : ArmCmd)
    → IsInRange (actor_of c)
    → (IsEnforceable (actor_of c) × (is_process (actor_of c) ≡ true))
      ⊎ ((is_process (actor_of c) ≡ false) × (encode c ≡ none))
unfolding is_process encode command
split_actor (arm (NodeKey.process pid start) op) h = inl (h, refl)
split_actor (disarm (NodeKey.process pid start)) h = inl (h, refl)
split_actor (arm (NodeKey.file id) op) h = inr (refl, refl)
split_actor (arm (NodeKey.socket k) op) h = inr (refl, refl)
split_actor (arm (NodeKey.other k s) op) h = inr (refl, refl)
split_actor (disarm (NodeKey.file id)) h = inr (refl, refl)
split_actor (disarm (NodeKey.socket k)) h = inr (refl, refl)
split_actor (disarm (NodeKey.other k s)) h = inr (refl, refl)

read_frame_next :
    (n : ℕ) (c : ArmCmd) (bytes rest : List ℕ) (cs : List ArmCmd)
    → IsCarried c bytes
    → read_frame n rest ≡ some cs
    → read_frame (suc n) (bytes ++ rest) ≡ some (c ∷ cs)
unfolding read_frame
read_frame_next n c bytes rest cs h k =
    let past : drop 16 (bytes ++ rest) ≡ rest =
      ap (λ (i : ℕ). drop i (bytes ++ rest)) (sym h.sixteen) ∙ drop-length-append bytes rest in
    rw (h.read_back rest, past) (rw k)

-- A frame of commands, with numbers of their widths, is read back, record by record and to its end, as
-- the commands that name a process, in their order.
pub read_frame-encode_frame :
    (cs : List ArmCmd)
    → All (λ (c : ArmCmd). IsInRange (actor_of c)) cs
    → read_frame (length (enforceable cs)) (encode_frame cs) ≡ some (enforceable cs)
unfolding encode_frame enforceable
read_frame-encode_frame [] h = unfold read_frame in refl
read_frame-encode_frame (c ∷ cs) h = elim (split_actor c h.0) [
  | inl (e, is) ↦
      let (bytes, carried) = encode-IsCarried c e in
      rw (is, carried.written)
        (read_frame_next (length (enforceable cs)) c bytes (encode_frame cs) (enforceable cs)
          carried (read_frame-encode_frame cs h.1))
  | inr (is, skipped) ↦ rw (is, skipped) (read_frame-encode_frame cs h.1)
]

decode_unknown :
    (b : ℕ) (bs : List ℕ) → b < 256 → 2 < b → 15 ≤ length bs → decode (b ∷ bs) ≡ unknown_kind b
unfolding decode from_le
decode_unknown b bs small p q = ground arith

-- `decode` answers a record that registers the service or the ring, a verdict, or a ruleset of at least
-- eight bytes, with the error for its unknown kind, whatever bytes follow it: none is read as a command.
pub other_records_distinct :
    (pid ring_bytes doorbell req_id : ℕ) (deny : Bool) (wire rest : List ℕ)
    → 8 ≤ length wire
    → (decode (encode_set_self pid ++ rest) ≡ unknown_kind 3)
      × (decode (encode_register_ring ring_bytes doorbell ++ rest) ≡ unknown_kind 4)
      × (decode (encode_verdict req_id deny ++ rest) ≡ unknown_kind 5)
      × (decode (encode_set_rules wire ++ rest) ≡ unknown_kind 6)
unfolding decode encode_set_self encode_register_ring encode_verdict encode_set_rules
other_records_distinct pid ring_bytes doorbell req_id deny wire rest h = (
  decode_unknown 3 (0 ∷ 0 ∷ 0 ∷ ((le_bytes 4 pid ++ le_bytes 8 0) ++ rest)) (omega arith)
      (omega arith) (long pid 0),
  decode_unknown 4 (0 ∷ 0 ∷ 0 ∷ ((le_bytes 4 ring_bytes ++ le_bytes 8 doorbell) ++ rest))
      (omega arith) (omega arith) (long ring_bytes doorbell),
  decode_unknown 5 ((if deny then 1 else 0) ∷ 0 ∷ 0 ∷ ((le_bytes 4 req_id ++ le_bytes 8 0) ++ rest))
      (omega arith) (omega arith) (long req_id 0),
  decode_unknown 6 (0 ∷ 0 ∷ 0 ∷ ((le_bytes 4 (length wire % 2 ^ 32) ++ wire) ++ rest)) (omega arith)
      (omega arith)
      (omega (
        arith,
        length-append (le_bytes 4 (length wire % 2 ^ 32) ++ wire) rest,
        length-append (le_bytes 4 (length wire % 2 ^ 32)) wire,
        length-le_bytes 4 (length wire % 2 ^ 32),
      )),
)
  where
    long : (x y : ℕ) → 15 ≤ suc (suc (suc (length ((le_bytes 4 x ++ le_bytes 8 y) ++ rest))))
    long x y = omega (
      arith,
      length-append (le_bytes 4 x ++ le_bytes 8 y) rest,
      length-append (le_bytes 4 x) (le_bytes 8 y),
      length-le_bytes 4 x,
      length-le_bytes 8 y,
    )
