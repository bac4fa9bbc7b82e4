-- ===== src/Ringbuf/Bounds.antt =====
-- Where the producer of endpoint_service/src/ringbuf.rs writes, and how much it may reserve.
use correlation_engine.Prelude.{
  ℕ, ◌+◌, ◌-◌, ◌%◌, ◌^◌, ◌≤◌, ◌≡◌, refl, sym, ◌∙◌, Bool, true, false, ◌||◌, Option, none, some,
  List, [], ◌∷◌, max, bit_and, ltb, if◌then◌else◌, arith, Bool-cases, Option-cases, some_inj,
  pair_inj, inl, inr,
}
use mathlib.Core.Path.{subst}
use correlation_engine.Prelude.Bits.{bit_and_le_right, bit_and_mod_eight}
use correlation_engine.Prelude.Lists.{length, drop}
use correlation_engine.Wire.Primitives.{le_bytes, length-le_bytes}
use correlation_engine.Ringbuf.{
  Ring, Priority, Producer, Reservation, budget, wrapping_sub, reserve, bump_dropped, commit,
  write_pad, pad_if, fill, publish,
}
use correlation_engine.Ringbuf.Memory.{write_at-some}

-- The tail and the consumer's state are not restricted: the service may write anything there.
pub record IsAligned (p : Producer) : Type 0 where
  pub size_of_bytes : length p.ring.bytes ≡ p.ring.data_size
  pub size_eights : p.ring.data_size % 8 ≡ 0
  pub size_least : 8 ≤ p.ring.data_size
  pub head_eights : p.head % 8 ≡ 0

-- What a reservation for `len` bytes promises: a slot inside the data, and a pad that reaches the end.
record Fits (len ds : ℕ) (res : Reservation) : Type 0 where
  slot_in : res.write_off + len ≤ ds
  pad_in : (off n : ℕ) → res.pad ≡ some (off, n) → off + 8 ≤ ds
  head_eights : res.new_head % 8 ≡ 0

reserve-Fits :
    (len : ℕ) (prio : Priority) (p : Producer) (res : Reservation)
    → IsAligned p
    → len % 8 ≡ 0
    → len ≤ p.ring.data_size
    → reserve len prio p ≡ some res
    → Fits len p.ring.data_size res
unfolding reserve
reserve-Fits len prio p res h eights small run =
    let ds = p.ring.data_size in
    let off = bit_and p.head (ds - 1) in
    let le : off ≤ ds - 1 = bit_and_le_right p.head (ds - 1) in
    let eight : off % 8 ≡ 0 = bit_and_mod_eight p.head (ds - 1) h.head_eights in
    elim (Bool-cases (
      ltb ds (wrapping_sub p.head p.ring.tail)
      || ltb (budget p.ring prio - wrapping_sub p.head p.ring.tail)
          (if ltb (ds - off) len then ds - off + len else len))) [
            | inl full ↦ absurd (cc (rw full at run))
            | inr room ↦ elim (Bool-cases (ltb (ds - off) len)) [
              | inl wraps ↦
                  subst (Fits len ds) (some_inj (rw (rw wraps at room) at (rw wraps at run)))
                    (record {
                      slot_in = omega arith;
                      pad_in =
                          λ o n e. (let same : off ≡ o = (pair_inj (some_inj e)).0 in omega arith);
                      head_eights = omega arith;
                    })
              | inr fits ↦
                  subst (Fits len ds) (some_inj (rw (rw fits at room) at (rw fits at run)))
                    (record {
                      slot_in = ground arith;
                      pad_in = λ o n e. cc;
                      head_eights = ground arith;
                    })
            ]
          ]

write_pad-some :
    (off n : ℕ) (r : Ring)
    → off + 8 ≤ length r.bytes
    → (r' : Ring) × (write_pad off n r ≡ some r')
      × (length r'.bytes ≡ length r.bytes)
      × (r'.data_size ≡ r.data_size)
unfolding write_pad commit
write_pad-some off n r h =
    let (b1, e1, l1) = write_at-some (off + 4) (0 ∷ 0 ∷ []) r.bytes (omega arith) in
    let (b2, e2, l2) = write_at-some (off + 6) (0 ∷ 0 ∷ []) b1 (omega arith) in
    let (b3, e3, l3) =
      write_at-some off (le_bytes 4 (n % 2 ^ 32)) b2
        (omega (arith, length-le_bytes 4 (n % 2 ^ 32))) in
    (record r { bytes = b3 }, rw e1 (rw e2 (rw e3 refl)), omega arith, refl)

pad_if-some :
    (pad : Option (ℕ × ℕ)) (r : Ring)
    → ((off n : ℕ) → pad ≡ some (off, n) → off + 8 ≤ length r.bytes)
    → (r' : Ring) × (pad_if pad r ≡ some r')
      × (length r'.bytes ≡ length r.bytes)
      × (r'.data_size ≡ r.data_size)
unfolding pad_if
pad_if-some none r h = (r, refl, refl, refl)
pad_if-some (some (off, n)) r h = write_pad-some off n r (h off n refl)

length-drop_four : (bs : List ℕ) → 8 ≤ length bs → length (drop 4 bs) + 4 ≡ length bs
length-drop_four (a ∷ b ∷ c ∷ d ∷ bs) h = omega arith
length-drop_four (a ∷ b ∷ c ∷ []) h = absurd (omega arith)
length-drop_four (a ∷ b ∷ []) h = absurd (omega arith)
length-drop_four (a ∷ []) h = absurd (omega arith)
length-drop_four [] h = absurd (omega arith)

fill-some :
    (bs : List ℕ) (res : Reservation) (r : Ring)
    → 8 ≤ length bs
    → length r.bytes ≡ r.data_size
    → Fits (length bs) r.data_size res
    → (r' : Ring) × (fill bs res r ≡ some r')
      × (length r'.bytes ≡ r.data_size)
      × (r'.data_size ≡ r.data_size)
unfolding fill commit
fill-some bs res r h full f =
    let r0 = record r { head_mirror = max r.head_mirror res.new_head } in
    let (r1, e1, l1, d1) =
      pad_if-some res.pad r0 (λ off n e. (let le = f.pad_in off n e in omega arith)) in
    let slot = f.slot_in in
    let four = length-drop_four bs h in
    let (b2, e2, l2) = write_at-some (res.write_off + 4) (drop 4 bs) r1.bytes (omega arith) in
    let (b3, e3, l3) =
      write_at-some res.write_off (le_bytes 4 (length bs % 2 ^ 32)) b2
        (omega (arith, length-le_bytes 4 (length bs % 2 ^ 32))) in
    (record r1 { bytes = b3 }, rw e1 (rw e2 (rw e3 refl)), omega arith, d1)

-- Whatever the service has written to `tail` and the consumer's state, a frame of whole eights is
-- published or dropped with no access outside the data region, and the ring stays aligned.
pub publish_total :
    (bs : List ℕ) (prio : Priority) (p : Producer)
    → IsAligned p
    → length bs % 8 ≡ 0
    → (taken : Bool) × (p' : Producer) × (publish bs prio p ≡ some (taken, p')) × IsAligned p'
unfolding publish bump_dropped
publish_total bs prio p h eights =
    elim (Bool-cases (ltb (length bs) 8 || ltb p.ring.data_size (length bs))) [
      | inl odd ↦ (false, bump_dropped p, rw odd refl, keep)
      | inr whole ↦ elim (Option-cases (reserve (length bs) prio p)) [
        | inl e ↦ (false, bump_dropped p, rw whole (rw e refl), keep)
        | inr (res, e) ↦
            let f = reserve-Fits (length bs) prio p res h eights (ground arith) e in
            let (r, run, len, size) = fill-some bs res p.ring (ground arith) h.size_of_bytes f in
            (
              true,
              record { ring = r; head = res.new_head },
              rw whole (rw e (rw run refl)),
              record {
                size_of_bytes = len ∙ sym size;
                size_eights = rw size h.size_eights;
                size_least = rw size h.size_least;
                head_eights = f.head_eights;
              },
            )
      ]
    ]
  where
    keep : IsAligned (bump_dropped p)
    keep = record {
      size_of_bytes = h.size_of_bytes;
      size_eights = h.size_eights;
      size_least = h.size_least;
      head_eights = h.head_eights;
    }
