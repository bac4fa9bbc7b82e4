-- ===== src/Ringbuf/Memory.antt =====
-- The data region of endpoint_service/src/ringbuf.rs: bytes, written and read inside the region only.
use correlation_engine.Prelude.{
  ℕ, ◌+◌, ◌≤◌, ◌≡◌, refl, false, Option, none, some, List, ◌++◌, zero, suc, [], ◌∷◌, ltb,
  if◌then◌else◌, arith, ap,
}
use correlation_engine.Prelude.Lists.{length, take, drop, length-append}

-- `copy_nonoverlapping` of `bs` to offset `off`
unfoldable pub write_at : ℕ → List ℕ → List ℕ → Option (List ℕ)
write_at off bs mem =
    if ltb (length mem) (off + length bs)
    then none
    else some (take off mem ++ (bs ++ drop (off + length bs) mem))

unfoldable pub read_at : ℕ → ℕ → List ℕ → Option (List ℕ)
read_at off n mem = if ltb (length mem) (off + n) then none else some (take n (drop off mem))

length-drop : (n : ℕ) (mem : List ℕ) → n ≤ length mem → n + length (drop n mem) ≡ length mem
length-drop zero mem h = omega arith
length-drop (suc n) [] h = absurd (omega arith)
length-drop (suc n) (x ∷ mem) h = omega (arith, length-drop n mem (omega arith))

length-take : (n : ℕ) (mem : List ℕ) → n ≤ length mem → length (take n mem) ≡ n
length-take zero mem h = refl
length-take (suc n) [] h = absurd (omega arith)
length-take (suc n) (x ∷ mem) h = ap suc (length-take n mem (omega arith))

-- A write that ends inside the region is done, and the region keeps its size.
pub write_at-some :
    (off : ℕ) (bs mem : List ℕ)
    → off + length bs ≤ length mem
    → (mem' : List ℕ) × (write_at off bs mem ≡ some mem') × (length mem' ≡ length mem)
unfolding write_at
write_at-some off bs mem h =
    let fits : ltb (length mem) (off + length bs) ≡ false = ground arith in
    let after = drop (off + length bs) mem in
    (
      take off mem ++ (bs ++ after),
      rw fits refl,
      omega (
        arith,
        length-append (take off mem) (bs ++ after),
        length-append bs after,
        length-take off mem (omega arith),
        length-drop (off + length bs) mem h,
      ),
    )
