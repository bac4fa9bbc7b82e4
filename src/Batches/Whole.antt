-- ===== src/Batches/Whole.antt =====
-- endpoint_service/src/source.rs takes whole frames from a stream, however the stream is cut into reads.
use correlation_engine.Prelude.{
  ℕ, zero, suc, ◌+◌, ◌-◌, ◌<◌, ◌≤◌, ◌≡◌, refl, sym, ap, ◌∙◌, true, false, Option, none, some, List,
  [], ◌∷◌, ◌++◌, min, max, leb, ltb, ◌==◌, arith,
}
use mathlib.Core.List.{append_assoc, append-nil}
use correlation_engine.Prelude.Lists.{length, take, drop}
use correlation_engine.Prelude.Cuts.{
  length-take, length-drop, take-take-drop, drop-drop, take-length-take, take-append-drop,
}
use correlation_engine.Wire.Primitives.{from_le}
use correlation_engine.Batches.{
  Call, gives, interrupted, failed, Stream, Reading, ok, err, ReadError, bad_total_size,
  partial_header, unexpected_eof, read_loop, or_eof, no_eof, read_exact_or_eof, read_exact,
  read_body, next_batch,
}

-- no call of the plan fails
abbrev pub IsCalmPlan : List Call → Type 0
IsCalmPlan [] = Unit {0}
IsCalmPlan (gives most ∷ plan) = IsCalmPlan plan
IsCalmPlan (interrupted ∷ plan) = IsCalmPlan plan
IsCalmPlan (failed ∷ plan) = ⊥

abbrev AtEnd : Type 0
AtEnd = List ℕ → Stream → Reading (Option (List ℕ))

-- What the loop does on a plan with no failed call: it fills the buffer, or meets the end of the
-- stream with all bytes read.
abbrev Filled : AtEnd → List Call → ℕ → List ℕ → List ℕ → Type 0
Filled at_end plan want filled left =
    (plan' : List Call) × IsCalmPlan plan'
    × ((want ≤ length left)
        → read_loop at_end plan want filled left
          ≡ ok (some (filled ++ take want left)) (record { left = drop want left; plan = plan' }))
    × ((length left < want)
        → read_loop at_end plan want filled left
          ≡ at_end (filled ++ left) (record { left = []; plan = plan' }))

-- the buffer is full already
Filled-zero :
    (at_end : AtEnd) (call : Call) (plan : List Call) (filled left : List ℕ)
    → IsCalmPlan (call ∷ plan)
    → read_loop at_end (call ∷ plan) 0 filled left
      ≡ ok (some filled) (record { left = left; plan = call ∷ plan })
    → Filled at_end (call ∷ plan) 0 filled left
Filled-zero at_end call plan filled left calm run =
    (call ∷ plan, calm, λ h. run ∙ rw (append-nil filled), λ h. absurd (omega arith))

step_gives :
    (at_end : AtEnd) (most : ℕ) (plan : List Call) (want : ℕ) (filled : List ℕ) (b : ℕ)
    (bs : List ℕ)
    → (let got = take (min (max 1 most) (suc want)) (b ∷ bs) in
        Filled at_end plan (suc want - length got) (filled ++ got) (drop (length got) (b ∷ bs)))
    → Filled at_end (gives most ∷ plan) (suc want) filled (b ∷ bs)
unfolding read_loop
step_gives at_end most plan want filled b bs (plan', calm, full, short) =
    let xs = b ∷ bs in
    let n = min (max 1 most) (suc want) in
    let got = take n xs in
    let g = length got in
    let more : (suc want == 0) ≡ false = ground arith in
    let short_got : g ≤ suc want = omega (arith, length-take n xs) in
    let in_left : g ≤ length xs = omega (arith, length-take n xs) in
    let left_len : length (drop g xs) + g ≡ length xs = omega (arith, length-drop g xs) in
    let all : got ++ take (suc want - g) (drop g xs) ≡ take (suc want) xs =
      ap (λ (t : List ℕ). t ++ take (suc want - g) (drop g xs)) (sym (take-length-take n xs))
      ∙ take-take-drop g (suc want) xs short_got in
    let rest : drop (suc want - g) (drop g xs) ≡ drop (suc want) xs =
      drop-drop g (suc want) xs short_got in
    let back : got ++ drop g xs ≡ xs =
      ap (λ (t : List ℕ). t ++ drop g xs) (sym (take-length-take n xs)) ∙ take-append-drop g xs in
    let result : List ℕ → List ℕ → Reading (Option (List ℕ)) =
      λ front left. ok (some front) (record { left = left; plan = plan' }) in
    (
      plan',
      calm,
      λ h. rw more (
          full (omega arith)
          ∙ ap (λ (t : List ℕ). result t (drop (suc want - g) (drop g xs)))
              (append_assoc filled got (take (suc want - g) (drop g xs))
                ∙ ap (λ (t : List ℕ). filled ++ t) all)
          ∙ ap (result (filled ++ take (suc want) xs)) rest),
      λ h. rw more (
          short (omega arith)
          ∙ ap (λ (t : List ℕ). at_end t (record { left = []; plan = plan' }))
              (append_assoc filled got (drop g xs) ∙ ap (λ (t : List ℕ). filled ++ t) back)),
    )

read_loop_lem :
    (at_end : AtEnd) (plan : List Call) (want : ℕ) (filled left : List ℕ)
    → IsCalmPlan plan
    → Filled at_end plan want filled left
unfolding read_loop
read_loop_lem at_end [] want filled left calm = (
  [],
  tt,
  λ h. let t : leb want (length left) ≡ true = ground arith in rw t,
  λ h. let t : leb want (length left) ≡ false = ground arith in rw t,
)
read_loop_lem at_end (failed ∷ plan) want filled left calm = elim calm [ ]
read_loop_lem at_end (interrupted ∷ plan) zero filled left calm =
    Filled-zero at_end interrupted plan filled left calm refl
read_loop_lem at_end (interrupted ∷ plan) (suc want) filled left calm =
    let more : (suc want == 0) ≡ false = ground arith in
    let (plan', calm', full, short) = read_loop_lem at_end plan (suc want) filled left calm in
    (plan', calm', λ h. rw more (full h), λ h. rw more (short h))
read_loop_lem at_end (gives most ∷ plan) zero filled left calm =
    Filled-zero at_end (gives most) plan filled left calm refl
read_loop_lem at_end (gives most ∷ plan) (suc want) filled [] calm =
    let more : (suc want == 0) ≡ false = ground arith in
    (
      plan,
      calm,
      λ h. absurd (omega arith),
      λ h. rw more (
          ap (λ (t : List ℕ). at_end t (record { left = []; plan = plan }))
            (sym (append-nil filled))),
    )
read_loop_lem at_end (gives most ∷ plan) (suc want) filled (b ∷ bs) calm =
    let got = take (min (max 1 most) (suc want)) (b ∷ bs) in
    step_gives at_end most plan want filled b bs (
      read_loop_lem at_end plan (suc want - length got) (filled ++ got) (drop (length got) (b ∷ bs))
        calm)

-- the stream behind a step, whatever its plan
abbrev pub Ends : ReadError → Reading (Option (List ℕ)) → Type 0
Ends e r = (s : Stream) × (r ≡ err e s)

-- What `next_batch` is to return for the bytes that are left: nothing at a clean end, an error at an end
-- within a header, and else by the size that the header announces.
abbrev pub Expected : List ℕ → Reading (Option (List ℕ)) → Type 0
Expected [] r = (plan : List Call) × (r ≡ ok none (record { left = []; plan = plan }))
Expected (a ∷ b ∷ c ∷ d ∷ body) r =
    let total = from_le (a ∷ b ∷ c ∷ d ∷ []) in
    ((total < 4) → Ends bad_total_size r)
    × ((4 ≤ total) → (length body < total - 4) → Ends unexpected_eof r)
    × ((4 ≤ total)
        → (total - 4 ≤ length body)
        → (plan : List Call) × IsCalmPlan plan
          × (r
              ≡ ok (some (a ∷ b ∷ c ∷ d ∷ take (total - 4) body))
                  (record { left = drop (total - 4) body; plan = plan })))
Expected _ r = Ends partial_header r

short_header :
    (plan : List Call) (b : ℕ) (bs : List ℕ)
    → length bs < 3
    → IsCalmPlan plan
    → Ends partial_header (next_batch (record { left = b ∷ bs; plan = plan }))
unfolding next_batch read_exact_or_eof
short_header plan b bs h calm =
    let (plan', calm', full, short) = read_loop_lem or_eof plan 4 [] (b ∷ bs) calm in
    (record { left = []; plan = plan' }, rw (short (omega arith)))

-- On a stream whose calls do not fail, `next_batch` returns what is expected of the bytes that are left,
-- however the calls cut them.
pub next_batch-Expected :
    (left : List ℕ) (plan : List Call)
    → IsCalmPlan plan
    → Expected left (next_batch (record { left = left; plan = plan }))
unfolding next_batch read_exact_or_eof read_body read_exact
next_batch-Expected [] plan calm =
    let (plan', calm', full, short) = read_loop_lem or_eof plan 4 [] [] calm in
    (plan', rw (short (omega arith)))
next_batch-Expected (a ∷ []) plan calm = short_header plan a [] (omega arith) calm
next_batch-Expected (a ∷ b ∷ []) plan calm = short_header plan a (b ∷ []) (omega arith) calm
next_batch-Expected (a ∷ b ∷ c ∷ []) plan calm = short_header plan a (b ∷ c ∷ []) (omega arith) calm
next_batch-Expected (a ∷ b ∷ c ∷ d ∷ body) plan calm =
    let hdr = a ∷ b ∷ c ∷ d ∷ [] in
    let total = from_le hdr in
    let (plan', calm', full, short) = read_loop_lem or_eof plan 4 [] (a ∷ b ∷ c ∷ d ∷ body) calm in
    let (plan'', calm'', fills, lacks) = read_loop_lem no_eof plan' (total - 4) [] body calm' in
    let header_read = full (omega arith) in
    (
      λ small.
          let t : ltb total 4 ≡ true = ground arith in
          (record { left = body; plan = plan' }, rw header_read (rw t)),
      λ big less.
          let t : ltb total 4 ≡ false = ground arith in
          (record { left = []; plan = plan'' }, rw header_read (rw t (rw (lacks less)))),
      λ big enough.
          let t : ltb total 4 ≡ false = ground arith in
          (plan'', calm'', rw header_read (rw t (rw (fills enough)))),
    )
