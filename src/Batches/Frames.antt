-- ===== src/Batches/Frames.antt =====
-- Frames one behind another in a stream of endpoint_service/src/source.rs.
use correlation_engine.Prelude.{
  ℕ, zero, suc, ◌+◌, ◌-◌, ◌^◌, ◌<◌, ◌≤◌, ◌≡◌, ap, ◌∙◌, Bool, Option, none, some, List, [], ◌∷◌,
  ◌++◌, arith,
}
use correlation_engine.Prelude.Lists.{
  length, length-append, take, drop, take-length-append, drop-length-append, All,
}
use correlation_engine.Wire.Primitives.{from_le, le_bytes}
use correlation_engine.Sensor.Encode.{build_frame, concat}
use correlation_engine.Batches.{Call, Stream, Reading, ok, err, next_batch}
use correlation_engine.Batches.Whole.{IsCalmPlan, next_batch-Expected}

-- a frame starts with its own size, in four bytes
abbrev pub IsFrame : List ℕ → Type 0
IsFrame (a ∷ b ∷ c ∷ d ∷ body) =
    (4 ≤ from_le (a ∷ b ∷ c ∷ d ∷ [])) × (from_le (a ∷ b ∷ c ∷ d ∷ []) ≡ 4 + length body)
IsFrame _ = ⊥

next_batch-frame :
    (f rest : List ℕ) (plan : List Call)
    → IsFrame f
    → IsCalmPlan plan
    → (plan' : List Call) × IsCalmPlan plan'
      × (next_batch (record { left = f ++ rest; plan = plan })
          ≡ ok (some f) (record { left = rest; plan = plan' }))
next_batch-frame [] rest plan h calm = elim h [ ]
next_batch-frame (a ∷ []) rest plan h calm = elim h [ ]
next_batch-frame (a ∷ b ∷ []) rest plan h calm = elim h [ ]
next_batch-frame (a ∷ b ∷ c ∷ []) rest plan h calm = elim h [ ]
next_batch-frame (a ∷ b ∷ c ∷ d ∷ body) rest plan (big, size) calm =
    let total = from_le (a ∷ b ∷ c ∷ d ∷ []) in
    let (bad, short, good) = next_batch-Expected (a ∷ b ∷ c ∷ d ∷ (body ++ rest)) plan calm in
    let n : total - 4 ≡ length body = omega arith in
    let (plan', calm', run) = good big (omega (arith, length-append body rest)) in
    let front : take (total - 4) (body ++ rest) ≡ body =
      ap (λ (k : ℕ). take k (body ++ rest)) n ∙ take-length-append body rest in
    let back : drop (total - 4) (body ++ rest) ≡ rest =
      ap (λ (k : ℕ). drop k (body ++ rest)) n ∙ drop-length-append body rest in
    let result : List ℕ → List ℕ → Reading (Option (List ℕ)) =
      λ t left. ok (some (a ∷ b ∷ c ∷ d ∷ t)) (record { left = left; plan = plan' }) in
    (
      plan',
      calm',
      run
          ∙ ap (λ (t : List ℕ). result t (drop (total - 4) (body ++ rest))) front
          ∙ ap (result body) back,
    )

abbrev onto : List ℕ → Option (List (List ℕ)) → Option (List (List ℕ))
onto f none = none
onto f (some fs) = some (f ∷ fs)

-- `while let Some(batch) = next_batch()?`, on fuel: the batches up to the end of the stream
abbrev collect :
    Reading (Option (List ℕ)) → (Stream → Option (List (List ℕ))) → Option (List (List ℕ))
collect (err e s) more = none
collect (ok none s) more = some []
collect (ok (some f) s) more = onto f (more s)

pub batches : ℕ → Stream → Option (List (List ℕ))
batches zero s = none
batches (suc fuel) s = collect (next_batch s) (batches fuel)

-- Frames sent one behind another come out as they were sent, in order, and then the end, however the
-- calls of `read` cut the stream.
pub batches-concat :
    (fs : List (List ℕ)) (plan : List Call)
    → All IsFrame fs
    → IsCalmPlan plan
    → batches (suc (length fs)) (record { left = concat fs; plan = plan }) ≡ some fs
unfolding batches concat
batches-concat [] plan h calm = let (plan', run) = next_batch-Expected [] plan calm in rw run
batches-concat (f ∷ fs) plan h calm =
    let (plan', calm', run) = next_batch-frame f (concat fs) plan h.0 calm in
    rw run (rw (batches-concat fs plan' h.1 calm'))

-- Every frame that `build_frame` makes of records, with a size below `2 ^ 32`, is such a frame.
pub build_frame-IsFrame :
    (events : List (List ℕ)) (reply : Bool)
    → 8 + length (concat events) < 2 ^ 32
    → IsFrame (build_frame events reply)
unfolding build_frame le_bytes from_le
build_frame-IsFrame events reply h = (omega arith, omega arith)
