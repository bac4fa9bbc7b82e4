-- ===== src/Batches.antt =====
-- endpoint_service/src/source.rs: `ReaderSource::next_batch` and `read_exact_or_eof`. The reader `R` is a
-- stream: the bytes that are left, and how the next calls of `read` end. A call that may give `k` bytes
-- gives 1 at least, unless the stream has ended; calls past the plan give all that is asked for. Failed
-- calls leave the stream as it is.
pub mod Whole
pub mod Frames
use correlation_engine.Prelude.{
  ℕ, ◌-◌, Option, none, some, List, [], ◌∷◌, ◌++◌, min, max, leb, ltb, ◌==◌, if◌then◌else◌,
}
use correlation_engine.Prelude.Lists.{length, take, drop}
use correlation_engine.Prelude.Texts.{is_nil}
use correlation_engine.Wire.Primitives.{from_le}

pub data Call : Type 0 where
  gives : (most : ℕ) → Call
  interrupted failed : Call

pub record Stream : Type 0 where
  pub left : List ℕ
  pub plan : List Call

pub data ReadError : Type 0 where
  partial_header : ReadError
  bad_total_size : ReadError
  unexpected_eof : ReadError
  io_error : ReadError

-- the result of an operation, and the stream behind it
pub data Reading {ℓ} (A : Type ℓ) : Type ℓ where
  ok : A → Stream → Reading A
  err : ReadError → Stream → Reading A

infixl 5 ◌>>=◌
abbrev pub ◌>>=◌ {ℓ κ} :
    {A : Type ℓ} {B : Type κ} → Reading A → (A × Stream → Reading B) → Reading B
ok a s >>= f = f (a, s)
err e s >>= f = err e s

-- The loop over `read`, with `want` bytes of the buffer still to fill behind `filled`, until the buffer is
-- full, or the stream has ended: then `at_end` says what becomes of the bytes read.
module _ (at_end : List ℕ → Stream → Reading (Option (List ℕ))) where
  unfoldable pub read_loop : List Call → ℕ → List ℕ → List ℕ → Reading (Option (List ℕ))
  read_loop [] want filled left =
      if leb want (length left)
      then ok (some (filled ++ take want left)) (record { left = drop want left; plan = [] })
      else at_end (filled ++ left) (record { left = []; plan = [] })
  read_loop (interrupted ∷ plan) want filled left =
      let rest = read_loop plan want filled left in
      if want == 0
      then ok (some filled) (record { left = left; plan = interrupted ∷ plan })
      else rest
  read_loop (failed ∷ plan) want filled left =
      if want == 0
      then ok (some filled) (record { left = left; plan = failed ∷ plan })
      else err io_error (record { left = left; plan = plan })
  read_loop (gives most ∷ plan) want filled left =
      let got = take (min (max 1 most) want) left in
      let rest = read_loop plan (want - length got) (filled ++ got) (drop (length got) left) in
      if want == 0
      then ok (some filled) (record { left = left; plan = gives most ∷ plan })
      else if is_nil left
      then at_end filled (record { left = []; plan = plan })
      else rest

-- a clean end before the first byte; an end after it is an error
abbrev pub or_eof : List ℕ → Stream → Reading (Option (List ℕ))
or_eof [] s = ok none s
or_eof (b ∷ bs) s = err partial_header s

unfoldable pub read_exact_or_eof : ℕ → Stream → Reading (Option (List ℕ))
read_exact_or_eof n s = read_loop or_eof s.plan n [] s.left

-- `Read::read_exact` of the standard library
abbrev pub no_eof : List ℕ → Stream → Reading (Option (List ℕ))
no_eof bs s = err unexpected_eof s

unfoldable pub read_exact : ℕ → Stream → Reading (Option (List ℕ))
read_exact n s = read_loop no_eof s.plan n [] s.left

abbrev pub whole : List ℕ → Option (List ℕ) → Option (List ℕ)
whole hdr none = none
whole hdr (some body) = some (hdr ++ body)

unfoldable pub read_body : List ℕ → Stream → Reading (Option (List ℕ))
read_body hdr s =
    if ltb (from_le hdr) 4
    then err bad_total_size s
    else do (body, s') ← read_exact (from_le hdr - 4) s; ok (whole hdr body) s'

abbrev pub after_header : Option (List ℕ) → Stream → Reading (Option (List ℕ))
after_header none s = ok none s
after_header (some hdr) s = read_body hdr s

unfoldable pub next_batch : Stream → Reading (Option (List ℕ))
next_batch s = do (hdr, s') ← read_exact_or_eof 4 s; after_header hdr s'
