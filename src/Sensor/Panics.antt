-- ===== src/Sensor/Panics.antt =====
-- When decoding in endpoint_service/src/sensor.rs panics, and that the loop's fuel is enough.
use correlation_engine.Prelude.{
  ℕ, zero, suc, ◌+◌, ◌%◌, ◌≤◌, ◌<◌, ◌≡◌, refl, sym, ◌∙◌, ap, Bool, true, false, not, ◌||◌, ◌&&◌,
  ◌↔◌, List, [], ◌∷◌, ltb, ◌==◌, ==_iff, if◌then◌else◌, arith, Bool-cases, inl, inr,
}
use mathlib.Core.Path.{subst}
use correlation_engine.Prelude.Lists.{length, take, drop}
use correlation_engine.Wire.Primitives.{from_le}
use correlation_engine.Sensor.{
  SensorEvent, wstr_at, string_at, decode_process_create, decode_process_open, decode_remote_thread,
  decode_named, decode_body, decode_record, record_at, parse_records, parse_frame, parse_batch,
}
use correlation_engine.Sensor.Outcomes.{
  Outcome, ok, err, panic, ◌>>=◌, slice, number_at, byte_at, u16_at, u32_at, i64_at,
}

-- returns a value or an error
abbrev pub IsCalm {ℓ} : {A : Type ℓ} → Outcome A → Type 0
IsCalm (ok a) = Unit
IsCalm (err e) = Unit
IsCalm panic = ⊥

bind-IsCalm {ℓ κ} :
    {A : Type ℓ} {B : Type κ} (o : Outcome A) (f : A → Outcome B)
    → IsCalm o
    → ((a : A) → IsCalm (f a))
    → IsCalm (o >>= f)
bind-IsCalm (ok a) f h hf = hf a
bind-IsCalm (err e) f h hf = tt
bind-IsCalm panic f h hf = absurd h

number_at-some :
    (n : ℕ) (b : List ℕ) (off : ℕ) → off + n ≤ length b → (x : ℕ) × (number_at n b off ≡ ok x)
unfolding number_at slice
number_at-some n b off h =
    let fits : ltb (length b) (off + n) ≡ false = ground arith in
    (from_le (take n (drop off b)), rw fits refl)

number_at-IsCalm : (n : ℕ) (b : List ℕ) (off : ℕ) → off + n ≤ length b → IsCalm (number_at n b off)
number_at-IsCalm n b off h = let (x, e) = number_at-some n b off h in rw e tt

if-IsCalm {ℓ} :
    {A : Type ℓ} (b : Bool) (x y : Outcome A)
    → (b ≡ true → IsCalm x)
    → (b ≡ false → IsCalm y)
    → IsCalm (if b then x else y)
if-IsCalm true x y hx hy = hx refl
if-IsCalm false x y hx hy = hy refl

string_at-IsCalm : (b : List ℕ) (off len : ℕ) → IsCalm (string_at b off len)
unfolding string_at
string_at-IsCalm b off len =
    if-IsCalm (not (len % 2 == 0)) _ _ (λ _. tt)
      (λ _. if-IsCalm (ltb (length b) (off + 2 + len)) _ _ (λ _. tt) (λ _. tt))

wstr_at-IsCalm : (b : List ℕ) (off : ℕ) → IsCalm (wstr_at b off)
unfolding wstr_at u16_at
wstr_at-IsCalm b off =
    if-IsCalm (ltb (length b) (off + 2)) _ _ (λ _. tt)
      (λ e.
        bind-IsCalm (number_at 2 b off) (string_at b off) (number_at-IsCalm 2 b off (ground arith))
          (string_at-IsCalm b off))

-- Behind a string that starts at 48, the reads before 48 are calm.
after_wstr-IsCalm {ℓ} :
    {B : Type ℓ} (rec : List ℕ) (f : List ℕ × ℕ → Outcome B)
    → (48 ≤ length rec → (x : List ℕ × ℕ) → IsCalm (f x))
    → IsCalm (wstr_at rec 48 >>= f)
unfolding wstr_at
after_wstr-IsCalm rec f h = elim (Bool-cases (ltb (length rec) 50)) [
  | inl short ↦ rw short tt
  | inr long ↦ bind-IsCalm (wstr_at rec 48) f (wstr_at-IsCalm rec 48) (h (ground arith))
]

module _ (ts pid pid_start : ℕ) (rec : List ℕ) where
  decode_process_create-IsCalm : IsCalm (decode_process_create ts pid pid_start rec)
  unfolding decode_process_create u32_at i64_at
  decode_process_create-IsCalm = after_wstr-IsCalm rec _ (λ long (image, next).
      bind-IsCalm (wstr_at rec next) _ (wstr_at-IsCalm rec next) (λ (cmdline, _).
        bind-IsCalm (number_at 4 rec 32) _ (number_at-IsCalm 4 rec 32 (omega arith)) (λ _.
          bind-IsCalm (number_at 8 rec 40) _ (number_at-IsCalm 8 rec 40 (omega arith)) (λ _. tt))))

  decode_process_open-IsCalm : IsCalm (decode_process_open ts pid pid_start rec)
  unfolding decode_process_open u32_at i64_at
  decode_process_open-IsCalm = after_wstr-IsCalm rec _ (λ long (image, _).
      bind-IsCalm (number_at 4 rec 32) _ (number_at-IsCalm 4 rec 32 (omega arith)) (λ _.
        bind-IsCalm (number_at 8 rec 40) _ (number_at-IsCalm 8 rec 40 (omega arith)) (λ _.
          bind-IsCalm (number_at 4 rec 36) _ (number_at-IsCalm 4 rec 36 (omega arith)) (λ _. tt))))

  decode_remote_thread-IsCalm : 48 ≤ length rec → IsCalm (decode_remote_thread ts pid pid_start rec)
  unfolding decode_remote_thread u32_at i64_at
  decode_remote_thread-IsCalm long =
      bind-IsCalm (number_at 4 rec 32) _ (number_at-IsCalm 4 rec 32 (omega arith)) (λ _.
        bind-IsCalm (number_at 8 rec 40) _ (number_at-IsCalm 8 rec 40 (omega arith)) (λ _.
          bind-IsCalm (number_at 4 rec 36) _ (number_at-IsCalm 4 rec 36 (omega arith)) (λ _. tt)))

  decode_named-IsCalm :
      (event : List ℕ → SensorEvent) → IsCalm (decode_named ts pid pid_start rec event)
  unfolding decode_named
  decode_named-IsCalm event = bind-IsCalm (wstr_at rec 32) _ (wstr_at-IsCalm rec 32) (λ _. tt)

  decode_body-IsCalm :
      (ty : ℕ) → (ty ≡ 104 → 48 ≤ length rec) → IsCalm (decode_body ts pid pid_start rec ty)
  unfolding decode_body
  decode_body-IsCalm ty long =
      if-IsCalm (ty == 1) _ _ (λ _. decode_named-IsCalm _)
        (λ _.
          if-IsCalm (ty == 2) _ _ (λ _. decode_named-IsCalm _)
            (λ _.
              if-IsCalm (ty == 100) _ _ (λ _. decode_process_create-IsCalm)
                (λ _.
                  if-IsCalm (ty == 101) _ _ (λ _. tt)
                    (λ _.
                      if-IsCalm (ty == 102) _ _ (λ _. decode_process_open-IsCalm)
                        (λ _.
                          if-IsCalm (ty == 103) _ _ (λ _. decode_named-IsCalm _)
                            (λ _.
                              if-IsCalm (ty == 104) _ _
                                (λ e. decode_remote_thread-IsCalm (long ((==_iff ty 104).0 e)))
                                (λ _. tt)))))))

decode_record-IsCalm :
    (rec : List ℕ)
    → 32 ≤ length rec
    → (byte_at rec 4 ≡ ok 104 → 48 ≤ length rec)
    → IsCalm (decode_record rec)
unfolding decode_record byte_at u32_at i64_at
decode_record-IsCalm rec h long =
    let (ty, e) = number_at-some 1 rec 4 (omega arith) in
    rw e (
      bind-IsCalm (number_at 8 rec 8) _ (number_at-IsCalm 8 rec 8 (omega arith)) (λ ts.
        bind-IsCalm (number_at 4 rec 16) _ (number_at-IsCalm 4 rec 16 (omega arith)) (λ pid.
          bind-IsCalm (number_at 8 rec 24) _ (number_at-IsCalm 8 rec 24 (omega arith)) (λ pid_start.
            decode_body-IsCalm ts pid pid_start rec ty (λ is_thread. long (e ∙ ap ok is_thread))))))

number_at-panics : (n : ℕ) (b : List ℕ) (off : ℕ) → length b < off + n → number_at n b off ≡ panic
unfolding number_at slice
number_at-panics n b off h =
    let short : ltb (length b) (off + n) ≡ true = ground arith in rw short refl

short_thread_panics :
    (ts pid pid_start : ℕ) (rec : List ℕ)
    → length rec < 48
    → decode_remote_thread ts pid pid_start rec ≡ panic
unfolding decode_remote_thread u32_at i64_at
short_thread_panics ts pid pid_start rec h = elim (Bool-cases (ltb (length rec) 36)) [
  | inl short ↦ rw (number_at-panics 4 rec 32 (ground arith)) refl
  | inr long ↦
      let (x, e) = number_at-some 4 rec 32 (ground arith) in
      rw e (rw (number_at-panics 8 rec 40 (omega arith)) refl)
]

ok_inj {ℓ} : {A : Type ℓ} {a b : A} → ok a ≡ ok b → a ≡ b
ok_inj e = cc

-- Decoding a record of 32 bytes or more panics exactly when it is a `RemoteThreadCreate` record of less
-- than 48 bytes, whose body is not checked before it is read.
pub decode_record_panics :
    (rec : List ℕ)
    → 32 ≤ length rec
    → (decode_record rec ≡ panic) ↔ ((byte_at rec 4 ≡ ok 104) × (length rec < 48))
unfolding decode_record byte_at u32_at i64_at decode_body
decode_record_panics rec h = (forth, back)
  where
    forth : decode_record rec ≡ panic → (byte_at rec 4 ≡ ok 104) × (length rec < 48)
    forth run =
        let (ty, e) = number_at-some 1 rec 4 (omega arith) in
        elim (Bool-cases (ty == 104 && ltb (length rec) 48)) [
          | inl both ↦ (e ∙ ap ok ((==_iff ty 104).0 (ground arith)), ground arith)
          | inr other ↦ absurd (
              subst IsCalm run (
                decode_record-IsCalm rec h (λ thread.
                  let same : ty ≡ 104 = ok_inj (sym e ∙ thread) in
                  ground (arith, (==_iff ty 104).1 same))))
        ]

    back : (byte_at rec 4 ≡ ok 104) × (length rec < 48) → decode_record rec ≡ panic
    back (thread, short) =
        let (ts, e8) = number_at-some 8 rec 8 (omega arith) in
        let (pid, e16) = number_at-some 4 rec 16 (omega arith) in
        let (start, e24) = number_at-some 8 rec 24 (omega arith) in
        rw thread (rw e8 (rw e16 (rw e24 (short_thread_panics ts pid start rec short))))

-- The offsets at which the loop over the records of a frame looks for a record.
pub data IsRecordStart (payload : List ℕ) : ℕ → Type 0 where
  first : IsRecordStart payload 8
  next :
      (off size : ℕ)
      → IsRecordStart payload off
      → u32_at payload off ≡ ok size
      → IsRecordStart payload (off + size)

abbrev pub ThreadsFit : List ℕ → Type 0
ThreadsFit payload =
    (off size : ℕ) (rec : List ℕ)
    → IsRecordStart payload off
    → u32_at payload off ≡ ok size
    → slice off size payload ≡ ok rec
    → byte_at rec 4 ≡ ok 104
    → 48 ≤ length rec

length-take-drop : (n off : ℕ) (b : List ℕ) → off + n ≤ length b → length (take n (drop off b)) ≡ n
length-take-drop zero zero b h = refl
length-take-drop (suc n) zero [] h = absurd (omega arith)
length-take-drop (suc n) zero (x ∷ b) h = ap suc (length-take-drop n zero b (omega arith))
length-take-drop n (suc off) [] h = absurd (omega arith)
length-take-drop n (suc off) (x ∷ b) h = length-take-drop n off b (omega arith)

slice-some :
    (off n : ℕ) (b : List ℕ)
    → off + n ≤ length b
    → (rec : List ℕ) × (slice off n b ≡ ok rec) × (length rec ≡ n)
unfolding slice
slice-some off n b h =
    let fits : ltb (length b) (off + n) ≡ false = ground arith in
    (take n (drop off b), rw fits refl, length-take-drop n off b h)

record_at-IsCalm :
    (payload : List ℕ) (total off size : ℕ)
    → total ≤ length payload
    → ThreadsFit payload
    → IsRecordStart payload off
    → u32_at payload off ≡ ok size
    → IsCalm (record_at payload total off size)
unfolding record_at
record_at-IsCalm payload total off size h fit start read =
    if-IsCalm (ltb size 32 || (not (size % 8 == 0) || ltb total (off + size))) _ _ (λ _. tt)
      (λ e.
        let (rec, cut, len) = slice-some off size payload (ground arith) in
        rw cut (decode_record-IsCalm rec (ground arith) (fit off size rec start read cut)))

parse_records-IsCalm :
    (fuel : ℕ) (payload : List ℕ) (total off : ℕ)
    → total ≤ length payload
    → ThreadsFit payload
    → IsRecordStart payload off
    → IsCalm (parse_records fuel payload total off)
unfolding parse_records u32_at
parse_records-IsCalm zero payload total off h fit start = tt
parse_records-IsCalm (suc fuel) payload total off h fit start =
    if-IsCalm (not (ltb off total)) _ _ (λ _. tt)
      (λ _.
        if-IsCalm (ltb total (off + 32)) _ _ (λ _. tt)
          (λ e.
            let (size, read) = number_at-some 4 payload off (ground arith) in
            rw read (
              bind-IsCalm (record_at payload total off size) _
                (record_at-IsCalm payload total off size h fit start read)
                (λ ev.
                  bind-IsCalm (parse_records fuel payload total (off + size)) _
                    (parse_records-IsCalm fuel payload total (off + size) h fit
                      (next off size start read))
                    (λ _. tt)))))

-- `parse_batch` returns events or an error, and does not panic, on every payload whose
-- `RemoteThreadCreate` records have 48 bytes or more.
pub parse_batch-IsCalm : (payload : List ℕ) → ThreadsFit payload → IsCalm (parse_batch payload)
unfolding parse_batch parse_frame u16_at u32_at
parse_batch-IsCalm payload fit =
    if-IsCalm (ltb (length payload) 8) _ _ (λ _. tt)
      (λ e.
        bind-IsCalm (number_at 4 payload 0) _ (number_at-IsCalm 4 payload 0 (ground arith))
          (λ total.
            bind-IsCalm (number_at 2 payload 4) _ (number_at-IsCalm 2 payload 4 (ground arith))
              (λ version.
                bind-IsCalm (number_at 2 payload 6) _ (number_at-IsCalm 2 payload 6 (ground arith))
                  (λ _.
                    if-IsCalm (not (version == 2)) _ _ (λ _. tt)
                      (λ _.
                        if-IsCalm (ltb total 8 || ltb (length payload) total) _ _ (λ _. tt)
                          (λ e'.
                            parse_records-IsCalm total payload total 8 (ground arith) fit
                              first))))))
