-- ===== src/Ffi/Total.antt =====
-- The C interface of engine_core/src/ffi.rs does not panic, and its numbers name operations one to one.
use correlation_engine.Prelude.{
  ℕ, ◌+◌, ◌*◌, ◌^◌, ◌<◌, ◌⊎◌, sym, ◌∙◌, pair_inj, ==_iff, Option-cases, ◌≡◌, ◌↔◌, refl, not, ◌&&◌,
  Option, none, some, List, ◌==◌, arith, Bool-cases, some_inj, inl, inr,
}
use mathlib.Core.Path.{subst}
use correlation_engine.Prelude.Bits.{bit_or_add}
use correlation_engine.Event.{Op, Kind, Ttp, Event, op_index}
use correlation_engine.Rules.{DagRuleSet}
use correlation_engine.Detector.{Verdict, rank}
use correlation_engine.Dag.{Engine, try_new, on_event}
use correlation_engine.Dag.Total.{IsSound, new-IsSound, on_event_total}
use correlation_engine.Wire.{decode_dag}
use correlation_engine.Wire.Primitives.{Result, ok, err}
use correlation_engine.Ffi.{
  CEvent, make_key, kind_from_index, op_from_index, to_event, engine_of, elements, is_null,
  engine_create, handle_event, engine_on_event,
}

-- `op_from_index` returns an operation exactly for the index of this operation's bit.
pub op_from_index_iff : (i : ℕ) (op : Op) → (op_from_index i ≡ some op) ↔ (i ≡ op_index op)
unfolding op_from_index op_index
op_from_index_iff i Op.exec = (λ e. ground arith, λ e. ground arith)
op_from_index_iff i Op.create = (λ e. ground arith, λ e. ground arith)
op_from_index_iff i Op.write = (λ e. ground arith, λ e. ground arith)
op_from_index_iff i Op.read = (λ e. ground arith, λ e. ground arith)
op_from_index_iff i Op.open_op = (λ e. ground arith, λ e. ground arith)
op_from_index_iff i Op.connect = (λ e. ground arith, λ e. ground arith)
op_from_index_iff i Op.inject = (λ e. ground arith, λ e. ground arith)
op_from_index_iff i Op.dup = (λ e. ground arith, λ e. ground arith)

engine_of-IsSound : (r : Result DagRuleSet) (g : Engine) → engine_of r ≡ some g → IsSound g
unfolding try_new
engine_of-IsSound (ok rules) g e = subst IsSound (some_inj e) (new-IsSound rules)
engine_of-IsSound (err x) g e = cc

-- An engine that `engine_create` returns is sound, whatever the bytes.
pub engine_create-IsSound :
    (rules : Option (List ℕ)) (len : ℕ) (g : Engine) → engine_create rules len ≡ some g → IsSound g
unfolding engine_create
engine_create-IsSound rules len g run = elim (Bool-cases (is_null rules && not (len == 0))) [
  | inl bad ↦ absurd (cc (rw bad at run))
  | inr fine ↦ engine_of-IsSound (decode_dag (elements rules len)) g (rw fine at run)
]

-- the handles that `engine_create` returns, the null pointer among them, and that calls have advanced
pub data Handle : Option Engine → Type 0 where
  created : (rules : Option (List ℕ)) (len : ℕ) → Handle (engine_create rules len)
  called :
      {h h' : Option Engine} (ev : Option CEvent) (ttps : Option (List ℕ)) (len code : ℕ)
      → Handle h
      → engine_on_event h ev ttps len ≡ some (code, h')
      → Handle h'

-- the halves of the keys are of 64 bits
abbrev pub IsOfWords : Option CEvent → Type 0
IsOfWords none = Unit
IsOfWords (some c) = (c.actor_lo < 2 ^ 64) × (c.object_lo < 2 ^ 64)

abbrev pub IsKind : ℕ → Kind → Type 0
IsKind i Kind.process = i ≡ 0
IsKind i Kind.file = i ≡ 1
IsKind i Kind.socket = i ≡ 2
IsKind i Kind.other = 2 < i

-- the event that a `CEvent` stands for
pub record IsEventOf (c : CEvent) (e : Event) : Type 0 where
  pub ts : e.ts ≡ c.ts
  pub op : c.op ≡ op_index e.op
  pub actor : e.actor ≡ c.actor_hi * 2 ^ 64 + c.actor_lo
  pub object : e.object ≡ c.object_hi * 2 ^ 64 + c.object_lo
  pub actor_kind : IsKind c.actor_kind e.actor_kind
  pub object_kind : IsKind c.object_kind e.object_kind

-- the numbers of `EngineVerdict`
abbrev pub IsCode : ℕ → Verdict → Type 0
IsCode i Verdict.ignore = i ≡ 0
IsCode i Verdict.inspect = i ≡ 1
IsCode i Verdict.block = i ≡ 2
IsCode i Verdict.disarm = i ≡ 3

-- What a call on the handle `h` has done when it returns `code` and leaves `h'`.
pub data Answer (h : Option Engine) (ev : Option CEvent) (ttps : List Ttp) (code : ℕ)
    (h' : Option Engine) : Type 0 where
  ignored :
      (h ≡ none) ⊎ (ev ≡ none) ⊎ ((c : CEvent) × (ev ≡ some c) × (7 < c.op))
      → code ≡ 0
      → h' ≡ h
      → Answer h ev ttps code h'
  passed :
      (g g' : Engine) (c : CEvent) (e : Event) (v : Verdict)
      → h ≡ some g
      → ev ≡ some c
      → IsEventOf c e
      → on_event (record { event = e; ttps = ttps }) g ≡ some (v, g')
      → IsCode code v
      → h' ≡ some g'
      → Answer h ev ttps code h'

rank-IsCode : (v : Verdict) → IsCode (rank v) v
unfolding rank
rank-IsCode Verdict.ignore = refl
rank-IsCode Verdict.inspect = refl
rank-IsCode Verdict.block = refl
rank-IsCode Verdict.disarm = refl

kind_from_index-IsKind : (i : ℕ) → IsKind i (kind_from_index i)
unfolding kind_from_index
kind_from_index-IsKind i = elim (Bool-cases (i == 0)) [
  | inl p ↦ rw p ((==_iff i 0).0 p)
  | inr np ↦ elim (Bool-cases (i == 1)) [
    | inl f ↦ rw (np, f) ((==_iff i 1).0 f)
    | inr nf ↦ elim (Bool-cases (i == 2)) [
      | inl s ↦ rw (np, nf, s) ((==_iff i 2).0 s)
      | inr ns ↦ rw (np, nf, ns) (ground arith)
    ]
  ]
]

make_key_lem : (lo hi : ℕ) → lo < 2 ^ 64 → make_key lo hi ≡ hi * 2 ^ 64 + lo
unfolding make_key
make_key_lem lo hi p = bit_or_add 64 hi lo p

no_operation : (i : ℕ) → op_from_index i ≡ none → 7 < i
unfolding op_from_index
no_operation i h = ground arith

-- an event for which the operation is known
IsRead : CEvent → Option Event → Type 0
IsRead c none = 7 < c.op
IsRead c (some e) = IsEventOf c e

to_event-IsRead : (c : CEvent) → c.actor_lo < 2 ^ 64 → c.object_lo < 2 ^ 64 → IsRead c (to_event c)
unfolding to_event IsRead
to_event-IsRead c p q = elim (Option-cases (op_from_index c.op)) [
  | inl unknown ↦ rw unknown (no_operation c.op unknown)
  | inr (op, known) ↦ rw known (record {
    ts = refl;
    op = (op_from_index_iff c.op op).0 known;
    actor = make_key_lem c.actor_lo c.actor_hi p;
    object = make_key_lem c.object_lo c.object_hi q;
    actor_kind = kind_from_index-IsKind c.actor_kind;
    object_kind = kind_from_index-IsKind c.object_kind;
  })
]

-- Every engine behind a handle is sound.
IsSoundHandle : Option Engine → Type 0
IsSoundHandle none = Unit
IsSoundHandle (some g) = IsSound g

on_event_handled :
    (h : Option Engine) (ev : Option CEvent) (ttps : Option (List ℕ)) (len : ℕ)
    → IsSoundHandle h
    → (code : ℕ) × (h' : Option Engine) × (engine_on_event h ev ttps len ≡ some (code, h'))
      × IsSoundHandle h'
unfolding engine_on_event handle_event IsSoundHandle
on_event_handled none ev ttps len s = (0, none, refl, tt)
on_event_handled (some g) none ttps len s = (0, some g, refl, s)
on_event_handled (some g) (some c) ttps len s = elim (Option-cases (to_event c)) [
  | inl unknown ↦ (0, some g, rw unknown refl, s)
  | inr (e, known) ↦
      let (v, g', answered) = on_event_total (record { event = e; ttps = elements ttps len }) g s in
      (rank v, some g', rw known (rw answered.returned refl), answered.sound)
]

Handle-IsSound : (h : Option Engine) → Handle h → IsSoundHandle h
unfolding IsSoundHandle
Handle-IsSound _ (created rules len) = elim (Option-cases (engine_create rules len)) [
  | inl refused ↦ rw refused tt
  | inr (g, made) ↦ rw made (engine_create-IsSound rules len g made)
]
Handle-IsSound _ (called {h = h} {h' = h'} ev ttps len code before run) =
    let (code', after, run', sound) = on_event_handled h ev ttps len (Handle-IsSound h before) in
    subst IsSoundHandle (pair_inj (some_inj (sym run' ∙ run))).1 sound

on_event-Answer :
    (h h' : Option Engine) (ev : Option CEvent) (ttps : Option (List ℕ)) (len code : ℕ)
    → IsOfWords ev
    → IsSoundHandle h
    → engine_on_event h ev ttps len ≡ some (code, h')
    → Answer h ev (elements ttps len) code h'
unfolding engine_on_event handle_event IsSoundHandle IsRead
on_event-Answer none h' ev ttps len code w s run =
    let (code_is, same) = pair_inj (some_inj run) in ignored (inl refl) (sym code_is) (sym same)
on_event-Answer (some g) h' none ttps len code w s run =
    let (code_is, same) = pair_inj (some_inj run) in
    ignored (inr (inl refl)) (sym code_is) (sym same)
on_event-Answer (some g) h' (some c) ttps len code w s run = elim (Option-cases (to_event c)) [
  | inl unknown ↦
      let (code_is, same) = pair_inj (some_inj (rw unknown at run)) in
      ignored (inr (inr (c, refl, subst (IsRead c) unknown (to_event-IsRead c w.0 w.1))))
        (sym code_is) (sym same)
  | inr (e, known) ↦
      let (v, g', answered) = on_event_total (record { event = e; ttps = elements ttps len }) g s in
      let done = rw answered.returned at (rw known at run) in
      let (code_is, same) = pair_inj (some_inj done) in
      passed g g' c e v refl refl (subst (IsRead c) known (to_event-IsRead c w.0 w.1))
        answered.returned (subst (λ (i : ℕ). IsCode i v) code_is (rank-IsCode v)) (sym same)
]

-- On a handle that `engine_create` returned and any number of calls have advanced, `engine_on_event` does
-- not panic. A null handle or event and an operation above 7 give the code 0 and change nothing; any other
-- event, with keys of two 64-bit halves, is passed to the engine with its time, operation, keys and kinds,
-- and the code is the number of the engine's verdict: 0 ignore, 1 inspect, 2 block, 3 disarm.
pub engine_on_event_total :
    (h : Option Engine) (ev : Option CEvent) (ttps : Option (List ℕ)) (len : ℕ)
    → Handle h
    → IsOfWords ev
    → (code : ℕ) × (h' : Option Engine) × (engine_on_event h ev ttps len ≡ some (code, h'))
      × Answer h ev (elements ttps len) code h'
engine_on_event_total h ev ttps len handle w =
    let (code, h', run, sound) = on_event_handled h ev ttps len (Handle-IsSound h handle) in
    (code, h', run, on_event-Answer h h' ev ttps len code w (Handle-IsSound h handle) run)
