-- ===== src/Service/Counts.antt =====
-- What `process_batch` of endpoint_service/src/lib.rs counts and returns.
use correlation_engine.Prelude.{
  ℕ, ◌+◌, ◌≡◌, refl, sym, ap, ◌∙◌, Bool, true, false, ◌||◌, Option, none, some, List, [], ◌∷◌, ◌++◌,
  if◌then◌else◌, arith,
}
use mathlib.Core.Path.{subst}
use correlation_engine.Prelude.Lists.{length, length-append}
use correlation_engine.Translate.{EdrEvent, to_engine_event}
use correlation_engine.Sensor.{SensorEvent, parse_batch}
use correlation_engine.Sensor.Outcomes.{ok}
use correlation_engine.Service.{
  EventOutcome, BatchOutcome, Pipeline, Service, is_deny, one_if, to_list, ingest_all, handle,
  process_event, process_events, process_batch, no_outcome, with_arms,
}

-- the outcomes that deny
pub denied_of : List EventOutcome → ℕ
denied_of [] = 0
denied_of (o ∷ os) = one_if o.denied + denied_of os

pub any_denied : List EventOutcome → Bool
any_denied [] = false
any_denied (o ∷ os) = o.denied || any_denied os

denied_of-append :
    (os : List EventOutcome) (o : EventOutcome)
    → denied_of (os ++ o ∷ []) ≡ denied_of os + one_if o.denied
unfolding denied_of
denied_of-append [] o = omega arith
denied_of-append (p ∷ os) o = omega (arith, denied_of-append os o)

any_denied-append :
    (os : List EventOutcome) (o : EventOutcome)
    → any_denied (os ++ o ∷ []) ≡ (o.denied || any_denied os)
unfolding any_denied
any_denied-append [] o = refl
any_denied-append (p ∷ os) o = ground (arith, any_denied-append os o)

module _ {E B Chain Message V : Type 0} (pipe : Pipeline E B Chain Message V) where
  -- What stands between two events of a batch, `n` of which have been handled since `s0`.
  pub record IsCounted (s0 : Service E B) (n : ℕ) (s : Service E B)
      (out : BatchOutcome Chain Message) : Type 0 where
    pub each : length out.outcomes + out.state_only ≡ n
    pub seen : s.events_seen ≡ s0.events_seen + length out.outcomes
    pub refused : s.denies ≡ s0.denies + denied_of out.outcomes
    pub batch : out.deny_batch ≡ any_denied out.outcomes
    pub mode : s.remote ≡ s0.remote
    pub remote_only : s0.remote ≡ true → (s.backend ≡ s0.backend) × (out.chains ≡ [])
    pub local_only : s0.remote ≡ false → out.wire ≡ []

  -- with a backend service attached, the backend of the process and the chains stay as they are
  handle_remote :
      (ev : EdrEvent) (s : Service E B) (out : BatchOutcome Chain Message)
      → s.remote ≡ true
      → ((handle pipe ev s out).0.backend ≡ s.backend)
        × (out.chains ≡ [] → (handle pipe ev s out).1.chains ≡ [])
  unfolding handle
  handle_remote ev s out e =
      let local =
        ingest_all pipe (pipe.drain_outbox (pipe.on_event ev s.endpoint).2).0 none s.backend in
      (
        ap (λ (b : Bool). (if b then (none, s.backend) else local).1) e,
        λ c.
            no_chain (is_deny (pipe.on_event ev s.endpoint).0) out.chains
              (if s.remote then (none, s.backend) else local).0 c
              (ap (λ (b : Bool). (if b then (none, s.backend) else local).0) e),
      )
    where
      no_chain :
          (b : Bool) (chains : List Chain) (chain : Option Chain)
          → chains ≡ []
          → chain ≡ none
          → (if b then chains ++ to_list chain else chains) ≡ []
      no_chain true chains chain p q = rw (p, q)
      no_chain false chains chain p q = p

  handle_local :
      (ev : EdrEvent) (s : Service E B) (out : BatchOutcome Chain Message)
      → s.remote ≡ false
      → (handle pipe ev s out).1.wire ≡ out.wire
  unfolding handle
  handle_local ev s out e =
      let messages = (pipe.drain_outbox (pipe.on_event ev s.endpoint).2).0 in
      ap (λ (b : Bool). if b then out.wire ++ messages else out.wire) e

  process_event-IsCounted :
      (s0 : Service E B) (n : ℕ) (s : Service E B) (out : BatchOutcome Chain Message)
      (oe : Option EdrEvent)
      → IsCounted s0 n s out
      → (let r = process_event pipe oe s out in IsCounted s0 (n + 1) r.0 r.1)
  unfolding handle
  process_event-IsCounted s0 n s out none h = record {
    each = omega (arith, h.each);
    seen = h.seen;
    refused = h.refused;
    batch = h.batch;
    mode = h.mode;
    remote_only = h.remote_only;
    local_only = h.local_only;
  }
  process_event-IsCounted s0 n s out (some ev) h =
      let o : EventOutcome = record {
        denied = is_deny (pipe.on_event ev s.endpoint).0;
        advanced = pipe.has_advanced (pipe.on_event ev s.endpoint).1;
        completed = pipe.has_completed (pipe.on_event ev s.endpoint).1;
      } in
      record {
        each = omega (arith, h.each, length-append out.outcomes (o ∷ []));
        seen = omega (arith, h.seen, length-append out.outcomes (o ∷ []));
        refused = omega (arith, h.refused, denied_of-append out.outcomes o);
        batch = ap (λ (b : Bool). o.denied || b) h.batch ∙ sym (any_denied-append out.outcomes o);
        mode = h.mode;
        remote_only = λ e.
            let (same, none_yet) = h.remote_only e in
            let r = handle_remote ev s out (h.mode ∙ e) in (r.0 ∙ same, r.1 none_yet);
        local_only = λ e. handle_local ev s out (h.mode ∙ e) ∙ h.local_only e;
      }

  process_events-IsCounted :
      (s0 : Service E B) (n : ℕ) (ses : List SensorEvent) (s : Service E B)
      (out : BatchOutcome Chain Message)
      → IsCounted s0 n s out
      → (let r = process_events pipe ses s out in IsCounted s0 (n + length ses) r.0 r.1)
  unfolding process_events
  process_events-IsCounted s0 n [] s out h = subst (λ (k : ℕ). IsCounted s0 k s out) (omega arith) h
  process_events-IsCounted s0 n (se ∷ ses) s out h =
      let r = process_event pipe (to_engine_event se) s out in
      subst
        (λ (k : ℕ).
          IsCounted s0 k (process_events pipe ses r.0 r.1).0 (process_events pipe ses r.0 r.1).1)
        (omega arith)
        (process_events-IsCounted s0 (n + 1) ses r.0 r.1
          (process_event-IsCounted s0 n s out (to_engine_event se) h))

  -- On a batch that is parsed, the outcomes and the records counted as state only are together as many as
  -- the events; the service's counters grow by the outcomes and by those that deny; the batch is denied
  -- exactly when an outcome is. With a remote backend the backend of the process is left alone and no
  -- chain is returned; without one no message is.
  pub process_batch-IsCounted :
      (payload : List ℕ) (ses : List SensorEvent) (s : Service E B)
      → parse_batch payload ≡ ok ses
      → (s' : Service E B) × (out : BatchOutcome Chain Message) × (process_batch pipe payload s
          ≡ ok (s', out))
        × IsCounted s (length ses) s' out
  unfolding process_batch
  process_batch-IsCounted payload ses s parsed =
      let r = process_events pipe ses s (no_outcome pipe) in
      let start : IsCounted s 0 s (no_outcome pipe) = record {
        each = omega arith;
        seen = omega arith;
        refused = unfold denied_of in omega arith;
        batch = unfold any_denied in refl;
        mode = refl;
        remote_only = λ e. (refl, refl);
        local_only = λ e. refl;
      } in
      let c = process_events-IsCounted s 0 ses s (no_outcome pipe) start in
      let end = with_arms pipe r in
      (
        end.0,
        end.1,
        rw parsed,
        record {
          each = c.each ∙ omega arith;
          seen = c.seen;
          refused = c.refused;
          batch = c.batch;
          mode = c.mode;
          remote_only = c.remote_only;
          local_only = c.local_only;
        },
      )
