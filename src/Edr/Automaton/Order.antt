-- ===== src/Edr/Automaton/Order.antt =====
-- The order in which the automata of a storyline complete the steps of their patterns, through `try_commit`
-- and `merge` of v1/engine/src/lib.rs.
use correlation_engine.Prelude.{
  ℕ, ◌%◌, ◌≡◌, refl, sym, ◌∙◌, true, some, List, [], ◌∷◌, ◌==◌, ==_iff, arith, Bool-cases,
  Option-cases, inl, inr,
}
use correlation_engine.Prelude.Bits.{
  testb, testb-zero, testb-bit_or, Subset, Subset-bit_or_left, Subset-bit_or_right,
}
use correlation_engine.Prelude.Lists.{get_elem?}
use correlation_engine.Prelude.Maps.{Map, get, insert, get-insert}
use correlation_engine.Edr.Automaton.{
  Named, value_named, assign, Step, Scope, Automaton, Nodes, new, try_commit, earlier, merge_ts,
  take_over, taken_in, merge_automata, as_armed,
}
use correlation_engine.Edr.Automaton.Tables.{AllNamed, assign-AllNamed, value_named-AllNamed}
use correlation_engine.Edr.Automaton.Commit.{IsCommitted, try_commit-IsCommitted}

-- The automata that a storyline can hold, by the ids of their patterns, whose steps are `steps_of`.
pub data Grown (steps_of : List ℕ → List Step) : Named Automaton → Type 0 where
  no_automata : Grown steps_of []
  seeds :
      {m : Named Automaton} (pid : List ℕ) (pattern_idx : ℕ)
      → Grown steps_of m
      → Grown steps_of (assign pid (new pattern_idx) m)
  commits :
      {m : Named Automaton} (pid : List ℕ) (a a' : Automaton) (n : ℕ) (step : Step) (scope : Scope)
      (ts : ℕ) (e : Nodes)
      → Grown steps_of m
      → value_named pid m ≡ some a
      → get_elem? (steps_of pid) n ≡ some step
      → try_commit step scope ts e a ≡ some a'
      → Grown steps_of (assign pid a' m)
  arms :
      {m : Named Automaton} (pid : List ℕ) (a : Automaton)
      → Grown steps_of m
      → value_named pid m ≡ some a
      → Grown steps_of (assign pid (as_armed a) m)
  merges :
      {child root : Named Automaton}
      → Grown steps_of child
      → Grown steps_of root
      → Grown steps_of (merge_automata child root)

-- a step with the bit `i`, its prerequisites complete and its time known
pub record IsTaken (steps : List Step) (a : Automaton) (i : ℕ) : Type 0 where
  pub n : ℕ
  pub step : Step
  pub of_pattern : get_elem? steps n ≡ some step
  pub at_bit : step.bit % 64 ≡ i
  pub ready : Subset step.prereq_mask a.completed_mask
  pub time : ℕ
  pub stamped : get step.bit a.step_ts ≡ some time

-- every completed step of the automaton is taken
abbrev IsOrdered : List Step → Automaton → Type 0
IsOrdered steps a = (i : ℕ) → testb i a.completed_mask ≡ true → IsTaken steps a i

growing :
    (step : Step) (scope : Scope) (ts : ℕ) (e : Nodes) (a a' : Automaton)
    → IsCommitted step scope ts e a a'
    → Subset a.completed_mask a'.completed_mask
growing step scope ts e a a' c i h = ground (arith, c.completed i)

-- no stamp is lost
abbrev Stamps : Map ℕ → Map ℕ → Type 0
Stamps m m' = (bit t : ℕ) → get bit m ≡ some t → (t' : ℕ) × (get bit m' ≡ some t')

carried_over :
    (steps : List Step) (a a' : Automaton) (i : ℕ)
    → Subset a.completed_mask a'.completed_mask
    → Stamps a.step_ts a'.step_ts
    → IsTaken steps a i
    → IsTaken steps a' i
carried_over steps a a' i more stamps t =
    let (time, stamped) = stamps t.step.bit t.time t.stamped in
    record {
      n = t.n;
      step = t.step;
      of_pattern = t.of_pattern;
      at_bit = t.at_bit;
      ready = λ j p. more j (t.ready j p);
      time = time;
      stamped = stamped;
    }

insert-Stamps : (bit v : ℕ) (m : Map ℕ) → Stamps m (insert bit v m)
insert-Stamps bit v m b t h = elim (Bool-cases (bit == b)) [
  | inl same ↦ (v, get-insert bit b v m ∙ rw same refl)
  | inr other ↦ (t, get-insert bit b v m ∙ rw other h)
]

merge_ts-root : (c m : Map ℕ) → Stamps m (merge_ts c m)
unfolding merge_ts
merge_ts-root [] m b t h = (t, h)
merge_ts-root ((bit, ts) ∷ c) m b t h =
    let (t1, h1) = insert-Stamps bit (earlier ts (get bit m)) m b t h in
    merge_ts-root c (insert bit (earlier ts (get bit m)) m) b t1 h1

merge_ts-child : (c m : Map ℕ) → Stamps c (merge_ts c m)
unfolding merge_ts get
merge_ts-child [] m b t h = absurd cc
merge_ts-child ((bit, ts) ∷ c) m b t h =
    let m1 = insert bit (earlier ts (get bit m)) m in
    elim (Bool-cases (b == bit)) [
      | inr other ↦ merge_ts-child c m1 b t (rw other at h)
      | inl same ↦
          let self : get b m1 ≡ some (earlier ts (get bit m)) =
            ground (arith, get-insert bit b (earlier ts (get bit m)) m) in
          merge_ts-root c m1 b (earlier ts (get bit m)) self
    ]

take_over-IsOrdered :
    (steps : List Step) (a b : Automaton)
    → IsOrdered steps a
    → IsOrdered steps b
    → IsOrdered steps (take_over a b)
unfolding take_over
take_over-IsOrdered steps a b p q i h = elim (Bool-cases (testb i a.completed_mask)) [
  | inl left ↦
      carried_over steps a (take_over a b) i (Subset-bit_or_left a.completed_mask b.completed_mask)
        (merge_ts-root b.step_ts a.step_ts) (p i left)
  | inr right ↦
      carried_over steps b (take_over a b) i (Subset-bit_or_right a.completed_mask b.completed_mask)
        (merge_ts-child b.step_ts a.step_ts)
        (q i (ground (arith, testb-bit_or i a.completed_mask b.completed_mask)))
]

commit-IsOrdered :
    (steps : List Step) (n : ℕ) (step : Step) (scope : Scope) (ts : ℕ) (e : Nodes)
    (a a' : Automaton)
    → get_elem? steps n ≡ some step
    → IsCommitted step scope ts e a a'
    → IsOrdered steps a
    → IsOrdered steps a'
commit-IsOrdered steps n step scope ts e a a' member c before i h =
    let more = growing step scope ts e a a' c in
    elim (Bool-cases (step.bit % 64 == i)) [
      | inl same ↦ record {
        n = n;
        step = step;
        of_pattern = member;
        at_bit = (==_iff (step.bit % 64) i).0 same;
        ready = λ j p. more j (c.ready j p);
        time = ts;
        stamped = c.stamped step.bit ∙ ground arith;
      }
      | inr other ↦
          carried_over steps a a' i more restamped (before i (ground (arith, c.completed i)))
    ]
  where
    restamped : Stamps a.step_ts a'.step_ts
    restamped bit t p = elim (Bool-cases (step.bit == bit)) [
      | inl same ↦ (ts, c.stamped bit ∙ rw same refl)
      | inr other ↦ (t, c.stamped bit ∙ rw other p)
    ]

merge-AllNamed :
    (steps_of : List ℕ → List Step) (c m : Named Automaton)
    → AllNamed (λ pid a. IsOrdered (steps_of pid) a) c
    → AllNamed (λ pid a. IsOrdered (steps_of pid) a) m
    → AllNamed (λ pid a. IsOrdered (steps_of pid) a) (merge_automata c m)
unfolding merge_automata
merge-AllNamed steps_of [] m p q = q
merge-AllNamed steps_of ((pid, a) ∷ c) m (x, p) q =
    let P = λ (k : List ℕ) (b : Automaton). IsOrdered (steps_of k) b in
    let joined : IsOrdered (steps_of pid) (taken_in (value_named pid m) a) =
      elim (Option-cases (value_named pid m)) [
        | inl absent ↦ rw absent x
        | inr (b, there) ↦
            rw there
              (take_over-IsOrdered (steps_of pid) b a (value_named-AllNamed P pid b m q there) x)
      ] in
    merge-AllNamed steps_of c (assign pid (taken_in (value_named pid m) a) m) p
      (assign-AllNamed P pid (taken_in (value_named pid m) a) m joined q)

Grown-AllNamed :
    (steps_of : List ℕ → List Step) (m : Named Automaton)
    → Grown steps_of m
    → AllNamed (λ pid a. IsOrdered (steps_of pid) a) m
Grown-AllNamed steps_of _ no_automata = tt
Grown-AllNamed steps_of _ (seeds {m = m} pid idx g) =
    assign-AllNamed (λ k b. IsOrdered (steps_of k) b) pid (new idx) m
      (λ i h. absurd (cc (sym (testb-zero i) ∙ h))) (Grown-AllNamed steps_of m g)
Grown-AllNamed steps_of _ (commits {m = m} pid a a' n step scope ts e g there member went) =
    let P = λ (k : List ℕ) (b : Automaton). IsOrdered (steps_of k) b in
    let old = Grown-AllNamed steps_of m g in
    assign-AllNamed P pid a' m
      (commit-IsOrdered (steps_of pid) n step scope ts e a a' member
        (try_commit-IsCommitted step scope ts e a a' went)
        (value_named-AllNamed P pid a m old there))
      old
Grown-AllNamed steps_of _ (arms {m = m} pid a g there) =
    let P = λ (k : List ℕ) (b : Automaton). IsOrdered (steps_of k) b in
    let old = Grown-AllNamed steps_of m g in
    assign-AllNamed P pid (as_armed a) m
      (λ i h.
        carried_over (steps_of pid) a (as_armed a) i (λ j p. p) (λ b t p. (t, p))
          (value_named-AllNamed P pid a m old there i h))
      old
Grown-AllNamed steps_of _ (merges {child = c} {root = m} g h) =
    merge-AllNamed steps_of c m (Grown-AllNamed steps_of c g) (Grown-AllNamed steps_of m h)

-- In the automata of a storyline, however they were seeded, committed steps, were armed and were merged,
-- every step that an automaton has completed is one of its pattern, has a time, and all its prerequisites
-- are completed too.
pub Grown-IsTaken :
    (steps_of : List ℕ → List Step) (m : Named Automaton) (pid : List ℕ) (a : Automaton) (i : ℕ)
    → Grown steps_of m
    → value_named pid m ≡ some a
    → testb i a.completed_mask ≡ true
    → IsTaken (steps_of pid) a i
Grown-IsTaken steps_of m pid a i g there h =
    value_named-AllNamed (λ k b. IsOrdered (steps_of k) b) pid a m (Grown-AllNamed steps_of m g)
      there i h
