-- ===== src/Bounded.antt =====
-- engine_core/src/v0_0_2_bounded.rs: the DAG engine on tables of fixed size, for the kernel. At a cap it
-- gives up and lets the event pass. The arrays of a table are one list of slots, `none` an unused one;
-- the arrays of a storyline are the lists of their used parts.
pub mod Table
pub mod Taken
pub mod Kept
use correlation_engine.Prelude.{
  ℕ, zero, suc, ◌+◌, ◌%◌, ◌^◌, Bool, true, false, not, ◌&&◌, ◌||◌, Option, none, some, List, [],
  ◌∷◌, ◌++◌, max, bit_and, bit_or, ltb, leb, ◌==◌, if◌then◌else◌, map,
}
use correlation_engine.Prelude.Lists.{length, get_elem?, set, replicate}
use correlation_engine.Event.{Key, Op, Ttp, op_bit}
use correlation_engine.Event.OpSet.{OpSet}
use correlation_engine.Rules.{Action, DagStep, DagPattern, DagRuleSet, bit_mask}
use correlation_engine.Detector.{Verdict, Tagged, max_verdict}
use correlation_engine.Dag.{step_matches, is_ready}
use Table.{Slots, probe, value_at}

abbrev pub cap_ent : ℕ
cap_ent = 4096

abbrev pub cap_lines : ℕ
cap_lines = 256

abbrev pub cap_members : ℕ
cap_members = 24

abbrev pub cap_auto : ℕ
cap_auto = 24

abbrev pub cap_dis : ℕ
cap_dis = 1024

abbrev pub no_line : ℕ
no_line = 0xffff

-- `members` are slots of `ent`; an automaton is its pattern and its mask.
pub record Line : Type 0 where
  pub used : Bool
  pub members : List ℕ
  pub autos : List (ℕ × ℕ)
  pub last_activity : ℕ

pub record State : Type 0 where
  pub ent : Slots ℕ
  pub lines : List Line
  pub dis : Slots OpSet

pub record Engine : Type 0 where
  pub rules : DagRuleSet
  pub state : State

-- the result of an operation: it may meet a cap, or an index out of range
pub data Attempt {ℓ} (A : Type ℓ) : Type ℓ where
  done : A → Attempt A
  full : Attempt A
  panic : Attempt A

infixl 5 ◌>>=◌
abbrev pub ◌>>=◌ {ℓ κ} : {A : Type ℓ} {B : Type κ} → Attempt A → (A → Attempt B) → Attempt B
done a >>= f = f a
full >>= f = full
panic >>= f = panic

abbrev pub line_at : ℕ → State → Attempt Line
line_at i s = elim (get_elem? s.lines i) [ none ↦ panic | some l ↦ done l ]

abbrev pub put_line : ℕ → Line → State → State
put_line i l s = record s { lines = set s.lines i l }

abbrev empty_line : Line
empty_line = record { used = false; members = []; autos = []; last_activity = 0 }

-- `allocated` is the answer of the allocator
unfoldable pub try_new : Bool → DagRuleSet → Option Engine
try_new allocated rules =
    if not allocated
    then none
    else some (record {
      rules = rules;
      state = record {
        ent = replicate cap_ent none;
        lines = replicate cap_lines empty_line;
        dis = replicate cap_dis none;
      };
    })

-- the first line that is not in use, from `i` on
unfoldable pub free_line : ℕ → List Line → Option ℕ
free_line i [] = none
free_line i (l ∷ ls) = if not l.used then some i else free_line (i + 1) ls

unfoldable pub alloc_line : State → Attempt (ℕ × State)
alloc_line s = elim (free_line 0 s.lines) [
  | none ↦ full
  | some i ↦ done (i, put_line i (record empty_line { used = true }) s)
]

unfoldable pub find_line : State → Key → ℕ
find_line s key = elim (probe cap_ent key s.ent) [
  | none ↦ no_line
  | some i ↦ elim (value_at i s.ent) [ none ↦ no_line | some line ↦ line ]
]

-- a new entity in slot `i`, alone in a new line
unfoldable pub new_entity : ℕ → Key → State → Attempt (ℕ × State)
new_entity i key s = do
  (line, s1) ← alloc_line s
  l ← line_at line s1
  done (
    line,
    put_line line (record l { members = i ∷ [] })
        (record s1 { ent = set s1.ent i (some (key, line)) }),
  )

unfoldable pub resolve_line : Key → State → Attempt (ℕ × State)
resolve_line key s = elim (probe cap_ent key s.ent) [
  | none ↦ full
  | some i ↦ elim (value_at i s.ent) [ none ↦ new_entity i key s | some line ↦ done (line, s) ]
]

-- `s.ent_line[i] = dst`
abbrev pub relabel_slot : ℕ → ℕ → Slots ℕ → Slots ℕ
relabel_slot dst i ent = elim (get_elem? ent i) [
  | none ↦ ent
  | some none ↦ ent
  | some (some (key, line)) ↦ set ent i (some (key, dst))
]

unfoldable pub relabel_slots : List ℕ → ℕ → Slots ℕ → Slots ℕ
relabel_slots [] dst ent = ent
relabel_slots (i ∷ is') dst ent = relabel_slots is' dst (relabel_slot dst i ent)

-- the lines stay apart when one of the caps does not allow their union
unfoldable pub move_line : ℕ → ℕ → Line → Line → State → State
move_line dst src d l s =
    if ltb cap_members (length d.members + length l.members)
      || ltb cap_auto (length d.autos + length l.autos)
    then s
    else put_line src (record l { used = false; members = []; autos = [] })
        (put_line dst
          (record d {
            members = d.members ++ l.members;
            autos = d.autos ++ l.autos;
            last_activity = max d.last_activity l.last_activity;
          })
          (record s { ent = relabel_slots l.members dst s.ent }))

unfoldable pub merge : ℕ → ℕ → State → Attempt State
merge x y s = do
  lx ← line_at x s
  ly ← line_at y s
  done (
      if leb (length ly.members) (length lx.members)
      then move_line x y lx ly s
      else move_line y x ly lx s)

unfoldable pub unify : Key → Key → State → Attempt (ℕ × State)
unify a o s = do
  (sa, s1) ← resolve_line a s
  (so, s2) ← resolve_line o s1
  s3 ← (if sa == so then done s2 else merge sa so s2)
  done (find_line s3 a, s3)

unfoldable pub dis_check : Slots OpSet → Key → Op → Bool
dis_check dis actor op = elim (probe cap_dis actor dis) [
  | none ↦ false
  | some i ↦ elim (value_at i dis) [ none ↦ false | some ops ↦ not (bit_and ops (op_bit op) == 0) ]
]

unfoldable pub dis_insert : Key → OpSet → Slots OpSet → Slots OpSet
dis_insert actor ops dis = elim (probe cap_dis actor dis) [
  | none ↦ dis
  | some i ↦ elim (value_at i dis) [
    | none ↦ set dis i (some (actor, ops))
    | some held ↦ set dis i (some (actor, bit_or held ops))
  ]
]

unfoldable pub apply_action : Option Action → Key → Slots OpSet → Verdict × Slots OpSet
apply_action none actor dis = (Verdict.inspect, dis)
apply_action (some Action.block) actor dis = (Verdict.block, dis)
apply_action (some (Action.disarm ops)) actor dis = (Verdict.disarm, dis_insert actor ops dis)

-- part (a) of `advance`
unfoldable pub seed_steps : Tagged → ℕ → List DagStep → List (ℕ × ℕ) → List (ℕ × ℕ)
seed_steps t pid [] autos = autos
seed_steps t pid (step ∷ steps) autos = seed_steps t pid steps (
    if step.prereq_mask == 0 && step_matches t step && ltb (length autos) cap_auto
    then autos ++ ((pid % 2 ^ 16, 0) ∷ [])
    else autos)

unfoldable pub seed : Tagged → ℕ → List DagPattern → List (ℕ × ℕ) → List (ℕ × ℕ)
seed t pid [] autos = autos
seed t pid (p ∷ ps) autos = seed t (pid + 1) ps (seed_steps t pid p.steps autos)

-- the verdict so far, and the table of the disarmed
pub record Sweep : Type 0 where
  pub verdict : Verdict
  pub dis : Slots OpSet

unfoldable pub react : Option Action → Key → Sweep → Sweep
react action actor w =
    let (v, dis) = apply_action action actor w.dis in
    record { verdict = max_verdict w.verdict v; dis = dis }

unfoldable pub commit_steps : Tagged → List DagStep → ℕ → Sweep → ℕ × Sweep
commit_steps t [] mask w = (mask, w)
commit_steps t (step ∷ steps) mask w =
    let ready = is_ready t mask step in
    commit_steps t steps (if ready then bit_or mask (bit_mask step) else mask)
      (if ready then react step.action t.event.actor w else w)

-- part (b); `rules.patterns[pid]` panics out of range
unfoldable pub advance_autos :
    Tagged → List DagPattern → List (ℕ × ℕ) → Sweep → Attempt (List (ℕ × ℕ) × Sweep)
advance_autos t patterns [] w = done ([], w)
advance_autos t patterns ((pid, mask) ∷ autos) w = elim (get_elem? patterns pid) [
  | none ↦ panic
  | some p ↦ do
    let (mask', w') = commit_steps t p.steps mask w
    (autos', w'') ← advance_autos t patterns autos w'
    done ((pid, mask') ∷ autos', w'')
]

unfoldable pub advance : ℕ → Tagged → Engine → Attempt (Verdict × Engine)
advance line t g = do
  l ← line_at line g.state
  (autos, w) ←
      advance_autos t g.rules.patterns (seed t 0 g.rules.patterns l.autos)
        (record { verdict = Verdict.ignore; dis = g.state.dis })
  let s = put_line line (record l { autos = autos; last_activity = t.event.ts }) g.state
  done (w.verdict, record g { state = record s { dis = w.dis } })

-- what `unify` did before it met a cap stays done
unfoldable pub after_full : Key → Key → State → State
after_full a o s = elim (resolve_line a s) [ full ↦ s | panic ↦ s | done (sa, s1) ↦ s1 ]

unfoldable pub on_event : Tagged → Engine → Attempt (Verdict × Engine)
on_event t g =
    if dis_check g.state.dis t.event.actor t.event.op
    then done (Verdict.block, g)
    else elim (unify t.event.actor t.event.object g.state) [
      | panic ↦ panic
      | full ↦
          done
            (Verdict.ignore, record g { state = after_full t.event.actor t.event.object g.state })
      | done (line, s) ↦ advance line t (record g { state = s })
    ]
