-- ===== src/Lines.antt =====
-- `LINE` and the storylines: `resolve_line`, `unify_storyline` and `merge`, which v0_0_1.rs and
-- v0_0_2.rs (engine_core/src) have in the same words over their own automaton type `A`.
-- `none` is a panic: an `unwrap` of `None` or a missing key.
pub mod Valid
pub mod Replace
pub mod Move
pub mod Merge
pub mod Connected
pub mod Carried
use correlation_engine.Prelude.{
  ℕ, Option, none, some, List, [], ◌∷◌, ◌++◌, max, leb, ◌==◌, if◌then◌else◌, ◌>>=◌,
}
use correlation_engine.Prelude.Lists.{length, get_elem?, set}
use correlation_engine.Prelude.Maps.{Map, get, insert, get_or_default, extend}
use correlation_engine.Event.{Key}

pub record Storyline {ℓ} (A : Type ℓ) : Type ℓ where
  pub members : List Key
  pub automata : Map (List A)
  pub last_activity : ℕ

-- `line` is `LINE`; a slot of `storylines` that was merged away is `none`.
pub record Lines {ℓ} (A : Type ℓ) : Type ℓ where
  pub line : Map ℕ
  pub storylines : List (Option (Storyline A))

-- `for k in &moved.members { self.line.insert(*k, dst); }`
unfoldable pub relabel : List Key → ℕ → Map ℕ → Map ℕ
relabel [] dst line = line
relabel (k ∷ ks) dst line = relabel ks dst (insert k dst line)

module _ {ℓ} {A : Type ℓ} where
  unfoldable pub no_lines : Lines A
  no_lines = record { line = []; storylines = [] }

  -- `self.storylines[i].as_ref().unwrap()`
  abbrev pub join : Option (Option (Storyline A)) → Option (Storyline A)
  join none = none
  join (some o) = o

  unfoldable pub slot : List (Option (Storyline A)) → ℕ → Option (Storyline A)
  slot storylines i = join (get_elem? storylines i)

  unfoldable pub fresh : Key → Storyline A
  fresh key = record { members = key ∷ []; automata = []; last_activity = 0 }

  unfoldable pub resolve_line : Key → Lines A → ℕ × Lines A
  resolve_line key s = elim (get key s.line) [
    | some l ↦ (l, s)
    | none ↦ (
      length s.storylines,
      record {
        line = insert key (length s.storylines) s.line;
        storylines = s.storylines ++ (some (fresh key) ∷ []);
      },
    )
  ]

  -- `d.automata.entry(pid).or_default().append(&mut autos)` for each entry moved
  unfoldable pub append_automata : Map (List A) → Map (List A) → Map (List A)
  append_automata [] into = into
  append_automata ((pid, autos) ∷ moved) into =
      append_automata moved (insert pid (get_or_default [] (get pid into) ++ autos) into)

  unfoldable pub absorb : Storyline A → Storyline A → Storyline A
  absorb d moved = record {
    members = extend d.members moved.members;
    automata = append_automata moved.automata d.automata;
    last_activity = max d.last_activity moved.last_activity;
  }

  unfoldable pub move_line : ℕ → ℕ → Lines A → Option (Lines A)
  move_line dst src s = do
    moved ← slot s.storylines src
    let emptied = set s.storylines src none
    d ← slot emptied dst
    some (record {
      line = relabel moved.members dst s.line;
      storylines = set emptied dst (some (absorb d moved));
    })

  unfoldable pub merge : ℕ → ℕ → Lines A → Option (Lines A)
  merge x y s = do
    sx ← slot s.storylines x
    sy ← slot s.storylines y
    if leb (length sy.members) (length sx.members) then move_line x y s else move_line y x s

  unfoldable pub merge_if_apart : ℕ → ℕ → Lines A → Option (Lines A)
  merge_if_apart sa so s = if sa == so then some s else merge sa so s

  unfoldable pub unify_storyline : Key → Key → Lines A → Option (ℕ × Lines A)
  unify_storyline a o s =
      let (sa, s1) = resolve_line a s in
      let (so, s2) = resolve_line o s1 in
      do s3 ← merge_if_apart sa so s2; l ← get a s3.line; some (l, s3)

  -- The members of the storyline that holds `key`; its `unwrap` panics on a slot merged away.
  unfoldable pub storyline_of : Key → Lines A → Option (Option (List Key))
  storyline_of key s = elim (get key s.line) [
    | none ↦ some none
    | some l ↦ elim (slot s.storylines l) [ none ↦ none | some st ↦ some (some st.members) ]
  ]
