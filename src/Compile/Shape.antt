-- ===== src/Compile/Shape.antt =====
-- The lines of a rule text, for `compile` and `compile_dag` of engine_rules/src/lib.rs at once: a
-- property of the open pattern and one of the closed patterns hold from line to line.
use correlation_engine.Prelude.{
  ℕ, ◌+◌, ◌≡◌, ◌≢◌, refl, true, false, ◌||◌, some, List, [], ◌∷◌, ==_iff, arith, Option-cases,
  some_inj, inl, inr, sym,
}
use mathlib.Core.Path.{subst}
use correlation_engine.Prelude.Lists.{All, All-append, Distinct, Distinct-append_end, drop}
use correlation_engine.Prelude.Texts.{
  codes, equal, is_nil, has_whitespace, trim, starts_with, split_whitespace, lines, utf8,
}
use correlation_engine.Prelude.Chars.{IsText, trim-IsText, drop-IsText, lines-IsText}
use correlation_engine.Compile.{Result}
use correlation_engine.Compile.Outcomes.{Gives, Gives-bind, Gives-if}
use correlation_engine.Compile.Source.{
  Block, Compiler, has_name, open_pattern, end_pattern, add_step, read_line, line_of, read_lines,
  compile_blocks, no_patterns, first_token,
}

pub equal_self : (s : List ℕ) → equal s s ≡ true
unfolding equal
equal_self [] = refl
equal_self (c ∷ cs) = rw ((==_iff c c).1 refl) (equal_self cs)

-- a name: the bytes of a text that is not empty and has no white space
abbrev pub IsName : List ℕ → Type 0
IsName bytes =
    (name : List ℕ) × (bytes ≡ utf8 name)
    × IsText name
    × (is_nil name ≡ false)
    × (has_whitespace name ≡ false)

has_name-All {ℓ} :
    {S : Type ℓ} (name : List ℕ) (ps : List (Block S))
    → has_name name ps ≡ false
    → All (λ (p : Block S). p.name ≢ name) ps
unfolding has_name
has_name-All name [] h = tt
has_name-All name (p ∷ ps) h = (
  λ e. let same : equal p.name name ≡ true = rw e (equal_self name) in ground arith,
  has_name-All name ps (ground arith),
)

module _ {S : Type 0} (add : ℕ → List ℕ → List S → Result (List S))
    (close : ℕ → Block S → Result (Block S)) (Open Closed : Block S → Type 0)
    (starts : (name : List ℕ) → IsName name → Open (record { name = name; steps = [] }))
    (adds : (line : ℕ) (rest : List ℕ) (b : Block S)
      → Open b
      → Gives (λ (steps : List S). Open (record b { steps = steps })) (add line rest b.steps))
    (closes : (line : ℕ) (b : Block S)
      → Open b
      → Gives (λ (b' : Block S). Closed b' × (b'.name ≡ b.name)) (close line b)) where
  -- what holds of `patterns` and `current` between two lines
  record IsSound (c : Compiler S) : Type 0 where
    pub all_closed : All Closed c.patterns
    pub distinct : Distinct (λ (b : Block S). b.name) c.patterns
    pub current_open :
        (b : Block S)
        → c.current ≡ some b
        → Open b × All (λ (p : Block S). p.name ≢ b.name) c.patterns

  open_pattern-IsSound :
      (line : ℕ) (name : List ℕ) (c : Compiler S)
      → IsText name
      → IsSound c
      → Gives IsSound (open_pattern line name c)
  unfolding open_pattern
  open_pattern-IsSound line name c chars h = elim (Option-cases c.current) [
    | inr (b, e) ↦ rw e tt
    | inl e ↦ rw e (
        Gives-if IsSound (is_nil name || has_whitespace name) _ _ (λ _. tt)
          λ plain.
            Gives-if IsSound (has_name (utf8 name) c.patterns) _ _ (λ _. tt)
              λ new. record {
                all_closed = h.all_closed;
                distinct = h.distinct;
                current_open = λ b at.
                    subst
                      (λ (x : Block S). Open x × All (λ (p : Block S). p.name ≢ x.name) c.patterns)
                      (some_inj at)
                      (
                        starts (utf8 name) (name, refl, chars, ground arith, ground arith),
                        has_name-All (utf8 name) c.patterns new,
                      );
              })
  ]

  end_pattern-IsSound :
      (line : ℕ) (c : Compiler S) → IsSound c → Gives IsSound (end_pattern close line c)
  unfolding end_pattern
  end_pattern-IsSound line c h = elim (Option-cases c.current) [
    | inl e ↦ rw e tt
    | inr (b, e) ↦ rw e (
        let (open_b, fresh) = h.current_open b e in
        Gives-bind (λ (b' : Block S). Closed b' × (b'.name ≡ b.name)) IsSound (close line b) _
          (closes line b open_b)
          λ b' (closed, same). record {
            all_closed = All-append Closed c.patterns (b' ∷ []) h.all_closed (closed, tt);
            distinct =
                Distinct-append_end (λ (x : Block S). x.name) c.patterns b' h.distinct
                  (subst (λ (n : List ℕ). All (λ (p : Block S). p.name ≢ n) c.patterns) (sym same)
                    fresh);
            current_open = λ x at. cc;
          })
  ]

  add_step-IsSound :
      (line : ℕ) (rest : List ℕ) (c : Compiler S)
      → IsSound c
      → Gives IsSound (add_step add line rest c)
  unfolding add_step
  add_step-IsSound line rest c h = elim (Option-cases c.current) [
    | inl e ↦ rw e tt
    | inr (b, e) ↦ rw e (
        let (open_b, fresh) = h.current_open b e in
        Gives-bind (λ (steps : List S). Open (record b { steps = steps })) IsSound
          (add line rest b.steps) _ (adds line rest b open_b)
          λ steps still. record {
            all_closed = h.all_closed;
            distinct = h.distinct;
            current_open = λ x at.
                subst (λ (y : Block S). Open y × All (λ (p : Block S). p.name ≢ y.name) c.patterns)
                  (some_inj at) (still, fresh);
          })
  ]

  line_of-IsSound :
      (number : ℕ) (line : List ℕ) (c : Compiler S)
      → IsText line
      → IsSound c
      → Gives IsSound (line_of add close number line c)
  unfolding read_line
  line_of-IsSound number line c chars h =
      Gives-if IsSound (is_nil line || starts_with b'#' line) _ _ (λ _. h)
        λ _.
          Gives-if IsSound (equal (first_token (split_whitespace line)) (codes "pattern")) _ _
            (λ _.
              open_pattern-IsSound number (trim (drop 7 line)) c
                (trim-IsText (drop 7 line) (drop-IsText 7 line chars)) h)
            λ _.
              Gives-if IsSound (equal line (codes "end")) _ _ (λ _. end_pattern-IsSound number c h)
                λ _.
                  Gives-if IsSound (equal (first_token (split_whitespace line)) (codes "step")) _ _
                    (λ _. add_step-IsSound number (trim (drop 4 line)) c h) (λ _. tt)

  read_lines-IsSound :
      (number : ℕ) (raws : List (List ℕ)) (c : Compiler S)
      → All IsText raws
      → IsSound c
      → Gives IsSound (read_lines add close number raws c)
  unfolding read_lines
  read_lines-IsSound number [] c chars h = h
  read_lines-IsSound number (raw ∷ raws) c chars h =
      Gives-bind IsSound IsSound (line_of add close number (trim raw) c) _
        (line_of-IsSound number (trim raw) c (trim-IsText raw chars.0) h)
        (λ c' h'. read_lines-IsSound (number + 1) raws c' chars.1 h')

  -- Each pattern of a text that compiles is closed, and no two have one name.
  pub compile_blocks-IsSound :
      (src : List ℕ)
      → IsText src
      → Gives
          (λ (ps : List (Block S)). All Closed ps × Distinct (λ (b : Block S). b.name) ps)
          (compile_blocks add close src)
  unfolding compile_blocks
  compile_blocks-IsSound src chars =
      Gives-bind IsSound
        (λ (ps : List (Block S)). All Closed ps × Distinct (λ (b : Block S). b.name) ps)
        (read_lines add close 1 (lines src) no_patterns) _
        (read_lines-IsSound 1 (lines src) no_patterns (lines-IsText src chars)
          (record { all_closed = tt; distinct = tt; current_open = λ b at. cc }))
        (λ c h. elim (Option-cases c.current) [
          | inl e ↦ rw e (h.all_closed, h.distinct)
          | inr (b, e) ↦ rw e tt
        ])
