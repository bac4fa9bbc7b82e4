-- ===== src/Lines/Move.antt =====
-- `merge` of engine_core/src/v0_0_1.rs and v0_0_2.rs, once the larger storyline is known: what moving
-- the smaller one into it does.
use correlation_engine.Prelude.{
  ℕ, ◌≡◌, sym, ◌∙◌, ap, ◌≢◌, ◌⊎◌, true, ◌||◌, Option, none, some, List, [], ◌==◌, ==_iff,
  if◌then◌else◌, arith, Bool-cases, some_inj, inl, inr,
}
use correlation_engine.Prelude.Lists.{set}
use correlation_engine.Prelude.Maps.{get, contains, contains-extend}
use correlation_engine.Event.{Key}
use correlation_engine.Lines.{Storyline, Lines, relabel, slot, absorb, move_line}
use correlation_engine.Lines.Valid.{IsValid, get-relabel, slot-lt, slot-set_self, slot-set_ne}

module _ {ℓ} {A : Type ℓ} where
  abbrev members_of : Option (Storyline A) → List Key
  members_of none = []
  members_of (some t) = t.members

  abbrev pub moved_to : ℕ → ℕ → Storyline A → Storyline A → Lines A → Lines A
  moved_to dst src m d s = record {
    line = relabel m.members dst s.line;
    storylines = set (set s.storylines src none) dst (some (absorb d m));
  }

  pub same_storyline :
      (xs : List (Option (Storyline A))) {i j : ℕ} {st m : Storyline A}
      → slot xs i ≡ some st
      → slot xs j ≡ some m
      → i ≡ j
      → st.members ≡ m.members
  same_storyline xs p q e = ap members_of (sym p ∙ ap (slot xs) e ∙ q)

module _ {ℓ} {A : Type ℓ} (dst src : ℕ) (m d : Storyline A) (s : Lines A) (v : IsValid s)
    (apart : dst ≢ src) (at_src : slot s.storylines src ≡ some m)
    (at_dst : slot s.storylines dst ≡ some d) where
  pub emptied_dst : slot (set s.storylines src none) dst ≡ some d
  emptied_dst = slot-set_ne s.storylines src dst none (λ e. apart (sym e)) ∙ at_dst

  pub move_line_lem : move_line dst src s ≡ some (moved_to dst src m d s)
  unfolding move_line
  move_line_lem = rw at_src (rw emptied_dst)

  pub slot-moved_dst : slot (moved_to dst src m d s).storylines dst ≡ some (absorb d m)
  slot-moved_dst =
      slot-set_self (set s.storylines src none) dst (some (absorb d m))
        (slot-lt (set s.storylines src none) dst emptied_dst)

  pub slot-moved_ne :
      (l : ℕ)
      → l ≢ dst
      → slot (moved_to dst src m d s).storylines l ≡ slot (set s.storylines src none) l
  slot-moved_ne l ne =
      slot-set_ne (set s.storylines src none) dst l (some (absorb d m)) (λ e. ne (sym e))

  contains-absorb :
      (k : ℕ) → contains k (absorb d m).members ≡ (contains k m.members || contains k d.members)
  unfolding absorb
  contains-absorb k = contains-extend k d.members m.members

  moved_labelled :
      (k l : ℕ)
      → get k (moved_to dst src m d s).line ≡ some l
      → (st : Storyline A) × (slot (moved_to dst src m d s).storylines l ≡ some st)
        × (contains k st.members ≡ true)
  moved_labelled k l h = elim (Bool-cases (contains k m.members)) [
    | inl in_src ↦ (
      absorb d m,
      ap (slot (moved_to dst src m d s).storylines)
            (ground (arith, get-relabel k m.members dst s.line))
          ∙ slot-moved_dst,
      contains-absorb k ∙ rw in_src,
    )
    | inr out ↦
        let old : get k s.line ≡ some l = ground (arith, get-relabel k m.members dst s.line) in
        let (st, at, mem) = v.labelled k l old in
        elim (Bool-cases (l == dst)) [
          | inl e ↦ (
            absorb d m,
            ap (slot (moved_to dst src m d s).storylines) ((==_iff l dst).0 e) ∙ slot-moved_dst,
            contains-absorb k
                ∙ rw out (
                    ap (contains k)
                      (sym (same_storyline s.storylines at at_dst ((==_iff l dst).0 e)))
                    ∙ mem),
          )
          | inr ne ↦ (
            st,
            slot-moved_ne l (ground arith)
                ∙ slot-set_ne s.storylines src l none (λ e.
                  cc (out, mem, ap (contains k) (same_storyline s.storylines at at_src (sym e))))
                ∙ at,
            mem,
          )
        ]
  ]

  slot-moved_old :
      (l : ℕ) {st : Storyline A}
      → l ≢ dst
      → slot (moved_to dst src m d s).storylines l ≡ some st
      → (l ≢ src) × (slot s.storylines l ≡ some st)
  slot-moved_old l ne at =
      let emptied = sym (slot-moved_ne l ne) ∙ at in
      let kept : l ≢ src = λ e. cc (
        sym (
          ap (slot (set s.storylines src none)) e
          ∙ slot-set_self s.storylines src none (slot-lt s.storylines src at_src))
        ∙ emptied) in
      (kept, sym (slot-set_ne s.storylines src l none (λ e. kept (sym e))) ∙ emptied)

  -- a storyline of the result is the one that absorbed, or an old one
  pub slot-moved_cases :
      (l : ℕ) {st : Storyline A}
      → slot (moved_to dst src m d s).storylines l ≡ some st
      → (absorb d m ≡ st) ⊎ (slot s.storylines l ≡ some st)
  slot-moved_cases l at = elim (Bool-cases (l == dst)) [
    | inl e ↦ inl (
        some_inj (
          sym slot-moved_dst
          ∙ ap (slot (moved_to dst src m d s).storylines) (sym ((==_iff l dst).0 e))
          ∙ at))
    | inr ne ↦ inr (slot-moved_old l (ground arith) at).1
  ]

  moved_listed :
      (k l : ℕ) (st : Storyline A)
      → slot (moved_to dst src m d s).storylines l ≡ some st
      → contains k st.members ≡ true
      → get k (moved_to dst src m d s).line ≡ some l
  moved_listed k l st at mem = elim (Bool-cases (l == dst)) [
    | inl e ↦
        let here : contains k (absorb d m).members ≡ true =
          ap (contains k) (
            same_storyline (moved_to dst src m d s).storylines slot-moved_dst at
              (sym ((==_iff l dst).0 e)))
          ∙ mem in
        elim (Bool-cases (contains k m.members)) [
          | inl in_src ↦ ground (arith, get-relabel k m.members dst s.line)
          | inr out ↦
              let in_dst : contains k d.members ≡ true = ground (arith, contains-absorb k) in
              ground (arith, get-relabel k m.members dst s.line, v.listed k dst d at_dst in_dst)
        ]
    | inr ne ↦
        let (kept, old) = slot-moved_old l (ground arith) at in
        let named : get k s.line ≡ some l = v.listed k l st old mem in
        elim (Bool-cases (contains k m.members)) [
          | inl in_src ↦ absurd (kept (ground (arith, v.listed k src m at_src in_src)))
          | inr out ↦ ground (arith, get-relabel k m.members dst s.line)
        ]
  ]

  pub moved_to-IsValid : IsValid (moved_to dst src m d s)
  moved_to-IsValid = record { labelled = moved_labelled; listed = moved_listed }

  -- the new label of a key, from its old label
  pub get-moved_to :
      (k l : ℕ)
      → get k s.line ≡ some l
      → get k (moved_to dst src m d s).line ≡ some (if l == src then dst else l)
  get-moved_to k l h = elim (Bool-cases (contains k m.members)) [
    | inl in_src ↦
        ground (arith, get-relabel k m.members dst s.line, v.listed k src m at_src in_src)
    | inr out ↦
        let ne : l ≢ src = λ e.
          let (st, at, mem) = v.labelled k l h in
          cc (out, mem, ap (contains k) (same_storyline s.storylines at at_src e)) in
        ground (arith, get-relabel k m.members dst s.line)
  ]

  pub get-moved_to-none : (k : ℕ) → get k s.line ≡ none → get k (moved_to dst src m d s).line ≡ none
  get-moved_to-none k h = elim (Bool-cases (contains k m.members)) [
    | inl in_src ↦ cc (h, v.listed k src m at_src in_src)
    | inr out ↦ ground (arith, get-relabel k m.members dst s.line)
  ]
