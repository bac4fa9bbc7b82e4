-- ===== src/Lines/Merge.antt =====
-- `merge` and `unify_storyline`: on valid storylines they do not panic, keep the invariant, and join
-- exactly the two storylines.
use correlation_engine.Prelude.{
  ℕ, ◌≡◌, refl, sym, ◌∙◌, ◌≢◌, ◌⊎◌, ◌||◌, none, some, ◌==◌, ==_refl, leb, if◌then◌else◌, arith,
  Bool-cases, inl, inr,
}
use correlation_engine.Prelude.Lists.{length}
use correlation_engine.Prelude.Maps.{get}
use correlation_engine.Event.{Key}
use correlation_engine.Lines.{
  Storyline, Lines, slot, absorb, resolve_line, merge, merge_if_apart, unify_storyline,
}
use correlation_engine.Lines.Valid.{
  IsValid, resolve_line-IsValid, resolve_line_keeps, get-resolve_line_self,
}
use correlation_engine.Lines.Move.{
  moved_to, move_line_lem, moved_to-IsValid, get-moved_to, get-moved_to-none, slot-moved_cases,
}

module _ {ℓ} {A : Type ℓ} where
  -- What joining the storylines `x` and `y` of `s` into the storyline `r` leaves.
  pub record IsJoined (x y r : ℕ) (s s' : Lines A) : Type ℓ where
    pub valid : IsValid s'
    pub target : (r ≡ x) ⊎ (r ≡ y)
    pub relabelled :
        (k l : ℕ) → get k s.line ≡ some l → get k s'.line ≡ some (if l == x || l == y then r else l)
    pub untouched : (k : ℕ) → get k s.line ≡ none → get k s'.line ≡ none
    pub absorbed :
        (i : ℕ) (st : Storyline A)
        → slot s'.storylines i ≡ some st
        → (slot s.storylines i ≡ some st)
          ⊎ ((m d : Storyline A) × (j k : ℕ) × (slot s.storylines j ≡ some m)
              × (slot s.storylines k ≡ some d)
              × (absorb d m ≡ st))

  merged :
      (x y : ℕ) (s : Lines A)
      → IsValid s
      → x ≢ y
      → (mx my : Storyline A) → slot s.storylines x ≡ some mx
      → slot s.storylines y ≡ some my
      → (r : ℕ) × (s' : Lines A) × (merge x y s ≡ some s') × IsJoined x y r s s'
  unfolding merge
  merged x y s v ne mx my ax ay = elim (Bool-cases (leb (length my.members) (length mx.members))) [
    | inl big ↦ (
      x,
      moved_to x y my mx s,
      rw (ax, merge) (rw (ay, big) (move_line_lem x y my mx s v ne ay ax)),
      record {
        valid = moved_to-IsValid x y my mx s v ne ay ax;
        target = inl refl;
        relabelled = λ k l h. ground (arith, get-moved_to x y my mx s v ne ay ax k l h);
        untouched = get-moved_to-none x y my mx s v ne ay ax;
        absorbed = λ i st at. elim (slot-moved_cases x y my mx s v ne ay ax i at) [
          | inl e ↦ inr (my, mx, y, x, ay, ax, e)
          | inr old ↦ inl old
        ];
      },
    )
    | inr small ↦ (
      y,
      moved_to y x mx my s,
      rw (ax, merge) (rw (ay, small) (move_line_lem y x mx my s v (λ e. ne (sym e)) ax ay)),
      record {
        valid = moved_to-IsValid y x mx my s v (λ e. ne (sym e)) ax ay;
        target = inr refl;
        relabelled =
            λ k l h. ground (arith, get-moved_to y x mx my s v (λ e. ne (sym e)) ax ay k l h);
        untouched = get-moved_to-none y x mx my s v (λ e. ne (sym e)) ax ay;
        absorbed = λ i st at. elim (slot-moved_cases y x mx my s v (λ e. ne (sym e)) ax ay i at) [
          | inl e ↦ inr (mx, my, x, y, ax, ay, e)
          | inr old ↦ inl old
        ];
      },
    )
  ]

  merged_if_apart :
      (x y : ℕ) (s : Lines A)
      → IsValid s
      → (mx my : Storyline A) → slot s.storylines x ≡ some mx
      → slot s.storylines y ≡ some my
      → (r : ℕ) × (s' : Lines A) × (merge_if_apart x y s ≡ some s') × IsJoined x y r s s'
  unfolding merge_if_apart
  merged_if_apart x y s v mx my ax ay = elim (Bool-cases (x == y)) [
    | inl e ↦ (
      x,
      s,
      rw e,
      record {
        valid = v;
        target = inl refl;
        relabelled = λ k l h. ground arith;
        untouched = λ k h. h;
        absorbed = λ i st at. inl at;
      },
    )
    | inr ne ↦
        let (r, s', run, joined) = merged x y s v (ground arith) mx my ax ay in
        (r, s', rw ne run, joined)
  ]

  -- the storylines once the two ends of an edge have one each
  abbrev pub both_resolved : Key → Key → Lines A → Lines A
  both_resolved a o s = (resolve_line o (resolve_line a s).1).1

  abbrev pub line_of_actor : Key → Lines A → ℕ
  line_of_actor a s = (resolve_line a s).0

  abbrev pub line_of_object : Key → Key → Lines A → ℕ
  line_of_object a o s = (resolve_line o (resolve_line a s).1).0

  pub get-actor :
      (a o : Key) (s : Lines A) → get a (both_resolved a o s).line ≡ some (line_of_actor a s)
  get-actor a o s = resolve_line_keeps o (resolve_line a s).1 a (get-resolve_line_self a s)

  pub get-object :
      (a o : Key) (s : Lines A) → get o (both_resolved a o s).line ≡ some (line_of_object a o s)
  get-object a o s = get-resolve_line_self o (resolve_line a s).1

  pub both_resolved-IsValid : (a o : Key) (s : Lines A) → IsValid s → IsValid (both_resolved a o s)
  both_resolved-IsValid a o s v =
      resolve_line-IsValid o (resolve_line a s).1 (resolve_line-IsValid a s v)

  -- What `unify_storyline` has done when it returns `r` and `s'`.
  pub record IsUnified (a o : Key) (s : Lines A) (r : ℕ) (s' : Lines A) : Type ℓ where
    pub run : unify_storyline a o s ≡ some (r, s')
    pub merge_run :
        merge_if_apart (line_of_actor a s) (line_of_object a o s) (both_resolved a o s) ≡ some s'
    pub joined : IsJoined (line_of_actor a s) (line_of_object a o s) r (both_resolved a o s) s'
    pub actor_in : get a s'.line ≡ some r
    pub object_in : get o s'.line ≡ some r

  -- On valid storylines `unify_storyline` never panics: it returns the storyline that now holds the
  -- actor and the object, keeps the invariant, and gives this line to every key of the two
  -- storylines and to no other key.
  pub unify_storyline_total :
      (a o : Key) (s : Lines A) → IsValid s → (r : ℕ) × (s' : Lines A) × IsUnified a o s r s'
  unfolding unify_storyline
  unify_storyline_total a o s v =
      let s2 = both_resolved a o s in
      let sa = line_of_actor a s in
      let so = line_of_object a o s in
      let v2 : IsValid s2 = both_resolved-IsValid a o s v in
      let (mx, ax, _) = v2.labelled a sa (get-actor a o s) in
      let (my, ay, _) = v2.labelled o so (get-object a o s) in
      let (r, s', run, j) = merged_if_apart sa so s2 v2 mx my ax ay in
      let at_a : get a s'.line ≡ some r = j.relabelled a sa (get-actor a o s) ∙ rw (==_refl sa) in
      let at_o : get o s'.line ≡ some r =
        j.relabelled o so (get-object a o s) ∙ ground (arith, ==_refl so) in
      (
        r,
        s',
        record {
          run = rw run (rw at_a);
          merge_run = run;
          joined = j;
          actor_in = at_a;
          object_in = at_o;
        },
      )
