-- ===== src/Lines/Valid.antt =====
-- The invariant of the storylines, and that `resolve_line` and `merge` keep it and never panic.
use correlation_engine.Prelude.{
  ℕ, ◌<◌, ◌≡◌, refl, sym, ◌∙◌, ap, ◌≢◌, true, Option, none, some, List, [], ◌∷◌, ◌++◌, ◌==◌, ==_iff,
  ==_refl, leb, if◌then◌else◌, arith, Bool-cases, Option-cases, inl, inr,
}
use correlation_engine.Prelude.Lists.{
  length, get_elem?, set, get_elem?-set_self, get_elem?-set_ne, lt_of_get_elem?,
  get_elem?-append_left, get_elem?-append_end, get_elem?-append_beyond,
}
use correlation_engine.Prelude.Maps.{Map, get, insert, get-insert, contains}
use correlation_engine.Event.{Key}
use correlation_engine.Lines.{Storyline, Lines, relabel, no_lines, join, slot, fresh, resolve_line}

pub get-relabel :
    (j : ℕ) (ks : List Key) (dst : ℕ) (line : Map ℕ)
    → get j (relabel ks dst line) ≡ (if contains j ks then some dst else get j line)
unfolding relabel contains
get-relabel j [] dst line = refl
get-relabel j (k ∷ ks) dst line =
    ground (arith, get-relabel j ks dst (insert k dst line), get-insert k j dst line)

module _ {ℓ} {A : Type ℓ} where
  pub slot-lt :
      (xs : List (Option (Storyline A))) (i : ℕ) {st : Storyline A}
      → slot xs i ≡ some st
      → i < length xs
  unfolding slot
  slot-lt xs i h = elim (Option-cases (get_elem? xs i)) [
    | inl e ↦ absurd (cc (ap join e))
    | inr (o, e) ↦ lt_of_get_elem? xs i e
  ]

  pub slot-set_self :
      (xs : List (Option (Storyline A))) (i : ℕ) (o : Option (Storyline A))
      → i < length xs
      → slot (set xs i o) i ≡ o
  unfolding slot
  slot-set_self xs i o h = ap join (get_elem?-set_self xs i o h)

  pub slot-set_ne :
      (xs : List (Option (Storyline A))) (i j : ℕ) (o : Option (Storyline A))
      → i ≢ j
      → slot (set xs i o) j ≡ slot xs j
  unfolding slot
  slot-set_ne xs i j o h = ap join (get_elem?-set_ne xs o h)

  pub slot-append_left :
      (xs : List (Option (Storyline A))) (i : ℕ) (o : Option (Storyline A)) {st : Storyline A}
      → slot xs i ≡ some st
      → slot (xs ++ o ∷ []) i ≡ some st
  unfolding slot
  slot-append_left xs i o h = rw (get_elem?-append_left xs (o ∷ []) i (slot-lt xs i h)) h

  pub slot-append_end :
      (xs : List (Option (Storyline A))) (o : Option (Storyline A))
      → slot (xs ++ o ∷ []) (length xs) ≡ o
  unfolding slot
  slot-append_end xs o = ap join (get_elem?-append_end xs o)

  -- A slot of the longer list is the new one at the end, or an old one.
  pub slot-append_cases :
      (xs : List (Option (Storyline A))) (i : ℕ) (o : Option (Storyline A)) {st : Storyline A}
      → slot (xs ++ o ∷ []) i ≡ some st
      → (i ≢ length xs → slot xs i ≡ some st)
  unfolding slot
  slot-append_cases xs i o h ne = elim (Bool-cases (leb (length xs) i)) [
    | inl e ↦ absurd (cc (h, ap join (get_elem?-append_beyond xs o i (ground arith))))
    | inr e ↦ ap join (sym (get_elem?-append_left xs (o ∷ []) i (ground arith))) ∙ h
  ]

  -- A key is in exactly the storyline that `LINE` names for it.
  pub record IsValid (s : Lines A) : Type ℓ where
    pub labelled :
        (k l : ℕ)
        → get k s.line ≡ some l
        → (st : Storyline A) × (slot s.storylines l ≡ some st) × (contains k st.members ≡ true)
    pub listed :
        (k l : ℕ) (st : Storyline A)
        → slot s.storylines l ≡ some st
        → contains k st.members ≡ true
        → get k s.line ≡ some l

  pub no_lines-IsValid : IsValid no_lines
  unfolding no_lines get slot
  no_lines-IsValid = record { labelled = λ k l h. cc; listed = λ k l st h m. cc }

  pub resolve_line_old :
      (key : Key) (s : Lines A) {l : ℕ} → get key s.line ≡ some l → resolve_line key s ≡ (l, s)
  unfolding resolve_line
  resolve_line_old key s e = rw (e, resolve_line)

  abbrev pub opened : Key → Lines A → Lines A
  opened key s = record {
    line = insert key (length s.storylines) s.line;
    storylines = s.storylines ++ (some (fresh key) ∷ []);
  }

  pub resolve_line_new :
      (key : Key) (s : Lines A)
      → get key s.line ≡ none
      → resolve_line key s ≡ (length s.storylines, opened key s)
  unfolding resolve_line
  resolve_line_new key s e = rw (e, resolve_line)

  pub get-resolve_line :
      (key : Key) (s : Lines A) (j : ℕ)
      → get j (resolve_line key s).1.line
        ≡ (if key == j then some (resolve_line key s).0 else get j s.line)
  get-resolve_line key s j = elim (Option-cases (get key s.line)) [
    | inl e ↦ rw (resolve_line_new key s e) (get-insert key j (length s.storylines) s.line)
    | inr (l, e) ↦ rw (resolve_line_old key s e) (elim (Bool-cases (key == j)) [
      | inl same ↦ rw same (ap (λ (x : ℕ). get x s.line) (sym ((==_iff key j).0 same)) ∙ e)
      | inr ne ↦ rw ne
    ])
  ]

  pub slot-resolve_line :
      (key : Key) (s : Lines A) (i : ℕ) {st : Storyline A}
      → slot s.storylines i ≡ some st
      → slot (resolve_line key s).1.storylines i ≡ some st
  slot-resolve_line key s i h = elim (Option-cases (get key s.line)) [
    | inl e ↦ rw (resolve_line_new key s e) (slot-append_left s.storylines i (some (fresh key)) h)
    | inr (l, e) ↦ rw (resolve_line_old key s e) h
  ]

  -- a key that has a line keeps it
  pub resolve_line_keeps :
      (key : Key) (s : Lines A) (k : ℕ) {l : ℕ}
      → get k s.line ≡ some l
      → get k (resolve_line key s).1.line ≡ some l
  resolve_line_keeps key s k h = elim (Option-cases (get key s.line)) [
    | inl e ↦ elim (Bool-cases (key == k)) [
      | inl same ↦ cc (h, e, (==_iff key k).0 same)
      | inr ne ↦ get-resolve_line key s k ∙ rw ne h
    ]
    | inr (l', e) ↦ rw (resolve_line_old key s e) h
  ]

  pub get-resolve_line_self :
      (key : Key) (s : Lines A) → get key (resolve_line key s).1.line ≡ some (resolve_line key s).0
  get-resolve_line_self key s = get-resolve_line key s key ∙ rw (==_refl key)

  opened_labelled :
      (key : Key) (s : Lines A)
      → IsValid s
      → (k l : ℕ) → get k (opened key s).line ≡ some l
      → (st : Storyline A) × (slot (opened key s).storylines l ≡ some st)
        × (contains k st.members ≡ true)
  unfolding fresh contains
  opened_labelled key s v k l h = elim (Bool-cases (key == k)) [
    | inl same ↦ (
      fresh key,
      ap (slot (s.storylines ++ some (fresh key) ∷ []))
            (ground (arith, get-insert key k (length s.storylines) s.line))
          ∙ slot-append_end s.storylines (some (fresh key)),
      ground arith,
    )
    | inr ne ↦
        let old : get k s.line ≡ some l =
          ground (arith, get-insert key k (length s.storylines) s.line) in
        let (st, at, mem) = v.labelled k l old in
        (st, slot-append_left s.storylines l (some (fresh key)) at, mem)
  ]

  opened_listed :
      (key : Key) (s : Lines A)
      → IsValid s
      → get key s.line ≡ none
      → (k l : ℕ) (st : Storyline A) → slot (opened key s).storylines l ≡ some st
      → contains k st.members ≡ true
      → get k (opened key s).line ≡ some l
  unfolding fresh contains
  opened_listed key s v e k l st at mem = elim (Bool-cases (l == length s.storylines)) [
    | inl end ↦
        let new : some (fresh key) ≡ some st =
          sym (slot-append_end s.storylines (some (fresh key)))
          ∙ ap (slot (s.storylines ++ some (fresh key) ∷ []))
              (sym ((==_iff l (length s.storylines)).0 end))
          ∙ at in
        let members : key ∷ [] ≡ st.members = ap (λ (o : Option (Storyline A)). members_of o) new in
        let mem' : contains k (key ∷ []) ≡ true = ap (contains k) members ∙ mem in
        ground (arith, get-insert key k (length s.storylines) s.line)
    | inr ne ↦
        let old : get k s.line ≡ some l =
          v.listed k l st (slot-append_cases s.storylines l (some (fresh key)) at (ground arith))
            mem in
        ground (arith, get-insert key k (length s.storylines) s.line, e, old)
  ]
    where
      members_of : Option (Storyline A) → List Key
      members_of none = []
      members_of (some t) = t.members

  pub resolve_line-IsValid : (key : Key) (s : Lines A) → IsValid s → IsValid (resolve_line key s).1
  resolve_line-IsValid key s v = elim (Option-cases (get key s.line)) [
    | inl e ↦
        rw (resolve_line_new key s e)
          (record { labelled = opened_labelled key s v; listed = opened_listed key s v e })
    | inr (l, e) ↦ rw (resolve_line_old key s e) v
  ]
