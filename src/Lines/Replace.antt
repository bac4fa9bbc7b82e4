-- ===== src/Lines/Replace.antt =====
-- Writing a storyline back with the same members, as `advance` does.
use correlation_engine.Prelude.{
  ℕ, ◌≡◌, sym, ◌∙◌, ap, true, some, ◌==◌, ==_iff, if◌then◌else◌, arith, Bool-cases, some_inj, inl,
  inr,
}
use correlation_engine.Prelude.Lists.{set}
use correlation_engine.Prelude.Maps.{get, contains}
use correlation_engine.Lines.{Storyline, Lines, slot}
use correlation_engine.Lines.Valid.{IsValid, slot-lt, slot-set_self, slot-set_ne}

module _ {ℓ} {A : Type ℓ} where
  abbrev pub replaced : ℕ → Storyline A → Lines A → Lines A
  replaced i st s = record { line = s.line; storylines = set s.storylines i (some st) }

  pub slot-replaced :
      (s : Lines A) (i l : ℕ) (old st : Storyline A)
      → slot s.storylines i ≡ some old
      → slot (replaced i st s).storylines l ≡ (if l == i then some st else slot s.storylines l)
  slot-replaced s i l old st at = elim (Bool-cases (l == i)) [
    | inl e ↦ rw e (
        ap (slot (replaced i st s).storylines) ((==_iff l i).0 e)
        ∙ slot-set_self s.storylines i (some st) (slot-lt s.storylines i at))
    | inr ne ↦ rw ne (slot-set_ne s.storylines i l (some st) (λ e. ground arith))
  ]

  pub replaced-IsValid :
      (s : Lines A) (i : ℕ) (old st : Storyline A)
      → IsValid s
      → slot s.storylines i ≡ some old
      → st.members ≡ old.members
      → IsValid (replaced i st s)
  replaced-IsValid s i old st v at same = record {
    labelled = λ k l h. elim (Bool-cases (l == i)) [
      | inl e ↦ (st, slot-replaced s i l old st at ∙ rw e, ap (contains k) same ∙ in_old k l h e)
      | inr ne ↦
          let (st', at', mem) = v.labelled k l h in
          (st', slot-replaced s i l old st at ∙ rw ne at', mem)
    ];
    listed = λ k l st' at' mem. elim (Bool-cases (l == i)) [
      | inl e ↦
          let here : st ≡ st' = some_inj (sym (slot-replaced s i l old st at ∙ rw e) ∙ at') in
          v.listed k l old (ap (slot s.storylines) ((==_iff l i).0 e) ∙ at)
            (ap (contains k) (sym same ∙ ap (λ (x : Storyline A). x.members) here) ∙ mem)
      | inr ne ↦ v.listed k l st' (sym (slot-replaced s i l old st at ∙ rw ne) ∙ at') mem
    ];
  }
    where
      in_old : (k l : ℕ) → get k s.line ≡ some l → (l == i) ≡ true → contains k old.members ≡ true
      in_old k l h e =
          let (st', at', mem) = v.labelled k l h in
          let here : st' ≡ old =
            some_inj (sym at' ∙ ap (slot s.storylines) ((==_iff l i).0 e) ∙ at) in
          ap (λ (x : Storyline A). contains k x.members) (sym here) ∙ mem
