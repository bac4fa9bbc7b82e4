-- ===== src/Lines/Carried.antt =====
-- What holds of the automata of every storyline, in v0_0_1.rs and v0_0_2.rs (engine_core/src): each
-- belongs to a pattern and fits it, and merging storylines keeps this.
use correlation_engine.Prelude.{
  ℕ, ◌≡◌, sym, ◌∙◌, ap, some, List, [], ◌∷◌, ◌++◌, ◌==◌, ==_iff, arith, Bool-cases, Option-cases,
  some_inj, inl, inr,
}
use mathlib.Core.Path.{subst}
use correlation_engine.Prelude.Lists.{length, get_elem?, All, All-append}
use correlation_engine.Prelude.Maps.{Map, get, insert, get_or_default, All-insert, All-get}
use correlation_engine.Event.{Key}
use correlation_engine.Lines.{Storyline, Lines, slot, fresh, absorb, append_automata, resolve_line}
use correlation_engine.Lines.Valid.{
  slot-append_end, slot-append_cases, resolve_line_old, resolve_line_new,
}
use correlation_engine.Lines.Replace.{replaced, slot-replaced}
use correlation_engine.Lines.Merge.{IsUnified, both_resolved}

module _ {P A : Type 0} (patterns : List P) (FitsIn : P → A → Type 0) where
  -- an entry of `automata`: the pattern exists, and every automaton fits it
  abbrev pub IsAllowed : ℕ × List A → Type 0
  IsAllowed e = (p : P) × (get_elem? patterns e.0 ≡ some p) × All (FitsIn p) e.1

  abbrev pub AreAllowed : Map (List A) → Type 0
  AreAllowed automata = All IsAllowed automata

  -- both entries are of one pattern, so their automata may stand in one list
  joined_entry :
      (pid : ℕ) (into autos : List A) (p : P)
      → get_elem? patterns pid ≡ some p
      → All (FitsIn p) autos
      → IsAllowed (pid, into)
      → IsAllowed (pid, into ++ autos)
  joined_entry pid into autos p at h (p', at', h') =
      let same : p' ≡ p = some_inj (sym at' ∙ at) in
      let moved : All (FitsIn p) into = subst (λ (q : P). All (FitsIn q) into) same h' in
      (p, at, All-append (FitsIn p) into autos moved h)

  pub added_entry :
      (pid : ℕ) (autos : List A) (m : Map (List A)) (p : P)
      → get_elem? patterns pid ≡ some p
      → All (FitsIn p) autos
      → AreAllowed m
      → AreAllowed (insert pid (get_or_default [] (get pid m) ++ autos) m)
  added_entry pid autos m p at h ok = elim (Option-cases (get pid m)) [
    | inl e ↦
        All-insert IsAllowed pid (get_or_default [] (get pid m) ++ autos) m (rw e (p, at, h)) ok
    | inr (old, e) ↦
        All-insert IsAllowed pid (get_or_default [] (get pid m) ++ autos) m
          (rw e (joined_entry pid old autos p at h (All-get IsAllowed pid m ok e))) ok
  ]

  pub append_automata-AreAllowed :
      (moved into : Map (List A))
      → AreAllowed moved
      → AreAllowed into
      → AreAllowed (append_automata moved into)
  unfolding append_automata
  append_automata-AreAllowed [] into h ok = ok
  append_automata-AreAllowed ((pid, autos) ∷ moved) into ((p, at, h), hs) ok =
      append_automata-AreAllowed moved (insert pid (get_or_default [] (get pid into) ++ autos) into)
        hs (added_entry pid autos into p at h ok)

  -- every storyline holds allowed automata
  abbrev pub SlotsAllowed : Lines A → Type 0
  SlotsAllowed s =
      (i : ℕ) (st : Storyline A) → slot s.storylines i ≡ some st → AreAllowed st.automata

  resolve_line-SlotsAllowed :
      (key : Key) (s : Lines A) → SlotsAllowed s → SlotsAllowed (resolve_line key s).1
  resolve_line-SlotsAllowed key s h = elim (Option-cases (get key s.line)) [
    | inl e ↦ rw (resolve_line_new key s e) λ i st at.
        elim (Bool-cases (i == length s.storylines)) [
          | inl end ↦
              let new_st : fresh key ≡ st = some_inj (
                sym (slot-append_end s.storylines (some (fresh key)))
                ∙ ap (slot (s.storylines ++ some (fresh key) ∷ []))
                    (sym ((==_iff i (length s.storylines)).0 end))
                ∙ at) in
              subst (λ (x : Storyline A). AreAllowed x.automata) new_st (unfold fresh in tt)
          | inr ne ↦ h i st (slot-append_cases s.storylines i (some (fresh key)) at (ground arith))
        ]
    | inr (l, e) ↦ rw (resolve_line_old key s e) h
  ]

  pub unified-SlotsAllowed :
      (a o : Key) (s : Lines A) (r : ℕ) (s' : Lines A)
      → IsUnified a o s r s'
      → SlotsAllowed s
      → SlotsAllowed s'
  unified-SlotsAllowed a o s r s' u h i st at = elim (u.joined.absorbed i st at) [
    | inl old ↦ resolved i st old
    | inr (m, d, j, k, at_m, at_d, e) ↦
        subst (λ (x : Storyline A). AreAllowed x.automata) e
          (unfold absorb in
            append_automata-AreAllowed m.automata d.automata (resolved j m at_m)
              (resolved k d at_d))
  ]
    where
      resolved : SlotsAllowed (both_resolved a o s)
      resolved = resolve_line-SlotsAllowed o (resolve_line a s).1 (resolve_line-SlotsAllowed a s h)

  -- one storyline replaced by one with allowed automata
  pub replaced-SlotsAllowed :
      (s : ℕ) (lines : Lines A) (st st' : Storyline A)
      → slot lines.storylines s ≡ some st
      → AreAllowed st'.automata
      → SlotsAllowed lines
      → SlotsAllowed (replaced s st' lines)
  replaced-SlotsAllowed s lines st st' at ok h i x at_x = elim (Bool-cases (i == s)) [
    | inl e ↦
        let here : st' ≡ x = some_inj (sym (slot-replaced lines s i st st' at ∙ rw e) ∙ at_x) in
        subst (λ (y : Storyline A). AreAllowed y.automata) here ok
    | inr ne ↦ h i x (sym (slot-replaced lines s i st st' at ∙ rw ne) ∙ at_x)
  ]
