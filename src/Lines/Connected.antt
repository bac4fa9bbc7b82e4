-- ===== src/Lines/Connected.antt =====
-- The storylines are the connected components of the edges that were unified: the specification that
-- the comments of v0_0_1.rs and v0_0_2.rs give for `Storyline`.
use correlation_engine.Prelude.{
  ℕ, ◌≡◌, refl, sym, ◌∙◌, ap, ◌≢◌, ◌⊎◌, true, ◌||◌, some, List, [], ◌∷◌, ◌==◌, if◌then◌else◌, arith,
  Bool-cases, Option-cases, inl, inr,
}
use mathlib.Core.Path.{subst}
use correlation_engine.Prelude.Lists.{length}
use correlation_engine.Prelude.Maps.{get}
use correlation_engine.Event.{Key}
use correlation_engine.Lines.{Lines, no_lines, resolve_line}
use correlation_engine.Lines.Valid.{
  IsValid, no_lines-IsValid, slot-lt, resolve_line_old, resolve_line_new, resolve_line_keeps,
  get-resolve_line, resolve_line-IsValid,
}
use correlation_engine.Lines.Merge.{
  IsUnified, both_resolved, line_of_actor, line_of_object, get-actor, get-object,
}

-- Joined by a chain of the edges, newest first, each taken either way.
pub data Linked : List (Key × Key) → Key → Key → Type 0 where
  edge : {es : List (Key × Key)} (a o : Key) → Linked ((a, o) ∷ es) a o
  older : {es : List (Key × Key)} (e : Key × Key) {j k : Key} → Linked es j k → Linked (e ∷ es) j k
  turn : {es : List (Key × Key)} {j k : Key} → Linked es j k → Linked es k j
  via : {es : List (Key × Key)} {j k l : Key} → Linked es j k → Linked es k l → Linked es j l

not-Linked-nil : {es : List (Key × Key)} {j k : Key} → es ≡ [] → Linked es j k → ⊥
not-Linked-nil e (edge a o) = cc
not-Linked-nil e (older x d) = cc
not-Linked-nil e (turn d) = not-Linked-nil e d
not-Linked-nil e (via d d') = not-Linked-nil e d

newest : {e e' : Key × Key} {es es' : List (Key × Key)} → e ∷ es ≡ e' ∷ es' → e ≡ e'
newest h = cc

rest : {e e' : Key × Key} {es es' : List (Key × Key)} → e ∷ es ≡ e' ∷ es' → es ≡ es'
rest h = cc

module _ {ℓ} {A : Type ℓ} where
  -- `LINE` has both keys, in one storyline
  abbrev pub SameLine : Lines A → Key → Key → Type 0
  SameLine s j k = (l : ℕ) × (get j s.line ≡ some l) × (get k s.line ≡ some l)

  pub record IsPartition (es : List (Key × Key)) (s : Lines A) : Type ℓ where
    pub valid : IsValid s
    pub linked : (j k : Key) → SameLine s j k → Linked es j k
    pub together : (j k : Key) → Linked es j k → SameLine s j k

  pub no_lines-IsPartition : IsPartition [] no_lines
  unfolding no_lines get
  no_lines-IsPartition = record {
    valid = no_lines-IsValid;
    linked = λ j k (l, p, q). cc;
    together = λ j k d. absurd (not-Linked-nil refl d);
  }

  no_line_at_end :
      (s : Lines A) → IsValid s → (k l : ℕ) → l ≡ length s.storylines → get k s.line ≢ some l
  no_line_at_end s v k l e h =
      let (st, at, mem) = v.labelled k l h in omega (arith, slot-lt s.storylines l at)

  -- After `resolve_line key` a line that two keys share was shared before, or both are `key`.
  resolve_line_same :
      (key : Key) (s : Lines A)
      → IsValid s
      → (j k : Key) → SameLine (resolve_line key s).1 j k
      → SameLine s j k ⊎ ((j ≡ key) × (k ≡ key))
  resolve_line_same key s v j k (l, p, q) = elim (Option-cases (get key s.line)) [
    | inr (l', e) ↦
        let same : (resolve_line key s).1 ≡ s = rw (resolve_line_old key s e) in
        inl (
          l,
          ap (λ (t : Lines A). get j t.line) (sym same) ∙ p,
          ap (λ (t : Lines A). get k t.line) (sym same) ∙ q,
        )
    | inl e ↦
        let new : (resolve_line key s).0 ≡ length s.storylines = rw (resolve_line_new key s e) in
        elim (Bool-cases (key == j)) [
          | inl at_j ↦ elim (Bool-cases (key == k)) [
            | inl at_k ↦ inr (ground arith, ground arith)
            | inr off_k ↦ absurd (
                no_line_at_end s v k l (ground (arith, get-resolve_line key s j))
                  (ground (arith, get-resolve_line key s k)))
          ]
          | inr off_j ↦ elim (Bool-cases (key == k)) [
            | inl at_k ↦ absurd (
                no_line_at_end s v j l (ground (arith, get-resolve_line key s k))
                  (ground (arith, get-resolve_line key s j)))
            | inr off_k ↦ inl (
              l,
              ground (arith, get-resolve_line key s j),
              ground (arith, get-resolve_line key s k),
            )
          ]
        ]
  ]

module _ {ℓ} {A : Type ℓ} (es : List (Key × Key)) (s : Lines A) (h : IsPartition es s)
    (a o : Key) where
  self_actor : Linked ((a, o) ∷ es) a a
  self_actor = via (edge a o) (turn (edge a o))

  self_object : Linked ((a, o) ∷ es) o o
  self_object = via (turn (edge a o)) (edge a o)

  Linked-resolved : (j k : Key) → SameLine (both_resolved a o s) j k → Linked ((a, o) ∷ es) j k
  Linked-resolved j k same =
      elim (resolve_line_same o (resolve_line a s).1 (resolve_line-IsValid a s h.valid) j k same) [
        | inl before ↦ elim (resolve_line_same a s h.valid j k before) [
          | inl old ↦ older (a, o) (h.linked j k old)
          | inr (p, q) ↦ rw (p, q) self_actor
        ]
        | inr (p, q) ↦ rw (p, q) self_object
      ]

  together_resolved : (j k : Key) → SameLine s j k → SameLine (both_resolved a o s) j k
  together_resolved j k (l, p, q) = (
    l,
    resolve_line_keeps o (resolve_line a s).1 j (resolve_line_keeps a s j p),
    resolve_line_keeps o (resolve_line a s).1 k (resolve_line_keeps a s k q),
  )

  module _ (r : ℕ) (s' : Lines A) (u : IsUnified a o s r s') where
    -- every key of the new storyline is linked to the actor
    Linked-target :
        (j : Key) (l : ℕ)
        → get j (both_resolved a o s).line ≡ some l
        → (l == line_of_actor a s || l == line_of_object a o s) ≡ true
        → Linked ((a, o) ∷ es) j a
    Linked-target j l p hit = elim (Bool-cases (l == line_of_actor a s)) [
      | inl e ↦ Linked-resolved j a (l, p, ground (arith, get-actor a o s))
      | inr ne ↦
          via (Linked-resolved j o (l, p, ground (arith, get-object a o s))) (turn (edge a o))
    ]

    Linked-after : (j k : Key) → SameLine s' j k → Linked ((a, o) ∷ es) j k
    Linked-after j k (l, p, q) = elim (Option-cases (get j (both_resolved a o s).line)) [
      | inl e ↦ cc (p, u.joined.untouched j e)
      | inr (lj, ej) ↦ elim (Option-cases (get k (both_resolved a o s).line)) [
        | inl e ↦ cc (q, u.joined.untouched k e)
        | inr (lk, ek) ↦
            let hit = λ (x : ℕ). x == line_of_actor a s || x == line_of_object a o s in
            elim (Bool-cases (hit lj)) [
              | inl hj ↦ elim (Bool-cases (hit lk)) [
                | inl hk ↦ via (Linked-target j lj ej hj) (turn (Linked-target k lk ek hk))
                | inr nk ↦ absurd (
                    ground (
                      arith,
                      u.joined.relabelled j lj ej,
                      u.joined.relabelled k lk ek,
                      u.joined.target,
                    ))
              ]
              | inr nj ↦
                  let same : lk ≡ lj = ground (
                    arith,
                    u.joined.relabelled j lj ej,
                    u.joined.relabelled k lk ek,
                    u.joined.target,
                  ) in
                  Linked-resolved j k (lj, ej, ek ∙ ap some same)
            ]
      ]
    ]

    kept_after : (j k : Key) → SameLine s j k → SameLine s' j k
    kept_after j k same =
        let (l, p, q) = together_resolved j k same in
        (
          if l == line_of_actor a s || l == line_of_object a o s then r else l,
          u.joined.relabelled j l p,
          u.joined.relabelled k l q,
        )

    together_after :
        {es' : List (Key × Key)} (j k : Key) → es' ≡ (a, o) ∷ es → Linked es' j k → SameLine s' j k
    together_after j k e (edge a' o') = (
      r,
      ap (λ (x : Key). get x s'.line) (ap (λ (p : Key × Key). p.0) (newest e)) ∙ u.actor_in,
      ap (λ (x : Key). get x s'.line) (ap (λ (p : Key × Key). p.1) (newest e)) ∙ u.object_in,
    )
    together_after j k e (older x d) =
        kept_after j k (h.together j k (subst (λ t. Linked t j k) (rest e) d))
    together_after j k e (turn d) = let (l, p, q) = together_after k j e d in (l, q, p)
    together_after j l e (via {k = k} d d') =
        let (x, p, q) = together_after j k e d in
        let (y, p', q') = together_after k l e d' in (x, p, q' ∙ sym p' ∙ q)

    -- Unifying one more edge keeps the storylines the connected components.
    pub unify_storyline-IsPartition : IsPartition ((a, o) ∷ es) s'
    unify_storyline-IsPartition = record {
      valid = u.joined.valid;
      linked = Linked-after;
      together = λ j k d. together_after j k refl d;
    }
