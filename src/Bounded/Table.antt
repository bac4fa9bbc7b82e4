-- ===== src/Bounded/Table.antt =====
-- The hash tables of engine_core/src/v0_0_2_bounded.rs: linear probing in a list of slots.
use correlation_engine.Prelude.{
  ℕ, zero, suc, ◌+◌, ◌-◌, ◌*◌, ◌/◌, ◌%◌, ◌^◌, ◌≡◌, ◌≢◌, refl, sym, ◌∙◌, ap, Option, none, some,
  List, bit_and, ◌==◌, ==_iff, if◌then◌else◌, arith, Bool-cases, Option-cases, some_inj, inl, inr,
}
use Prim.Native.Nat.{bit_xor}
use correlation_engine.Prelude.Lists.{
  get_elem?, set, get_elem?-set_self, get_elem?-set_ne, lt_of_get_elem?,
}
use correlation_engine.Event.{Key}

abbrev pub Slots {ℓ} : Type ℓ → Type ℓ
Slots V = List (Option (Key × V))

unfoldable pub hash_key : Key → ℕ
hash_key k = bit_xor (k % 2 ^ 64) (k / 2 ^ 64) * 0x9E3779B97F4A7C15 % 2 ^ 64 / 2 ^ 32

module _ {ℓ} {V : Type ℓ} where
  -- the walk that the loops of `resolve_line`, `find_line`, `dis_insert` and `dis_check` share: the
  -- first slot from `i` on that is unused or holds the key, in `n` rounds
  unfoldable pub walk : ℕ → ℕ → ℕ → Key → Slots V → Option ℕ
  walk zero size i key slots = none
  walk (suc n) size i key slots =
      let rest = walk n size (bit_and (i + 1) (size - 1)) key slots in
      elim (get_elem? slots i) [
        | none ↦ none
        | some none ↦ some i
        | some (some (k, v)) ↦ if k == key then some i else rest
      ]

  unfoldable pub probe : ℕ → Key → Slots V → Option ℕ
  unfolding walk hash_key
  probe size key slots = walk size size (bit_and (hash_key key) (size - 1)) key slots

  unfoldable pub value_at : ℕ → Slots V → Option V
  value_at i slots = elim (get_elem? slots i) [
    | none ↦ none
    | some none ↦ none
    | some (some (k, v)) ↦ some v
  ]

  -- What a walk finds: an unused slot, or the key's own.
  pub data Found (key : Key) (slots : Slots V) (j : ℕ) : Type ℓ where
    unused : get_elem? slots j ≡ some none → Found key slots j
    own : (v : V) → get_elem? slots j ≡ some (some (key, v)) → Found key slots j

  pub walk-Found :
      (n size i : ℕ) (key : Key) (slots : Slots V) (j : ℕ)
      → walk n size i key slots ≡ some j
      → Found key slots j
  unfolding walk
  walk-Found zero size i key slots j run = cc
  walk-Found (suc n) size i key slots j run = elim (Option-cases (get_elem? slots i)) [
    | inl e ↦ absurd (cc (rw (e, walk) at run))
    | inr (none, e) ↦ unused (ap (get_elem? slots) (some_inj (sym (rw (e, walk) at run))) ∙ e)
    | inr (some (k, v), e) ↦ elim (Bool-cases (k == key)) [
      | inl same ↦
          let here : i ≡ j = some_inj (rw same at (rw (e, walk) at run)) in
          own v (
            ap (get_elem? slots) (sym here)
            ∙ e
            ∙ ap (λ (x : ℕ). some (some (x, v))) ((==_iff k key).0 same))
      | inr other ↦
          walk-Found n size (bit_and (i + 1) (size - 1)) key slots j
            (rw other at (rw (e, walk) at run))
    ]
  ]

  -- A write keeps the key of every slot that holds one.
  pub holder-set :
      (i : ℕ) (slots : Slots V) (k' : Key) (v' : V) (at_slot : ℕ) (k : Key) (w : V)
      → get_elem? slots i ≡ some (some (k', v'))
      → Found k slots at_slot
      → (w' : V) × (get_elem? (set slots at_slot (some (k, w))) i ≡ some (some (k', w')))
        × ((at_slot ≡ i → (k ≡ k') × (w' ≡ w)) × (at_slot ≢ i → w' ≡ v'))
  holder-set i slots k' v' at_slot k w e f = elim (Bool-cases (at_slot == i)) [
    | inr ne ↦
        let apart : at_slot ≢ i = λ x. ground (arith, (==_iff at_slot i).1 x) in
        (v', get_elem?-set_ne slots (some (k, w)) apart ∙ e, ((λ x. absurd (apart x)), λ _. refl))
    | inl eq ↦
        let same : at_slot ≡ i = (==_iff at_slot i).0 eq in
        elim f [
          | unused free ↦ absurd (cc (same, free, e))
          | own v0 held ↦
              let keys : k ≡ k' = ap key_of (sym held ∙ ap (get_elem? slots) same ∙ e) in
              (
                w,
                ap (get_elem? (set slots at_slot (some (k, w)))) (sym same)
                    ∙ get_elem?-set_self slots at_slot (some (k, w))
                        (lt_of_get_elem? slots at_slot held)
                    ∙ ap (λ (x : Key). some (some (x, w))) keys,
                ((λ _. (keys, refl)), λ ne. absurd (ne same)),
              )
        ]
  ]
    where
      key_of : Option (Option (Key × V)) → Key
      key_of (some (some (x, y))) = x
      key_of _ = k

  -- A walk that finds the key's own slot finds it again after a write to a slot that was unused or held
  -- the key that is written.
  pub walk-set :
      (n size i : ℕ) (key : Key) (slots : Slots V) (j : ℕ) (v : V) (at_slot : ℕ) (k : Key) (w : V)
      → walk n size i key slots ≡ some j
      → get_elem? slots j ≡ some (some (key, v))
      → Found k slots at_slot
      → walk n size i key (set slots at_slot (some (k, w))) ≡ some j
  unfolding walk
  walk-set zero size i key slots j v at_slot k w run here f = cc
  walk-set (suc n) size i key slots j v at_slot k w run here f =
      elim (Option-cases (get_elem? slots i)) [
        | inl e ↦ absurd (cc (rw (e, walk) at run))
        | inr (none, e) ↦ absurd (cc (some_inj (rw (e, walk) at run), here, e))
        | inr (some (k', v'), e) ↦
            let (w', e', _) = holder-set i slots k' v' at_slot k w e f in
            elim (Bool-cases (k' == key)) [
              | inl same ↦ rw (e', walk) (rw same (rw same at (rw (e, walk) at run)))
              | inr other ↦
                  rw (e', walk)
                    (rw other (
                      walk-set n size (bit_and (i + 1) (size - 1)) key slots j v at_slot k w
                        (rw other at (rw (e, walk) at run)) here f))
            ]
      ]

  pub value_at-own :
      (i : ℕ) (slots : Slots V) (k : Key) (v : V)
      → get_elem? slots i ≡ some (some (k, v))
      → value_at i slots ≡ some v
  unfolding value_at
  value_at-own i slots k v e = rw (e, value_at) refl

  -- A slot with a value that a walk finds is the key's own.
  pub own_slot :
      (slots : Slots V) (key : Key) (j : ℕ) (v : V)
      → Found key slots j
      → value_at j slots ≡ some v
      → get_elem? slots j ≡ some (some (key, v))
  unfolding value_at
  own_slot slots key j v (unused free) e = absurd (cc (rw (free, value_at) at e))
  own_slot slots key j v (own v' held) e =
      held ∙ ap (λ (x : V). some (some (key, x))) (some_inj (rw (held, value_at) at e))
