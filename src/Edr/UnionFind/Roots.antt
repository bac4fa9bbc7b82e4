-- ===== src/Edr/UnionFind/Roots.antt =====
-- `find` of v1/engine/src/lib.rs returns the root, and changes no root.
use correlation_engine.Prelude.{
  ℕ, zero, suc, ◌<◌, ◌≤◌, ◌≡◌, ◌≢◌, refl, sym, ap, ◌∙◌, true, false, some, ◌==◌, ==_iff, arith,
  Bool-cases, some_inj, inl, inr,
}
use mathlib.Core.Path.{subst}
use correlation_engine.Prelude.Maps.{Map, get, insert, get-insert}
use correlation_engine.Edr.UnionFind.{find_root, compress, find}

-- `x` leads to the root `r` in `n` steps
pub data Leads (m : Map ℕ) : (x r n : ℕ) → Type 0 where
  here : {r : ℕ} → get r m ≡ some r → Leads m r r 0
  up : {x p r n : ℕ} → get x m ≡ some p → p ≢ x → Leads m p r n → Leads m x r (suc n)

pub root_of : {m : Map ℕ} {x r n : ℕ} → Leads m x r n → get r m ≡ some r
root_of (here e) = e
root_of (up e ne l) = root_of l

pub find_root-Leads :
    (m : Map ℕ) (fuel x r n : ℕ) → Leads m x r n → n < fuel → find_root fuel m x ≡ r
unfolding find_root
find_root-Leads m zero x r n l h = elim h [ ]
find_root-Leads m (suc fuel) _ r _ (here e) h =
    let self : (r == r) ≡ true = (==_iff r r).1 refl in rw e (rw self)
find_root-Leads m (suc fuel) x r _ (up {p = p} {n = n} e ne l) h =
    let other : (p == x) ≡ false = ground (arith, (==_iff p x).0) in
    rw e (rw other (find_root-Leads m fuel p r n l (omega arith)))

pub Leads-unique : (m : Map ℕ) (x r s n k : ℕ) → Leads m x r n → Leads m x s k → r ≡ s
Leads-unique m _ r _ _ _ (here e) (here e') = refl
Leads-unique m x _ s _ _ (here e) (up {p = p} f ne l) = absurd (ne (some_inj (sym f ∙ e)))
Leads-unique m x r _ _ _ (up {p = p} f ne l) (here e) = absurd (ne (some_inj (sym f ∙ e)))
Leads-unique m x r s _ _ (up {p = p} {n = n} f ne l) (up {p = q} {n = k} g ne' l') =
    let same : p ≡ q = some_inj (sym f ∙ g) in
    Leads-unique m q r s n k (subst (λ (y : ℕ). Leads m y r n) same l) l'

pub get-insert_self : (x v : ℕ) (m : Map ℕ) → get x (insert x v m) ≡ some v
get-insert_self x v m = ground (arith, get-insert x x v m)

pub get-insert_other : (x y v : ℕ) (m : Map ℕ) → y ≢ x → get y (insert x v m) ≡ get y m
get-insert_other x y v m ne = ground (arith, get-insert x y v m)

-- every root stays the root, and no way to it grows
abbrev pub Keeps : Map ℕ → Map ℕ → Type 0
Keeps m m' = (y s k : ℕ) → Leads m y s k → (k' : ℕ) × (k' ≤ k) × Leads m' y s k'

-- a storyline that gets its root as its parent
pub shortcut-Keeps : (m : Map ℕ) (x r n : ℕ) → x ≢ r → Leads m x r n → Keeps m (insert x r m)
shortcut-Keeps m x r n ne way _ s _ (here e) =
    let apart : s ≢ x = λ same.
      ne (Leads-unique m x x r 0 n (here (subst (λ (z : ℕ). get z m ≡ some z) same e)) way) in
    (0, omega arith, here (get-insert_other x s r m apart ∙ e))
shortcut-Keeps m x r n ne way y s _ (up {p = p} {n = k} e up_ne l) = elim (Bool-cases (y == x)) [
  | inl same ↦
      let is : y ≡ x = (==_iff y x).0 same in
      let ends : r ≡ s =
        Leads-unique m y r s n (suc k) (subst (λ (z : ℕ). Leads m z r n) (sym is) way)
          (up e up_ne l) in
      let direct : Leads (insert x r m) x r 1 =
        up (get-insert_self x r m) (λ b. ne (sym b))
          (here (get-insert_other x r r m (λ b. ne (sym b)) ∙ root_of way)) in
      (
        1,
        omega arith,
        subst (λ (z : ℕ). Leads (insert x r m) z s 1) (sym is)
            (subst (λ (z : ℕ). Leads (insert x r m) x z 1) ends direct),
      )
  | inr other ↦
      let (k', le, l') = shortcut-Keeps m x r n ne way p s k l in
      (
        suc k',
        omega arith,
        up (get-insert_other x y r m (λ b. absurd (cc (sym other ∙ (==_iff y x).1 b))) ∙ e) up_ne
            l',
      )
]

compress-Keeps :
    (fuel : ℕ) (m : Map ℕ) (x r n : ℕ) → Leads m x r n → n < fuel → Keeps m (compress fuel m r x)
unfolding compress
compress-Keeps zero m x r n way h = elim h [ ]
compress-Keeps (suc fuel) m _ r _ (here e) h =
    let self : (r == r) ≡ true = (==_iff r r).1 refl in
    rw e (rw self (λ y s k l. (k, omega arith, l)))
compress-Keeps (suc fuel) m x r _ (up {p = p} {n = n} e ne l) h = elim (Bool-cases (p == r)) [
  | inl last ↦ rw e (rw last (λ y s k way. (k, omega arith, way)))
  | inr more ↦
      let not_root : x ≢ r = λ same.
        ne (some_inj (sym e ∙ ap (λ (z : ℕ). get z m) same ∙ root_of l ∙ ap some (sym same))) in
      let keeps = shortcut-Keeps m x r (suc n) not_root (up e ne l) in
      let (n', le, l') = keeps p r n l in
      let rest = compress-Keeps fuel (insert x r m) p r n' l' (omega arith) in
      rw e (
        rw more (λ y s k way.
          let (k1, le1, l1) = keeps y s k way in
          let (k2, le2, l2) = rest y s k1 l1 in (k2, omega arith, l2)))
]

-- From a storyline with a root within the fuel, `find` returns this root, and its compression keeps the
-- root of every storyline and makes no way to a root longer.
pub find-Keeps :
    (fuel : ℕ) (m : Map ℕ) (x r n : ℕ)
    → Leads m x r n
    → n < fuel
    → ((find fuel m x).0 ≡ r) × Keeps m (find fuel m x).1
unfolding find
find-Keeps fuel m x r n way h =
    let found : find_root fuel m x ≡ r = find_root-Leads m fuel x r n way h in
    (found, rw found (compress-Keeps fuel m x r n way h))
