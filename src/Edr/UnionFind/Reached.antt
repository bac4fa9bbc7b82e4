-- ===== src/Edr/UnionFind/Reached.antt =====
-- The states of the union-find of v1/engine/src/lib.rs: what new storylines, calls of `find` and calls of
-- `unify` make of the empty map.
use correlation_engine.Prelude.{
  ℕ, suc, ◌<◌, ◌≡◌, refl, sym, ap, ◌∙◌, false, none, some, [], ◌==◌, ==_iff, leb, arith, Bool-cases,
  inl, inr,
}
use mathlib.Core.Path.{subst}
use correlation_engine.Prelude.Maps.{Map, get, insert}
use correlation_engine.Edr.{Op, is_causal}
use correlation_engine.Edr.UnionFind.{find, add_root, join_roots, unify}
use correlation_engine.Edr.UnionFind.Roots.{
  Leads, here, up, root_of, get-insert_self, get-insert_other, find-Keeps,
}
use correlation_engine.Edr.UnionFind.Merged.{
  Ends, insert-Ends, known, compress-Ends, IsSane, merged, both_found, unify-IsMerged,
}

-- `n` storylines, after at most `h` calls of `unify`
pub data Reached : (m : Map ℕ) (n h : ℕ) → Type 0 where
  start : Reached [] 0 0
  new_one : {m : Map ℕ} {n h : ℕ} → Reached m n h → Reached (add_root n m) (suc n) h
  found :
      {m : Map ℕ} {n h : ℕ} (fuel x : ℕ)
      → h < fuel
      → x < n
      → Reached m n h
      → Reached (find fuel m x).1 n h
  unified :
      {m : Map ℕ} {n h : ℕ} (fuel : ℕ) (op : Op) (automata : ℕ → ℕ) (x y : ℕ)
      → h < fuel
      → x < n
      → y < n
      → Reached m n h
      → Reached (unify fuel op automata m x y).1 n (suc h)

add_root-Leads :
    (m : Map ℕ) (n : ℕ) → get n m ≡ none → (x r k : ℕ) → Leads m x r k → Leads (add_root n m) x r k
unfolding add_root
add_root-Leads m n free _ r _ (here e) = here (
    get-insert_other n r n m (λ b. absurd (cc (sym free ∙ ap (λ (z : ℕ). get z m) (sym b) ∙ e)))
    ∙ e)
add_root-Leads m n free x r _ (up {p = p} {n = k} e ne l) =
    up
      (get-insert_other n x n m (λ b. absurd (cc (sym free ∙ ap (λ (z : ℕ). get z m) (sym b) ∙ e)))
        ∙ e)
      ne (add_root-Leads m n free p r k l)

add_root-IsSane : (m : Map ℕ) (n h : ℕ) → IsSane m n h → IsSane (add_root n m) (suc n) h
unfolding add_root
add_root-IsSane m n h sane = record {
  ends = insert-Ends m (suc n) n n (λ y le. sane.ends y (omega arith)) (omega arith);
  rooted = λ x lt. elim (Bool-cases (x == n)) [
    | inl same ↦
        let is : x ≡ n = (==_iff x n).0 same in
        (
          n,
          0,
          subst (λ (z : ℕ). Leads (insert n n m) z n 0) (sym is) (here (get-insert_self n n m)),
          omega arith,
        )
    | inr other ↦
        let (r, k, l, le) = sane.rooted x (ground (arith, (==_iff x n).1)) in
        (r, k, add_root-Leads m n (sane.ends n (omega arith)) x r k l, le)
  ];
}

find-Ends : (fuel : ℕ) (m : Map ℕ) (n x : ℕ) → Ends m n → Ends (find fuel m x).1 n
unfolding find
find-Ends fuel m n x h = compress-Ends fuel m n _ x h

find-IsSane :
    (fuel : ℕ) (m : Map ℕ) (n h x : ℕ)
    → h < fuel
    → x < n
    → IsSane m n h
    → IsSane (find fuel m x).1 n h
find-IsSane fuel m n h x enough lt sane =
    let (r, k, way, le) = sane.rooted x lt in
    let keeps = (find-Keeps fuel m x r k way (omega arith)).1 in
    record {
      ends = find-Ends fuel m n x sane.ends;
      rooted = λ y py.
          let (s, i, w, le1) = sane.rooted y py in
          let (i', le2, w') = keeps y s i w in (s, i', w', omega arith);
    }

unify-Ends :
    (fuel n h : ℕ) (op : Op) (automata : ℕ → ℕ) (m : Map ℕ) (x y : ℕ)
    → IsSane m n h
    → h < fuel
    → x < n
    → y < n
    → Ends (unify fuel op automata m x y).1 n
unfolding unify join_roots
unify-Ends fuel n h op automata m x y sane enough px py =
    let f = both_found fuel n h m x y sane enough px py in
    let m2 = (find fuel (find fuel m x).1 y).1 in
    let first : Ends (find fuel m x).1 n = find-Ends fuel m n x sane.ends in
    let both : Ends m2 n = find-Ends fuel (find fuel m x).1 n y first in
    let is_a : get f.a m2 ≡ some f.a = (let (i, le, w) = f.keeps x f.a f.j f.way_x in root_of w) in
    let is_b : get f.b m2 ≡ some f.b = (let (i, le, w) = f.keeps y f.b f.k f.way_y in root_of w) in
    elim (Bool-cases (is_causal op)) [
      | inr plain ↦ rw plain first
      | inl causal ↦
          rw (causal, f.first, f.second)
            (elim (Bool-cases (f.a == f.b)) [
              | inl same ↦ rw same both
              | inr apart ↦ elim (Bool-cases (leb (automata f.b) (automata f.a))) [
                | inl left ↦
                    rw (apart, left) (insert-Ends m2 n f.b f.a both (known m2 n f.b f.b both is_b))
                | inr right ↦
                    rw (apart, right) (insert-Ends m2 n f.a f.b both (known m2 n f.a f.a both is_a))
              ]
            ])
    ]

unify_plain :
    (fuel : ℕ) (op : Op) (automata : ℕ → ℕ) (m : Map ℕ) (x y : ℕ)
    → is_causal op ≡ false
    → (unify fuel op automata m x y).1 ≡ (find fuel m x).1
unfolding unify
unify_plain fuel op automata m x y plain = rw plain refl

unify-IsSane :
    (fuel n h : ℕ) (op : Op) (automata : ℕ → ℕ) (m : Map ℕ) (x y : ℕ)
    → IsSane m n h
    → h < fuel
    → x < n
    → y < n
    → IsSane (unify fuel op automata m x y).1 n (suc h)
unify-IsSane fuel n h op automata m x y sane enough px py = record {
  ends = unify-Ends fuel n h op automata m x y sane enough px py;
  rooted = λ z pz. elim (Bool-cases (is_causal op)) [
    | inl causal ↦
        let u = unify-IsMerged fuel n h op automata m x y sane enough px py causal in
        let (s, k, w, le) = sane.rooted z pz in
        let (k', le', w') = u.others z s k w in
        (merged u.a u.b (unify fuel op automata m x y).0 s, k', w', omega arith)
    | inr plain ↦
        let (s, k, w, le) = (find-IsSane fuel m n h x enough px sane).rooted z pz in
        (s, k, rw (unify_plain fuel op automata m x y plain) w, omega arith)
  ];
}

-- Storylines are the numbers below the count of those made, each has a root, and the way to it is no longer
-- than the number of calls of `unify` so far.
pub Reached-IsSane : (m : Map ℕ) (n h : ℕ) → Reached m n h → IsSane m n h
unfolding get
Reached-IsSane _ _ _ start = record { ends = λ y le. refl; rooted = λ x lt. elim lt [ ] }
Reached-IsSane _ _ _ (new_one {m = m} {n = n} {h = h} r) =
    add_root-IsSane m n h (Reached-IsSane m n h r)
Reached-IsSane _ _ _ (found {m = m} {n = n} {h = h} fuel x enough lt r) =
    find-IsSane fuel m n h x enough lt (Reached-IsSane m n h r)
Reached-IsSane _ _ _ (unified {m = m} {n = n} {h = h} fuel op automata x y enough px py r) =
    unify-IsSane fuel n h op automata m x y (Reached-IsSane m n h r) enough px py
