-- ===== src/Edr/UnionFind/Merged.antt =====
-- `unify` of v1/engine/src/lib.rs makes one storyline of two, and leaves the others alone.
use correlation_engine.Prelude.{
  ℕ, zero, suc, ◌<◌, ◌≤◌, ◌≡◌, ◌≢◌, refl, sym, ap, ◌∙◌, true, ◌||◌, ◌⊎◌, none, some, ◌==◌, ==_iff,
  leb, ltb, if◌then◌else◌, arith, Bool-cases, Option-cases, some_inj, inl, inr,
}
use mathlib.Core.Path.{subst}
use correlation_engine.Prelude.Maps.{Map, get, insert}
use correlation_engine.Edr.{Op, is_causal}
use correlation_engine.Edr.UnionFind.{compress, find, join_roots, unify}
use correlation_engine.Edr.UnionFind.Roots.{
  Leads, here, up, root_of, Keeps, get-insert_self, get-insert_other, find-Keeps, Leads-unique,
}

-- the root that a storyline with the root `s` has once `child` is under `root`
abbrev pub joined : ℕ → ℕ → ℕ → ℕ
joined root child s = if s == child then root else s

join_roots-Leads :
    (m : Map ℕ) (root child : ℕ)
    → get root m ≡ some root
    → get child m ≡ some child
    → root ≢ child
    → (y s k : ℕ) → Leads m y s k
    → (k' : ℕ) × (k' ≤ suc k) × Leads (join_roots root child m) y (joined root child s) k'
unfolding join_roots
join_roots-Leads m root child er ec ne _ s _ (here e) = elim (Bool-cases (s == child)) [
  | inl same ↦
      let is : s ≡ child = (==_iff s child).0 same in
      rw same (
        1,
        omega arith,
        subst (λ (z : ℕ). Leads (insert child root m) z root 1) (sym is)
            (up (get-insert_self child root m) ne
              (here (get-insert_other child root root m ne ∙ er))),
      )
  | inr other ↦
      let apart : s ≢ child = λ b. absurd (cc (sym other ∙ (==_iff s child).1 b)) in
      rw other (0, omega arith, here (get-insert_other child s root m apart ∙ e))
]
join_roots-Leads m root child er ec ne y s _ (up {p = p} {n = k} e up_ne l) =
    let (k', le, l') = join_roots-Leads m root child er ec ne p s k l in
    let apart : y ≢ child =
      λ b. up_ne (some_inj (sym e ∙ ap (λ (z : ℕ). get z m) b ∙ ec) ∙ sym b) in
    (suc k', omega arith, up (get-insert_other child y root m apart ∙ e) up_ne l')

-- no storyline from `n` on
abbrev pub Ends : Map ℕ → ℕ → Type 0
Ends m n = (y : ℕ) → n ≤ y → get y m ≡ none

pub insert-Ends : (m : Map ℕ) (n x v : ℕ) → Ends m n → x < n → Ends (insert x v m) n
insert-Ends m n x v h lt y le = get-insert_other x y v m (λ b. absurd (omega arith)) ∙ h y le

pub known : (m : Map ℕ) (n x v : ℕ) → Ends m n → get x m ≡ some v → x < n
known m n x v h e = elim (Bool-cases (ltb x n)) [
  | inl lt ↦ ground arith
  | inr ge ↦ absurd (cc (sym e ∙ h x (ground arith)))
]

pub compress-Ends :
    (fuel : ℕ) (m : Map ℕ) (n root x : ℕ) → Ends m n → Ends (compress fuel m root x) n
unfolding compress
compress-Ends zero m n root x h = h
compress-Ends (suc fuel) m n root x h = elim (Option-cases (get x m)) [
  | inl e ↦ rw e h
  | inr (p, e) ↦ elim (Bool-cases (p == root)) [
    | inl last ↦ rw e (rw last h)
    | inr more ↦ rw e (
        rw more (
          compress-Ends fuel (insert x root m) n root p
            (insert-Ends m n x root h (known m n x p h e))))
  ]
]

-- `n` storylines, each with a root at most `h` steps away
pub record IsSane (m : Map ℕ) (n h : ℕ) : Type 0 where
  pub ends : Ends m n
  pub rooted : (x : ℕ) → x < n → (r : ℕ) × (k : ℕ) × Leads m x r k × (k ≤ h)

-- what becomes of a root when the storylines with the roots `a` and `b` are one with the root `r`
abbrev pub merged : ℕ → ℕ → ℕ → ℕ → ℕ
merged a b r s = if s == a || s == b then r else s

-- What `unify` on a causal operation has done when it returns `r` and `m'`.
pub record IsMerged (m : Map ℕ) (x y r : ℕ) (m' : Map ℕ) : Type 0 where
  pub a : ℕ
  pub b : ℕ
  pub root_x : (s k : ℕ) → Leads m x s k → s ≡ a
  pub root_y : (s k : ℕ) → Leads m y s k → s ≡ b
  pub one_of : (r ≡ a) ⊎ (r ≡ b)
  pub others :
      (z s k : ℕ) → Leads m z s k → (k' : ℕ) × (k' ≤ suc k) × Leads m' z (merged a b r s) k'

-- the two storylines after both calls of `find`
pub record BothFound (fuel : ℕ) (m : Map ℕ) (x y : ℕ) : Type 0 where
  pub a : ℕ
  pub b : ℕ
  pub j : ℕ
  pub k : ℕ
  pub way_x : Leads m x a j
  pub way_y : Leads m y b k
  pub first : (find fuel m x).0 ≡ a
  pub second : (find fuel (find fuel m x).1 y).0 ≡ b
  pub keeps_one : Keeps m (find fuel m x).1
  pub keeps : Keeps m (find fuel (find fuel m x).1 y).1

pub both_found :
    (fuel n h : ℕ) (m : Map ℕ) (x y : ℕ)
    → IsSane m n h
    → h < fuel
    → x < n
    → y < n
    → BothFound fuel m x y
both_found fuel n h m x y sane enough px py =
    let (a, j, way_x, jh) = sane.rooted x px in
    let (b, k, way_y, kh) = sane.rooted y py in
    let (first, keep) = find-Keeps fuel m x a j way_x (omega arith) in
    let (k', le, way) = keep y b k way_y in
    let (second, keep') = find-Keeps fuel (find fuel m x).1 y b k' way (omega arith) in
    record {
      a = a;
      b = b;
      j = j;
      k = k;
      way_x = way_x;
      way_y = way_y;
      first = first;
      second = second;
      keeps_one = keep;
      keeps = λ z s i way_z.
          let (i1, le1, w1) = keep z s i way_z in
          let (i2, le2, w2) = keep' z s i1 w1 in (i2, omega arith, w2);
    }

merged_same : (a b s : ℕ) → a ≡ b → s ≡ merged a b a s
merged_same a b s e = ground arith

merged_left : (a b s : ℕ) → joined a b s ≡ merged a b a s
merged_left a b s = ground arith

merged_right : (a b s : ℕ) → joined b a s ≡ merged a b b s
merged_right a b s = ground arith

-- Where every storyline has a root within the fuel, both storylines of a causal operation become one,
-- whose root is one of their two roots, and every other storyline keeps its root.
pub unify-IsMerged :
    (fuel n h : ℕ) (op : Op) (automata : ℕ → ℕ) (m : Map ℕ) (x y : ℕ)
    → IsSane m n h
    → h < fuel
    → x < n
    → y < n
    → is_causal op ≡ true
    → (let u = unify fuel op automata m x y in IsMerged m x y u.0 u.1)
unfolding unify
unify-IsMerged fuel n h op automata m x y sane enough px py causal =
    let f = both_found fuel n h m x y sane enough px py in
    let m2 = (find fuel (find fuel m x).1 y).1 in
    let root_a = λ (s : ℕ) (k : ℕ) (l : Leads m x s k). Leads-unique m x s f.a k f.j l f.way_x in
    let root_b = λ (s : ℕ) (k : ℕ) (l : Leads m y s k). Leads-unique m y s f.b k f.k l f.way_y in
    let is_a : get f.a m2 ≡ some f.a = (let (i, le, w) = f.keeps x f.a f.j f.way_x in root_of w) in
    let is_b : get f.b m2 ≡ some f.b = (let (i, le, w) = f.keeps y f.b f.k f.way_y in root_of w) in
    rw (causal, f.first, f.second)
      (elim (Bool-cases (f.a == f.b)) [
        | inl same ↦ rw same (record {
          a = f.a;
          b = f.b;
          root_x = root_a;
          root_y = root_b;
          one_of = inl refl;
          others = λ z s i l.
              let (i', le, w) = f.keeps z s i l in
              (
                i',
                omega arith,
                subst (λ (t : ℕ). Leads m2 z t i') (merged_same f.a f.b s ((==_iff f.a f.b).0 same))
                    w,
              );
        })
        | inr apart ↦
            let ne : f.a ≢ f.b = λ e. absurd (cc (sym apart ∙ (==_iff f.a f.b).1 e)) in
            elim (Bool-cases (leb (automata f.b) (automata f.a))) [
              | inl left ↦ rw apart (
                  rw left (record {
                    a = f.a;
                    b = f.b;
                    root_x = root_a;
                    root_y = root_b;
                    one_of = inl refl;
                    others = λ z s i l.
                        let (i1, le1, w1) = f.keeps z s i l in
                        let (i2, le2, w2) = join_roots-Leads m2 f.a f.b is_a is_b ne z s i1 w1 in
                        (
                          i2,
                          omega arith,
                          subst (λ (t : ℕ). Leads (join_roots f.a f.b m2) z t i2)
                              (merged_left f.a f.b s) w2,
                        );
                  }))
              | inr right ↦ rw apart (
                  rw right (record {
                    a = f.a;
                    b = f.b;
                    root_x = root_a;
                    root_y = root_b;
                    one_of = inr refl;
                    others = λ z s i l.
                        let (i1, le1, w1) = f.keeps z s i l in
                        let (i2, le2, w2) =
                          join_roots-Leads m2 f.b f.a is_b is_a (λ e. ne (sym e)) z s i1 w1 in
                        (
                          i2,
                          omega arith,
                          subst (λ (t : ℕ). Leads (join_roots f.b f.a m2) z t i2)
                              (merged_right f.a f.b s) w2,
                        );
                  }))
            ]
      ])
