-- ===== src/Edr/UnionFind/Fuel.antt =====
-- The loops of `find` of v1/engine/src/lib.rs end: their result does not depend on the fuel.
use correlation_engine.Prelude.{
  ℕ, zero, suc, ◌+◌, ◌<◌, ◌≡◌, ◌≢◌, refl, sym, ap, ◌∙◌, true, some, ◌==◌, ==_iff, arith, Bool-cases,
  some_inj, inl, inr,
}
use correlation_engine.Prelude.Maps.{Map, get, insert}
use correlation_engine.Edr.UnionFind.{compress, find}
use correlation_engine.Edr.UnionFind.Roots.{
  Leads, here, up, root_of, shortcut-Keeps, find_root-Leads,
}
use correlation_engine.Edr.UnionFind.Reached.{Reached, Reached-IsSane}

compress_fuel :
    (f g : ℕ) (m : Map ℕ) (x r n : ℕ)
    → Leads m x r n
    → n < f
    → n < g
    → compress f m r x ≡ compress g m r x
unfolding compress
compress_fuel zero g m x r n way h h' = elim h [ ]
compress_fuel (suc f) zero m x r n way h h' = elim h' [ ]
compress_fuel (suc f) (suc g) m _ r _ (here e) h h' =
    let self : (r == r) ≡ true = (==_iff r r).1 refl in rw e (rw self refl)
compress_fuel (suc f) (suc g) m x r _ (up {p = p} {n = n} e ne l) h h' =
    elim (Bool-cases (p == r)) [
      | inl last ↦ rw e (rw last refl)
      | inr more ↦
          let not_root : x ≢ r = λ same.
            ne (some_inj (sym e ∙ ap (λ (z : ℕ). get z m) same ∙ root_of l ∙ ap some (sym same))) in
          let (n', le, l') = shortcut-Keeps m x r (suc n) not_root (up e ne l) p r n l in
          rw e (rw more (compress_fuel f g (insert x r m) p r n' l' (omega arith) (omega arith)))
    ]

find_same :
    (f g : ℕ) (m : Map ℕ) (x r n : ℕ) → Leads m x r n → n < f → n < g → find f m x ≡ find g m x
unfolding find
find_same f g m x r n way h h' =
    rw (find_root-Leads m f x r n way h, find_root-Leads m g x r n way h')
      (ap (λ (z : Map ℕ). (r, z)) (compress_fuel f g m x r n way h h'))

-- After `h` calls of `unify`, both loops of `find` end within `h + 1` rounds: more fuel gives the same root
-- and the same map.
pub find_fuel :
    (m : Map ℕ) (n h x extra : ℕ)
    → Reached m n h
    → x < n
    → find (suc h + extra) m x ≡ find (suc h) m x
find_fuel m n h x extra r lt =
    let (s, k, way, le) = (Reached-IsSane m n h r).rooted x lt in
    find_same (suc h + extra) (suc h) m x s k way (omega arith) (omega arith)
