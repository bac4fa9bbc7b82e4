-- ===== src/Tests/Storylines.antt =====
-- Storylines of v1/engine/src/lib.rs.
use correlation_engine.Prelude.{ℕ, ◌+◌, ◌≡◌, refl, [], ◌∷◌, arith}
use correlation_engine.Prelude.Maps.{Map, get}
use correlation_engine.Edr.{Op, is_causal}
use correlation_engine.Edr.UnionFind.{find, add_root, unify}
use correlation_engine.Edr.UnionFind.Roots.{Leads, here, up, Keeps, find-Keeps}
use correlation_engine.Edr.UnionFind.Merged.{IsSane, IsMerged, unify-IsMerged}
use correlation_engine.Edr.UnionFind.Reached.{Reached, start, new_one, unified, Reached-IsSane}
use correlation_engine.Edr.UnionFind.Fuel.{find_fuel}

abbrev sizes : ℕ → ℕ
sizes s = s

-- three storylines, of which the first two became one
abbrev three : Map ℕ
three = add_root 2 (add_root 1 (add_root 0 []))

abbrev joined_once : Map ℕ
joined_once = (unify 1 Op.exec sizes three 0 1).1

joined_once-Reached : Reached joined_once 3 1
joined_once-Reached =
    unified 1 Op.exec sizes 0 1 (omega arith) (omega arith) (omega arith)
      (new_one (new_one (new_one start)))

Reached-IsSane_example : IsSane joined_once 3 1
Reached-IsSane_example = Reached-IsSane joined_once 3 1 joined_once-Reached

unify-IsMerged_example :
    let u = unify 2 Op.inject sizes joined_once 0 2 in IsMerged joined_once 0 2 u.0 u.1
unfolding is_causal
unify-IsMerged_example =
    unify-IsMerged 2 3 1 Op.inject sizes joined_once 0 2
      (Reached-IsSane joined_once 3 1 joined_once-Reached) (omega arith) (omega arith) (omega arith)
      refl

abbrev chain : Map ℕ
chain = (0, 1) ∷ (1, 2) ∷ (2, 2) ∷ []

chain-Leads : Leads chain 0 2 2
unfolding get
chain-Leads = up refl (omega arith) (up refl (omega arith) (here refl))

find-Keeps_example : ((find 3 chain 0).0 ≡ 2) × Keeps chain (find 3 chain 0).1
find-Keeps_example = find-Keeps 3 chain 0 2 2 chain-Leads (omega arith)

find_fuel_example : find (2 + 5) joined_once 0 ≡ find 2 joined_once 0
find_fuel_example = find_fuel joined_once 3 1 0 5 joined_once-Reached (omega arith)
