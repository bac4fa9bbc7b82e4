-- ===== src/Edr/UnionFind.antt =====
-- The union-find over storylines of v1/engine/src/lib.rs: `find` with its path compression, and what
-- `new_storyline` and `merge` do to `dsu_parent`. The loops run on fuel.
pub mod Roots
pub mod Merged
pub mod Reached
pub mod Fuel
use correlation_engine.Prelude.{ℕ, zero, suc, leb, not, Option, none, some, ◌==◌, if◌then◌else◌}
use correlation_engine.Edr.{Op, is_causal}
use correlation_engine.Prelude.Maps.{Map, get, insert}

-- one round of either loop, where the storyline has the parent `p`: it ends at the root
abbrev pub climb {ℓ} : {A : Type ℓ} → Option ℕ → ℕ → A → (ℕ → A) → A
climb none root done more = done
climb (some p) root done more = if p == root then done else more p

-- the first loop: up to a storyline that is its own parent
unfoldable pub find_root : ℕ → Map ℕ → ℕ → ℕ
find_root zero m root = root
find_root (suc fuel) m root = climb (get root m) root root (find_root fuel m)

-- the second loop: the storylines on the way get the root as their parent
unfoldable pub compress : ℕ → Map ℕ → ℕ → ℕ → Map ℕ
compress zero m root cur = m
compress (suc fuel) m root cur = climb (get cur m) root m (compress fuel (insert cur root m) root)

unfoldable pub find : ℕ → Map ℕ → ℕ → ℕ × Map ℕ
find fuel m sid = let root = find_root fuel m sid in (root, compress fuel m root sid)

-- `self.dsu_parent.insert(sid, sid)` of `new_storyline`
unfoldable pub add_root : ℕ → Map ℕ → Map ℕ
add_root sid m = insert sid sid m

-- `self.dsu_parent.insert(child, root)` of `merge`
unfoldable pub join_roots : (root child : ℕ) → Map ℕ → Map ℕ
join_roots root child m = insert child root m

-- The part of `unify` and `merge` that is about `dsu_parent`, for the storylines of the actor and of the
-- object. `automata` is the number of automata of a storyline, 0 for one that is not in `storylines`.
unfoldable pub unify : ℕ → Op → (automata : ℕ → ℕ) → Map ℕ → (actor object : ℕ) → ℕ × Map ℕ
unify fuel op automata m actor object =
    let (sa, m1) = find fuel m actor in
    let (so, m2) = find fuel m1 object in
    if not (is_causal op)
    then (sa, m1)
    else if sa == so
    then (sa, m2)
    else if leb (automata so) (automata sa)
    then (sa, join_roots sa so m2)
    else (so, join_roots so sa m2)
