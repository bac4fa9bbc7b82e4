-- ===== src/Graph/Nodes.antt =====
-- The lines that the graph's nodes carry, against `LINE` of v0_0_1.rs.
use correlation_engine.Prelude.{
  ℕ, ◌≡◌, refl, sym, ◌∙◌, ap, true, Option, none, some, List, [], ◌∷◌, ◌==◌, ==_iff, ==_refl,
  if◌then◌else◌, ◌>>=◌, arith, Bool-cases, Option-cases, inl, inr,
}
use correlation_engine.Prelude.Maps.{Map, get, insert, get-insert, contains}
use correlation_engine.Event.{Key, Kind}
use correlation_engine.Graph.{Node, resolve_node, relabel_nodes}

-- the line of a key, by its node
abbrev pub node_line : Key → Map Node → Option ℕ
node_line k nodes = get k nodes >>= λ n. n.line

abbrev pub HasNode : Map Node → Key → Type 0
HasNode nodes k = (n : Node) × (get k nodes ≡ some n)

pub record Covers (nodes : Map Node) (line : Map ℕ) : Type 0 where
  pub at : (k : Key) → node_line k nodes ≡ get k line

pub HasNode-insert :
    (nodes : Map Node) (k j : Key) (n : Node) → HasNode nodes j → HasNode (insert k n nodes) j
HasNode-insert nodes k j n (old, e) = elim (Bool-cases (k == j)) [
  | inl same ↦ (n, get-insert k j n nodes ∙ rw same)
  | inr ne ↦ (old, get-insert k j n nodes ∙ rw ne e)
]

pub node_line-insert :
    (nodes : Map Node) (k j : Key) (n : Node)
    → node_line j (insert k n nodes) ≡ (if k == j then n.line else node_line j nodes)
node_line-insert nodes k j n = elim (Bool-cases (k == j)) [
  | inl same ↦ rw (get-insert k j n nodes) (rw same)
  | inr ne ↦ rw (get-insert k j n nodes) (rw ne)
]

-- `resolve_node` gives the key a node and changes no line.
pub resolve_node_lem :
    (key : Key) (kind : Kind) (nodes : Map Node) (line : Map ℕ)
    → Covers nodes line
    → HasNode (resolve_node key kind nodes) key
      × Covers (resolve_node key kind nodes) line
      × ((k : Key) → HasNode nodes k → HasNode (resolve_node key kind nodes) k)
unfolding resolve_node
resolve_node_lem key kind nodes line c = elim (Option-cases (get key nodes)) [
  | inl e ↦
      let n : Node = record { kind = kind; line = none } in
      rw (e, resolve_node)
        (
          (n, get-insert key key n nodes ∙ rw (==_refl key)),
          record {
            at = λ k. node_line-insert nodes key k n ∙ elim (Bool-cases (key == k)) [
              | inl same ↦ rw same (
                  ap (λ (o : Option Node). o >>= λ x. x.line) (sym e)
                  ∙ ap (λ (x : ℕ). node_line x nodes) ((==_iff key k).0 same)
                  ∙ c.at k)
              | inr ne ↦ rw ne (c.at k)
            ];
          },
          λ k h. HasNode-insert nodes key k n h,
        )
  | inr (n, e) ↦ rw (e, resolve_node) ((n, e), c, λ k h. h)
]

-- `relabel_nodes` finds every node, and gives the nodes of `ks` the line `dst`.
pub relabel_nodes_lem :
    (ks : List Key) (dst : ℕ) (nodes : Map Node)
    → ((k : Key) → contains k ks ≡ true → HasNode nodes k)
    → (nodes' : Map Node) × (relabel_nodes ks dst nodes ≡ some nodes')
      × ((j : Key) → node_line j nodes' ≡ (if contains j ks then some dst else node_line j nodes))
      × ((j : Key) → HasNode nodes j → HasNode nodes' j)
unfolding relabel_nodes contains
relabel_nodes_lem [] dst nodes h = (nodes, refl, λ j. refl, λ j x. x)
relabel_nodes_lem (k ∷ ks) dst nodes h =
    let (n, e) = h k (ground (arith, ==_refl k)) in
    let n' : Node = record n { line = some dst } in
    let (nodes', run, at, keeps) =
      relabel_nodes_lem ks dst (insert k n' nodes)
        (λ j m. HasNode-insert nodes k j n' (h j (ground arith))) in
    (
      nodes',
      rw e run,
      λ j. at j ∙ ground (arith, node_line-insert nodes k j n'),
      λ j x. keeps j (HasNode-insert nodes k j n' x),
    )
