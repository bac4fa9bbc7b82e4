-- ===== src/Graph/Unify.antt =====
-- `unify_storyline` of base.rs does to the graph what that of v0_0_1.rs does to `LINE`.
use correlation_engine.Prelude.{
  ℕ, ◌≡◌, sym, ◌∙◌, ap, ◌≢◌, Option, none, some, List, leb, ◌==◌, ◌>>=◌, arith, Bool-cases,
  Option-cases, some_inj, inl, inr,
}
use mathlib.Core.Path.{subst}
use correlation_engine.Prelude.Lists.{length}
use correlation_engine.Prelude.Maps.{Map, get, insert, get-insert}
use correlation_engine.Event.{Key}
use correlation_engine.Event.OpSet.{OpSet}
use correlation_engine.Rules.{RuleSet}
use correlation_engine.Lines
use correlation_engine.Lines.{Storyline, Lines, slot, fresh, absorb, resolve_line}
use correlation_engine.Lines.Valid.{IsValid, get-relabel, resolve_line_old, resolve_line_new}
use correlation_engine.Lines.Move.{moved_to, emptied_dst, move_line_lem}
use correlation_engine.Lines.Merge.{
  IsUnified, both_resolved, line_of_actor, line_of_object, get-actor, get-object,
  both_resolved-IsValid,
}
use correlation_engine.Linear.{Automaton}
use correlation_engine.Graph.{
  Node, Edge, Engine, line_or_new, move_line, merge, merge_if_apart, unify_storyline,
}
use correlation_engine.Graph.Sweep.{append_automata-eq}
use correlation_engine.Graph.Nodes.{
  HasNode, Covers, node_line, node_line-insert, HasNode-insert, relabel_nodes_lem,
}

module _ (rules : RuleSet) (edges : List Edge) (disarmed : Map OpSet) where
  -- the graph engine with these nodes whose storylines are those of `s`
  abbrev pub view : Map Node → Lines Automaton → Engine
  view nodes s = record {
    rules = rules;
    nodes = nodes;
    edges = edges;
    storylines = s.storylines;
    disarmed = disarmed;
  }

  line_or_new_lem :
      (key : Key) (nodes : Map Node) (s : Lines Automaton)
      → Covers nodes s.line
      → HasNode nodes key
      → (nodes' : Map Node) × (line_or_new key (view nodes s)
          ≡ some ((resolve_line key s).0, view nodes' (resolve_line key s).1))
        × Covers nodes' (resolve_line key s).1.line
        × ((k : Key) → HasNode nodes k → HasNode nodes' k)
  unfolding line_or_new fresh
  line_or_new_lem key nodes s c (n, e) = elim (Option-cases n.line) [
    | inl no_line ↦
        let n' : Node = record n { line = some (length s.storylines) } in
        let new : get key s.line ≡ none = sym (c.at key) ∙ rw e no_line in
        rw (resolve_line_new key s new) (
          insert key n' nodes,
          rw e (rw no_line),
          record {
            at = λ k.
                node_line-insert nodes key k n'
                ∙ ground (arith, c.at k, get-insert key k (length s.storylines) s.line);
          },
          λ k h. HasNode-insert nodes key k n' h,
        )
    | inr (l, has) ↦
        let old : get key s.line ≡ some l = sym (c.at key) ∙ rw e has in
        rw (resolve_line_old key s old) (nodes, rw e (rw has), c, λ k h. h)
  ]

  -- both engines move the storyline `src` into `dst` alike
  move_line_agrees :
      (dst src : ℕ) (m d : Storyline Automaton) (nodes : Map Node) (s : Lines Automaton)
      → IsValid s
      → dst ≢ src
      → slot s.storylines src ≡ some m
      → slot s.storylines dst ≡ some d
      → Covers nodes s.line
      → (nodes' : Map Node) × (move_line dst src (view nodes s)
          ≡ some (view nodes' (moved_to dst src m d s)))
        × Covers nodes' (moved_to dst src m d s).line
        × ((k : Key) → HasNode nodes k → HasNode nodes' k)
  unfolding move_line absorb
  move_line_agrees dst src m d nodes s v apart at_src at_dst c =
      let (nodes', run, at, keeps) =
        relabel_nodes_lem m.members dst nodes
          (λ k mem. found k (c.at k ∙ v.listed k src m at_src mem)) in
      (
        nodes',
        rw at_src (
            rw run (
              rw (emptied_dst dst src m d s v apart at_src at_dst)
                (rw (append_automata-eq m.automata d.automata)))),
        record { at = λ j. at j ∙ ground (arith, c.at j, get-relabel j m.members dst s.line) },
        keeps,
      )
    where
      found : (k : Key) → node_line k nodes ≡ some src → HasNode nodes k
      found k h = elim (Option-cases (get k nodes)) [
        | inl e ↦ cc (rw e at h)
        | inr found_node ↦ found_node
      ]

  merge_agrees :
      (x y : ℕ) (mx my : Storyline Automaton) (nodes : Map Node) (s : Lines Automaton)
      → IsValid s
      → slot s.storylines x ≡ some mx
      → slot s.storylines y ≡ some my
      → Covers nodes s.line
      → (nodes' : Map Node) × (s' : Lines Automaton) × (merge_if_apart x y (view nodes s)
          ≡ some (view nodes' s'))
        × (Lines.merge_if_apart x y s ≡ some s')
        × Covers nodes' s'.line
        × ((k : Key) → HasNode nodes k → HasNode nodes' k)
  unfolding merge_if_apart merge Lines.merge_if_apart Lines.merge
  merge_agrees x y mx my nodes s v ax ay c = elim (Bool-cases (x == y)) [
    | inl e ↦ (nodes, s, rw e, rw e, c, λ k h. h)
    | inr ne ↦ elim (Bool-cases (leb (length my.members) (length mx.members))) [
      | inl big ↦
          let apart : x ≢ y = ground arith in
          let (nodes', run, c', keeps) = move_line_agrees x y my mx nodes s v apart ay ax c in
          (
            nodes',
            moved_to x y my mx s,
            rw ne (rw ax (rw ay (rw big run))),
            rw ne (rw ax (rw ay (rw big (move_line_lem x y my mx s v apart ay ax)))),
            c',
            keeps,
          )
      | inr small ↦
          let apart : y ≢ x = ground arith in
          let (nodes', run, c', keeps) = move_line_agrees y x mx my nodes s v apart ax ay c in
          (
            nodes',
            moved_to y x mx my s,
            rw ne (rw ax (rw ay (rw small run))),
            rw ne (rw ax (rw ay (rw small (move_line_lem y x mx my s v apart ax ay)))),
            c',
            keeps,
          )
    ]
  ]

  -- On nodes that carry the lines of `s`, both engines unify the same storylines.
  pub unify_agrees :
      (a o : Key) (nodes : Map Node) (s : Lines Automaton) (r : ℕ) (s' : Lines Automaton)
      → IsValid s
      → Covers nodes s.line
      → HasNode nodes a
      → HasNode nodes o
      → IsUnified a o s r s'
      → (nodes' : Map Node) × (unify_storyline a o (view nodes s) ≡ some (r, view nodes' s'))
        × Covers nodes' s'.line
  unfolding unify_storyline
  unify_agrees a o nodes s r s' v c ha ho u =
      let s2 = both_resolved a o s in
      let (nodes1, run1, c1, keeps1) = line_or_new_lem a nodes s c ha in
      let (nodes2, run2, c2, keeps2) =
        line_or_new_lem o nodes1 (resolve_line a s).1 c1 (keeps1 o ho) in
      let v2 : IsValid s2 = both_resolved-IsValid a o s v in
      let (mx, ax, _) = v2.labelled a (line_of_actor a s) (get-actor a o s) in
      let (my, ay, _) = v2.labelled o (line_of_object a o s) (get-object a o s) in
      let (nodes3, s3, run3, merged, c3, keeps3) =
        merge_agrees (line_of_actor a s) (line_of_object a o s) mx my nodes2 s2 v2 ax ay c2 in
      let same : s3 ≡ s' = some_inj (sym merged ∙ u.merge_run) in
      let c' : Covers nodes3 s'.line =
        subst (λ (x : Lines Automaton). Covers nodes3 x.line) same c3 in
      let (n, at) = keeps3 a (keeps2 a (keeps1 a ha)) in
      let named : n.line ≡ some r =
        ap (λ (x : Option Node). x >>= λ y. y.line) (sym at) ∙ c'.at a ∙ u.actor_in in
      (
        nodes3,
        rw run1 (
            rw run2 (
              rw run3
                (rw at (rw named (ap (λ (x : Lines Automaton). some (r, view nodes3 x)) same))))),
        c',
      )
