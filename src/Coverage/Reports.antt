-- ===== src/Coverage/Reports.antt =====
-- What the reachability and termination reports say of the workflow's graph.
use dippin_lang.Base.{
  Str, List, [], ◌∷◌, ◌≡◌, ◌↔◌, inl, In, arith, true, ==_iff, not, contains_iff, contains, length,
  refl, In-sort_strings, select, eqb, eqb_iff, suc,
}
use dippin_lang.Ir.{Workflow, Node}
use dippin_lang.Ir.Arc.{Reach, here, step, Reach-trans, ids}
use dippin_lang.Search.{Adjacency}
use dippin_lang.Search.Correct.{Walk, bfs_iff_Walk}
use dippin_lang.Search.Correct
use dippin_lang.Coverage.Defs.{
  build_forward_adjacency, build_reverse_adjacency, bfs_from, outside, find_unreachable_nodes,
  analyze_reachability, find_sink_nodes, analyze_termination,
}
use dippin_lang.Coverage.Graph.{forward_iff_Arc, reverse_iff_Arc}

module _ (w : Workflow) where
  forward_Walk→Reach : {u v : Str} → Walk (build_forward_adjacency w) u v → Reach w u v
  forward_Walk→Reach Correct.here = here
  forward_Walk→Reach (Correct.step {u} {v} p m) =
      step (forward_Walk→Reach p) ((forward_iff_Arc u v w).0 m)

  Reach→forward_Walk : {u v : Str} → Reach w u v → Walk (build_forward_adjacency w) u v
  Reach→forward_Walk here = Correct.here
  Reach→forward_Walk (step {u} {v} p a) =
      Correct.step (Reach→forward_Walk p) ((forward_iff_Arc u v w).1 a)

  reverse_Walk→Reach : {u v : Str} → Walk (build_reverse_adjacency w) u v → Reach w v u
  reverse_Walk→Reach Correct.here = here
  reverse_Walk→Reach (Correct.step {u} {v} p m) =
      Reach-trans (step here ((reverse_iff_Arc v u w).0 m)) (reverse_Walk→Reach p)

  Walk-trans : {adj : Adjacency} {a b c : Str} → Walk adj a b → Walk adj b c → Walk adj a c
  Walk-trans p Correct.here = p
  Walk-trans p (Correct.step q m) = Correct.step (Walk-trans p q) m

  Reach→reverse_Walk : {v u : Str} → Reach w v u → Walk (build_reverse_adjacency w) u v
  Reach→reverse_Walk here = Correct.here
  Reach→reverse_Walk (step {u} {v} p a) =
      Walk-trans (Correct.step Correct.here ((reverse_iff_Arc u v w).1 a)) (Reach→reverse_Walk p)

  -- The set from start along the forward map, and the set from exit along the reverse map.
  pub forward_iff_Reach : (x v : Str) → In v (bfs_from x (build_forward_adjacency w)) ↔ Reach w x v
  unfolding bfs_from
  forward_iff_Reach x v =
      let found = bfs_iff_Walk (build_forward_adjacency w) x v in
      (λ m. forward_Walk→Reach (found.0 m), λ p. found.1 (Reach→forward_Walk p))

  pub reverse_iff_Reach : (x v : Str) → In v (bfs_from x (build_reverse_adjacency w)) ↔ Reach w v x
  unfolding bfs_from
  reverse_iff_Reach x v =
      let found = bfs_iff_Walk (build_reverse_adjacency w) x v in
      (λ m. reverse_Walk→Reach (found.0 m), λ p. found.1 (Reach→reverse_Walk p))

In-outside :
    (s : List Str) (ns : List Node) (x : Str) → In x (outside s ns) ↔ (In x (ids ns) × (¬ In x s))
unfolding outside
In-outside s [] x = ground arith
In-outside s (n ∷ ns) x =
    ground (arith, In-outside s ns x, contains_iff s n.id, contains_iff s x, ==_iff x n.id)

In-select-not :
    (s xs : List Str) (x : Str)
    → In x (select (λ id. not (contains s id)) xs) ↔ (In x xs × (¬ In x s))
In-select-not s [] x = ground arith
In-select-not s (y ∷ ys) x =
    ground (arith, In-select-not s ys x, contains_iff s y, contains_iff s x, ==_iff x y)

-- The report lists a node as unreachable exactly if it is a node of the workflow to which no walk
-- along explicit edges, fan-outs and joins leads from the start node.
pub unreachable_iff :
    (w : Workflow) (x : Str)
    → In x (analyze_reachability w).unreachable_nodes ↔ (In x (ids w.nodes) × (¬ Reach w w.start x))
unfolding analyze_reachability find_unreachable_nodes
unreachable_iff w x =
    let reachable = bfs_from w.start (build_forward_adjacency w) in
    ground (
      arith,
      In-sort_strings x (outside reachable w.nodes),
      In-outside reachable w.nodes x,
      forward_iff_Reach w w.start x,
    )

-- The report lists a node as a sink exactly if a walk leads to it from the start node and no walk
-- leads from it to the exit node.
pub sink_iff :
    (w : Workflow) (x : Str)
    → In x (analyze_termination w).sink_nodes ↔ (Reach w w.start x × (¬ Reach w x w.exit))
unfolding analyze_termination find_sink_nodes
sink_iff w x =
    let reachable = bfs_from w.start (build_forward_adjacency w) in
    let ending = bfs_from w.exit (build_reverse_adjacency w) in
    ground (
      arith,
      In-sort_strings x (select (λ id. not (contains ending id)) reachable),
      In-select-not ending reachable x,
      forward_iff_Reach w w.start x,
      reverse_iff_Reach w w.exit x,
    )

is_empty_iff : (xs : List Str) → (eqb (length xs) 0 ≡ true) ↔ ((x : Str) → ¬ In x xs)
is_empty_iff [] = (λ _ x m. m, λ _. refl)
is_empty_iff (y ∷ ys) = (
  λ h x m. omega (arith, (eqb_iff (suc (length ys)) 0).0 h),
  λ none_in. absurd (none_in y (inl refl)),
)

-- The report says that all paths terminate exactly if every node that can be reached from the start
-- node has a walk to the exit node.
pub all_paths_terminate_iff :
    (w : Workflow)
    → ((analyze_termination w).all_paths_terminate ≡ true)
      ↔ ((x : Str) → Reach w w.start x → Reach w x w.exit)
unfolding analyze_termination
all_paths_terminate_iff w =
    let reachable = bfs_from w.start (build_forward_adjacency w) in
    let ending = bfs_from w.exit (build_reverse_adjacency w) in
    let empty = is_empty_iff (find_sink_nodes reachable ending) in
    (
      λ h x p. ground (
        arith,
        empty.0 h x,
        sink_iff w x,
        reverse_iff_Reach w w.exit x,
        contains_iff ending x,
        p,
      ),
      λ all. empty.1 (λ x m. ((sink_iff w x).0 m).1 (all x ((sink_iff w x).0 m).0)),
    )
