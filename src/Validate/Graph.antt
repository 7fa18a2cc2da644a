-- ===== src/Validate/Graph.antt =====
-- The checks of the start and exit nodes, of edge endpoints, of reachability and of the edges out of
-- the exit node, against the workflow's graph.
use dippin_lang.Base.{
  append-eq_nil, subst, gather, sym, ◌∙◌, All, All-of_In, In-of_All, Str, List, [], ◌∷◌, ◌++◌, ◌≡◌,
  ◌↔◌, ◌⊎◌, inl, inr, In, arith, true, ==_iff, contains_iff, refl, bytes,
}
use dippin_lang.Ir.{Workflow, Node, Edge}
use dippin_lang.Ir.Arc.{HasEdge, Arc, Reach, ids, HasUniqueIds}
use dippin_lang.Ir.Lookup.{find_node, node, edges_from}
use dippin_lang.Ir.Lookup.Outgoing.{edges_from-Arc}
use dippin_lang.Coverage.Defs.{build_forward_adjacency, bfs_from}
use dippin_lang.Coverage.Reports.{forward_iff_Reach}
use dippin_lang.Validate.Defs.{
  Diagnostic, is_empty, is_missing, check_start_exists, check_exit_exists, check_endpoint,
  check_edge_endpoints, build_all_edge_adjacency, report_unvisited, check_reachability,
  report_outgoing, check_exit_no_outgoing,
}

find_node_iff :
    (id : Str) (ns : List Node) → (is_missing (find_node id ns) ≡ true) ↔ (¬ In id (ids ns))
unfolding find_node
find_node_iff id [] = ground arith
find_node_iff id (n ∷ ns) = ground (arith, find_node_iff id ns, ==_iff n.id id)

is_missing_iff :
    (w : Workflow) (id : Str) → (is_missing (node w id) ≡ true) ↔ (¬ In id (ids w.nodes))
unfolding node
is_missing_iff w id = find_node_iff id w.nodes

is_empty_iff : (s : Str) → (is_empty s ≡ true) ↔ (s ≡ [])
is_empty_iff [] = ground arith
is_empty_iff (c ∷ s) = ground arith

-- DIP001 is silent exactly if the workflow names a start node and has a node of that ID.
pub check_start_exists_iff :
    (w : Workflow) → (check_start_exists w ≡ []) ↔ ((¬ (w.start ≡ [])) × In w.start (ids w.nodes))
unfolding check_start_exists
check_start_exists_iff w =
    ground
      (arith, is_missing_iff w w.start, is_empty_iff w.start, contains_iff (ids w.nodes) w.start)

pub check_exit_exists_iff :
    (w : Workflow) → (check_exit_exists w ≡ []) ↔ ((¬ (w.exit ≡ [])) × In w.exit (ids w.nodes))
unfolding check_exit_exists
check_exit_exists_iff w =
    ground (arith, is_missing_iff w w.exit, is_empty_iff w.exit, contains_iff (ids w.nodes) w.exit)

-- An endpoint that DIP003 lets pass: the empty one, or the ID of a node.
abbrev pub IsKnownOrEmpty : Workflow → Str → Type 0
IsKnownOrEmpty w x = (x ≡ []) ⊎ In x (ids w.nodes)

check_endpoint_iff :
    (w : Workflow) (e : Edge) (x role : Str) → (check_endpoint w e x role ≡ []) ↔ IsKnownOrEmpty w x
unfolding check_endpoint
check_endpoint_iff w e x role = ground (arith, is_empty_iff x, contains_iff (ids w.nodes) x)

abbrev endpoints_of : Workflow → Edge → List Diagnostic
endpoints_of w e =
    check_endpoint w e e.from (bytes "source") ++ check_endpoint w e e.to (bytes "target")

endpoints_iff :
    (w : Workflow) (es : List Edge)
    → (gather (endpoints_of w) es ≡ [])
      ↔ ((u v : Str) → HasEdge es u v → IsKnownOrEmpty w u × IsKnownOrEmpty w v)
endpoints_iff w [] = ground arith
endpoints_iff w (e ∷ es) =
    let known_from = check_endpoint_iff w e e.from (bytes "source") in
    let known_to = check_endpoint_iff w e e.to (bytes "target") in
    let both =
      append-eq_nil (check_endpoint w e e.from (bytes "source"))
        (check_endpoint w e e.to (bytes "target")) in
    let all = append-eq_nil (endpoints_of w e) (gather (endpoints_of w) es) in
    let rest = endpoints_iff w es in
    (
      λ h u v m. elim m [
        | inl (a, b) ↦
            let now = both.0 (all.0 h).0 in
            (
              subst (IsKnownOrEmpty w) a (known_from.0 now.0),
              subst (IsKnownOrEmpty w) b (known_to.0 now.1),
            )
        | inr k ↦ rest.0 (all.0 h).1 u v k
      ],
      λ f.
          let now = f e.from e.to (inl (refl, refl)) in
          all.1 (both.1 (known_from.1 now.0, known_to.1 now.1), rest.1 (λ u v m. f u v (inr m))),
    )

-- DIP003 is silent exactly if both endpoints of every edge are empty or IDs of nodes.
pub check_edge_endpoints_iff :
    (w : Workflow)
    → (check_edge_endpoints w ≡ [])
      ↔ ((u v : Str) → HasEdge w.edges u v → IsKnownOrEmpty w u × IsKnownOrEmpty w v)
unfolding check_edge_endpoints
check_edge_endpoints_iff w = endpoints_iff w w.edges

report_unvisited_iff :
    (start : Str) (visited : List Str) (ns : List Node)
    → (report_unvisited start visited ns ≡ []) ↔ All (λ x. In x visited) (ids ns)
unfolding report_unvisited
report_unvisited_iff start visited [] = ground arith
report_unvisited_iff start visited (n ∷ ns) =
    ground (arith, contains_iff visited n.id, report_unvisited_iff start visited ns)

-- What a check reports where its guard lets it run.
check_reachability-eq :
    (w : Workflow)
    → check_start_exists w ≡ []
    → check_reachability w
      ≡ report_unvisited w.start (bfs_from w.start (build_forward_adjacency w)) w.nodes
unfolding check_reachability check_start_exists build_all_edge_adjacency build_forward_adjacency
    bfs_from
check_reachability-eq w h = ground arith

check_exit_no_outgoing-eq :
    (w : Workflow)
    → check_exit_exists w ≡ []
    → check_exit_no_outgoing w ≡ report_outgoing w.exit (edges_from w w.exit)
unfolding check_exit_no_outgoing check_exit_exists
check_exit_no_outgoing-eq w h = ground arith

-- Where the start node is there, DIP004 is silent exactly if a walk leads from it to every node.
pub check_reachability_iff :
    (w : Workflow)
    → check_start_exists w ≡ []
    → (check_reachability w ≡ []) ↔ ((x : Str) → In x (ids w.nodes) → Reach w w.start x)
check_reachability_iff w h =
    let visited = bfs_from w.start (build_forward_adjacency w) in
    let found = report_unvisited_iff w.start visited w.nodes in
    let same = check_reachability-eq w h in
    (
      λ e x m.
          (forward_iff_Reach w w.start x).0
            (In-of_All (λ y. In y visited) (ids w.nodes) x (found.0 (sym same ∙ e)) m),
      λ f.
          same
          ∙ found.1 (
              All-of_In (λ y. In y visited) (ids w.nodes)
                (λ x m. (forward_iff_Reach w w.start x).1 (f x m))),
    )

report_outgoing_iff : (exit : Str) (es : List Edge) → (report_outgoing exit es ≡ []) ↔ (es ≡ [])
unfolding report_outgoing
report_outgoing_iff exit [] = ground arith
report_outgoing_iff exit (e ∷ es) = ground arith

no_edges_iff : (es : List Edge) → (es ≡ []) ↔ ((u v : Str) → ¬ HasEdge es u v)
no_edges_iff [] = ground arith
no_edges_iff (e ∷ es) = (λ h. ground arith, λ f. absurd (f e.from e.to (inl (refl, refl))))

-- Where the exit node is there and no two nodes share an ID, DIP006 is silent exactly if no arc
-- leaves the exit node: no explicit edge, no fan-out and no join.
pub check_exit_no_outgoing_iff :
    (w : Workflow)
    → HasUniqueIds w
    → check_exit_exists w ≡ []
    → (check_exit_no_outgoing w ≡ []) ↔ ((v : Str) → ¬ Arc w w.exit v)
check_exit_no_outgoing_iff w d h =
    let same = check_exit_no_outgoing-eq w h in
    let reported = report_outgoing_iff w.exit (edges_from w w.exit) in
    let none_left = no_edges_iff (edges_from w w.exit) in
    (
      λ e v a.
          none_left.0 (reported.0 (sym same ∙ e)) w.exit v
            ((edges_from-Arc w w.exit w.exit v d).1 (refl, a)),
      λ f. same ∙ reported.1 (none_left.1 (λ u v m. f v ((edges_from-Arc w w.exit u v d).0 m).1)),
    )
