-- ===== src/Validate/Whole.antt =====
-- Validate of validator/validate.go: all checks, in the order of the code.
use dippin_lang.Base.{Str, List, [], ◌++◌, ◌≡◌, ◌↔◌, In, All, Distinct, append-eq_nil}
use dippin_lang.Ir.{Workflow, Node}
use dippin_lang.Ir.Arc.{HasEdge, Arc, Reach, ids, HasUniqueIds}
use dippin_lang.Validate.Defs.{
  Diagnostic, check_no_duplicate_nodes, check_start_exists, check_exit_exists, check_edge_endpoints,
  check_exit_no_outgoing, check_no_duplicate_edges, check_reachability, check_parallel_fan_in,
}
use dippin_lang.Validate.Cycles.{check_no_cycles}
use dippin_lang.Validate.Cycles.Exact.{Follow, IsLooping, check_no_cycles_iff}
use dippin_lang.Validate.Graph.{
  IsKnownOrEmpty, check_start_exists_iff, check_exit_exists_iff, check_edge_endpoints_iff,
  check_reachability_iff, check_exit_no_outgoing_iff,
}
use dippin_lang.Validate.Duplicates.{
  edge_keys, check_no_duplicate_nodes_iff, check_no_duplicate_edges_iff,
}
use dippin_lang.Validate.Pairs.{IsPaired, check_parallel_fan_in_iff}

unfoldable pub validate : Workflow → List Diagnostic
validate w =
    check_no_duplicate_nodes w
    ++ (check_start_exists w
        ++ (check_exit_exists w
            ++ (check_edge_endpoints w
                ++ (check_exit_no_outgoing w
                    ++ (check_no_duplicate_edges w
                        ++ (check_reachability w
                            ++ (check_no_cycles w ++ check_parallel_fan_in w)))))))

-- What a workflow is to be, in terms of its graph.
pub record IsWellFormed (w : Workflow) : Type 0 where
  pub unique : HasUniqueIds w
  pub start : (¬ (w.start ≡ [])) × In w.start (ids w.nodes)
  pub exit : (¬ (w.exit ≡ [])) × In w.exit (ids w.nodes)
  pub known : (u v : Str) → HasEdge w.edges u v → IsKnownOrEmpty w u × IsKnownOrEmpty w v
  pub last : (v : Str) → ¬ Arc w w.exit v
  pub edges : Distinct (edge_keys w.edges)
  pub reached : (x : Str) → In x (ids w.nodes) → Reach w w.start x
  pub acyclic : (x v : Str) → In x (ids w.nodes) → Follow w x v → ¬ IsLooping w v
  pub paired : All (λ (n : Node). IsPaired w.nodes n.config) w.nodes

-- No check reports anything.
record AllSilent (w : Workflow) : Type 0 where
  unique : check_no_duplicate_nodes w ≡ []
  start : check_start_exists w ≡ []
  exit : check_exit_exists w ≡ []
  known : check_edge_endpoints w ≡ []
  last : check_exit_no_outgoing w ≡ []
  edges : check_no_duplicate_edges w ≡ []
  reached : check_reachability w ≡ []
  acyclic : check_no_cycles w ≡ []
  paired : check_parallel_fan_in w ≡ []

append_nil : {A : Type 0} (xs ys : List A) → xs ≡ [] → ys ≡ [] → xs ++ ys ≡ []
append_nil xs ys h k = (append-eq_nil xs ys).1 (h, k)

validate-silent : (w : Workflow) → validate w ≡ [] → AllSilent w
unfolding validate
validate-silent w h0 =
    let (a, h1) = (append-eq_nil (check_no_duplicate_nodes w) _).0 h0 in
    let (b, h2) = (append-eq_nil (check_start_exists w) _).0 h1 in
    let (c, h3) = (append-eq_nil (check_exit_exists w) _).0 h2 in
    let (d, h4) = (append-eq_nil (check_edge_endpoints w) _).0 h3 in
    let (e, h5) = (append-eq_nil (check_exit_no_outgoing w) _).0 h4 in
    let (f, h6) = (append-eq_nil (check_no_duplicate_edges w) _).0 h5 in
    let (g, h7) = (append-eq_nil (check_reachability w) _).0 h6 in
    let (p, q) = (append-eq_nil (check_no_cycles w) _).0 h7 in
    record {
      unique = a;
      start = b;
      exit = c;
      known = d;
      last = e;
      edges = f;
      reached = g;
      acyclic = p;
      paired = q;
    }

silent_validate : (w : Workflow) → AllSilent w → validate w ≡ []
unfolding validate
silent_validate w s = append_nil _ _ s.unique (
    append_nil _ _ s.start (
      append_nil _ _ s.exit (
        append_nil _ _ s.known (
          append_nil _ _ s.last (
            append_nil _ _ s.edges
              (append_nil _ _ s.reached (append_nil _ _ s.acyclic s.paired)))))))

-- Validate reports nothing exactly if the workflow is well formed: its IDs are unique, start and exit are there,
-- each end of an edge is empty or the ID of a node, no arc leaves the exit, no edge stands twice, start reaches
-- every node, no node is followed, along edges that are not restarts, by a cycle of such edges, and fan-outs and
-- joins are paired, their lists being the same up to order, repeated IDs counted.
pub validate_iff : (w : Workflow) → (validate w ≡ []) ↔ IsWellFormed w
validate_iff w = (
  λ h.
      let s = validate-silent w h in
      let ids_unique = (check_no_duplicate_nodes_iff w).0 s.unique in
      record {
        unique = ids_unique;
        start = (check_start_exists_iff w).0 s.start;
        exit = (check_exit_exists_iff w).0 s.exit;
        known = (check_edge_endpoints_iff w).0 s.known;
        last = (check_exit_no_outgoing_iff w ids_unique s.exit).0 s.last;
        edges = (check_no_duplicate_edges_iff w).0 s.edges;
        reached = (check_reachability_iff w s.start).0 s.reached;
        acyclic = (check_no_cycles_iff w s.start).0 s.acyclic;
        paired = (check_parallel_fan_in_iff w).0 s.paired;
      },
  λ f.
      let start = (check_start_exists_iff w).1 f.start in
      let exit = (check_exit_exists_iff w).1 f.exit in
      silent_validate w (record {
        unique = (check_no_duplicate_nodes_iff w).1 f.unique;
        start = start;
        exit = exit;
        known = (check_edge_endpoints_iff w).1 f.known;
        last = (check_exit_no_outgoing_iff w f.unique exit).1 f.last;
        edges = (check_no_duplicate_edges_iff w).1 f.edges;
        reached = (check_reachability_iff w start).1 f.reached;
        acyclic = (check_no_cycles_iff w start).1 f.acyclic;
        paired = (check_parallel_fan_in_iff w).1 f.paired;
      }),
)
