-- ===== src/Coverage/Defs.antt =====
-- coverage/coverage.go: the two adjacency maps, reachability from start and termination.
use dippin_lang.Base.{
  Str, ℕ, List, [], ◌∷◌, Bool, contains, length, if◌then◌else◌, sort_strings, select, not, eqb,
}
use dippin_lang.Ir.{Workflow, Node, Edge, NodeConfig, parallel, fan_in}
use dippin_lang.Search.{Adjacency, append_at, bfs}

pub record ReachabilityReport : Type 0 where
  pub total_nodes : ℕ
  pub reachable_nodes : ℕ
  pub unreachable_nodes : List Str

pub record TerminationReport : Type 0 where
  pub all_paths_terminate : Bool
  pub sink_nodes : List Str

unfoldable pub explicit_forward : List Edge → Adjacency → Adjacency
explicit_forward [] adj = adj
explicit_forward (e ∷ es) adj = explicit_forward es (append_at e.from (e.to ∷ []) adj)

-- adj[src] = append(adj[src], id), for each source
unfoldable pub append_sources : Str → List Str → Adjacency → Adjacency
append_sources id [] adj = adj
append_sources id (src ∷ rest) adj = append_sources id rest (append_at src (id ∷ []) adj)

-- The body of the loop in addImplicitEdges.
abbrev pub add_implicit_edge : Str → NodeConfig → Adjacency → Adjacency
add_implicit_edge id (parallel cfg) adj = append_at id cfg.targets adj
add_implicit_edge id (fan_in cfg) adj = append_sources id cfg.sources adj
add_implicit_edge id _ adj = adj

unfoldable pub add_implicit_edges : List Node → Adjacency → Adjacency
add_implicit_edges [] adj = adj
add_implicit_edges (n ∷ ns) adj = add_implicit_edges ns (add_implicit_edge n.id n.config adj)

unfoldable pub build_forward_adjacency : Workflow → Adjacency
unfolding explicit_forward add_implicit_edges append_sources append_at
build_forward_adjacency w = add_implicit_edges w.nodes (explicit_forward w.edges [])

unfoldable pub explicit_reverse : List Edge → Adjacency → Adjacency
explicit_reverse [] adj = adj
explicit_reverse (e ∷ es) adj = explicit_reverse es (append_at e.to (e.from ∷ []) adj)

abbrev pub add_reverse_node_edges : Str → NodeConfig → Adjacency → Adjacency
add_reverse_node_edges id (parallel cfg) adj = append_sources id cfg.targets adj
add_reverse_node_edges id (fan_in cfg) adj = append_at id cfg.sources adj
add_reverse_node_edges id _ adj = adj

unfoldable pub add_reverse_implicit_edges : List Node → Adjacency → Adjacency
add_reverse_implicit_edges [] adj = adj
add_reverse_implicit_edges (n ∷ ns) adj =
    add_reverse_implicit_edges ns (add_reverse_node_edges n.id n.config adj)

unfoldable pub build_reverse_adjacency : Workflow → Adjacency
unfolding explicit_reverse add_reverse_implicit_edges append_sources append_at
build_reverse_adjacency w = add_reverse_implicit_edges w.nodes (explicit_reverse w.edges [])

-- bfsFrom
unfoldable pub bfs_from : Str → Adjacency → List Str
unfolding bfs
bfs_from start adj = bfs start adj

-- The IDs of the nodes outside the set, in their order.
unfoldable pub outside : List Str → List Node → List Str
outside reachable [] = []
outside reachable (n ∷ ns) =
    if contains reachable n.id then outside reachable ns else n.id ∷ outside reachable ns

unfoldable pub find_unreachable_nodes : Workflow → List Str → List Str
unfolding outside sort_strings
find_unreachable_nodes w reachable = sort_strings (outside reachable w.nodes)

unfoldable pub analyze_reachability : Workflow → ReachabilityReport
unfolding build_forward_adjacency bfs_from find_unreachable_nodes
analyze_reachability w =
    let reachable = bfs_from w.start (build_forward_adjacency w) in
    record {
      total_nodes = length w.nodes;
      reachable_nodes = length reachable;
      unreachable_nodes = find_unreachable_nodes w reachable;
    }

-- The sort makes the order in which Go ranges over the map immaterial.
unfoldable pub find_sink_nodes : List Str → List Str → List Str
unfolding sort_strings
find_sink_nodes reachable can_reach_exit =
    sort_strings (select (λ id. not (contains can_reach_exit id)) reachable)

unfoldable pub analyze_termination : Workflow → TerminationReport
unfolding build_forward_adjacency build_reverse_adjacency bfs_from find_sink_nodes
analyze_termination w =
    let reachable = bfs_from w.start (build_forward_adjacency w) in
    let can_reach_exit = bfs_from w.exit (build_reverse_adjacency w) in
    let sinks = find_sink_nodes reachable can_reach_exit in
    record { all_paths_terminate = eqb (length sinks) 0; sink_nodes = sinks }
