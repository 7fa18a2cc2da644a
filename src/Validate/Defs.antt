-- ===== src/Validate/Defs.antt =====
-- The checks of validator/validate.go. A diagnostic is given by its code and by what its texts
-- mention; all are errors.
use dippin_lang.Base.{
  Str, List, [], ◌∷◌, ◌++◌, Bool, true, false, ◌&&◌, ◌||◌, Option, none, some, ◌==◌, contains,
  gather, sort_strings, if◌then◌else◌, bytes,
}
use dippin_lang.Ir.{Workflow, Node, Edge, Condition, NodeConfig, parallel, fan_in, SourceLocation}
use dippin_lang.Ir.Arc.{ids}
use dippin_lang.Ir.Lookup.{node, edges_from}
use dippin_lang.Search.{Adjacency, bfs}
use dippin_lang.Coverage.Defs.{explicit_forward, add_implicit_edges}
use dippin_lang.Validate.Distance.{closest_node_id}

pub data Diagnostic : Type 0 where
  no_start_declared : Diagnostic
  start_unknown : Str → Diagnostic
  no_exit_declared : Diagnostic
  exit_unknown : Str → Diagnostic
  endpoint_unknown : Str → Str → Str → SourceLocation → Diagnostic
  unreachable_node : Str → Str → SourceLocation → Diagnostic
  cycle : List Str → Diagnostic
  exit_has_outgoing : Str → Str → SourceLocation → Diagnostic
  unmatched_parallel : Str → List Str → SourceLocation → Diagnostic
  unmatched_fan_in : Str → List Str → SourceLocation → Diagnostic
  duplicate_node : Str → SourceLocation → SourceLocation → Diagnostic
  duplicate_edge : Str → Str → SourceLocation → SourceLocation → Diagnostic

abbrev pub code : Diagnostic → Str
code no_start_declared = bytes "DIP001"
code (start_unknown s) = bytes "DIP001"
code no_exit_declared = bytes "DIP002"
code (exit_unknown s) = bytes "DIP002"
code (endpoint_unknown role s help loc) = bytes "DIP003"
code (unreachable_node s start loc) = bytes "DIP004"
code (cycle path) = bytes "DIP005"
code (exit_has_outgoing s to loc) = bytes "DIP006"
code (unmatched_parallel s ts loc) = bytes "DIP007"
code (unmatched_fan_in s ts loc) = bytes "DIP007"
code (duplicate_node s loc first) = bytes "DIP008"
code (duplicate_edge from to loc first) = bytes "DIP009"

abbrev pub is_empty : Str → Bool
is_empty [] = true
is_empty (c ∷ s) = false

abbrev pub is_missing : Option Node → Bool
is_missing none = true
is_missing (some n) = false

unfoldable pub check_start_exists : Workflow → List Diagnostic
check_start_exists w =
    if is_empty w.start
    then no_start_declared ∷ []
    else if is_missing (node w w.start)
    then start_unknown w.start ∷ []
    else []

unfoldable pub check_exit_exists : Workflow → List Diagnostic
check_exit_exists w =
    if is_empty w.exit
    then no_exit_declared ∷ []
    else if is_missing (node w w.exit)
    then exit_unknown w.exit ∷ []
    else []

-- `ids w.nodes` is the set of buildNodeSet.
unfoldable pub check_endpoint : Workflow → Edge → Str → Str → List Diagnostic
check_endpoint w e endpoint role =
    if is_empty endpoint || contains (ids w.nodes) endpoint
    then []
    else endpoint_unknown role endpoint (closest_node_id w.nodes endpoint) e.source ∷ []

unfoldable pub check_edge_endpoints : Workflow → List Diagnostic
check_edge_endpoints w =
    gather
      (λ (e : Edge).
        check_endpoint w e e.from (bytes "source") ++ check_endpoint w e e.to (bytes "target"))
      w.edges

-- addParallelFanInEdges has the body of addImplicitEdges in coverage/coverage.go, and
-- buildAllEdgeAdjacency the loop of buildForwardAdjacency there.
unfoldable pub build_all_edge_adjacency : Workflow → Adjacency
build_all_edge_adjacency w = add_implicit_edges w.nodes (explicit_forward w.edges [])

unfoldable pub report_unvisited : Str → List Str → List Node → List Diagnostic
report_unvisited start visited [] = []
report_unvisited start visited (n ∷ ns) =
    let rest = report_unvisited start visited ns in
    if contains visited n.id then rest else unreachable_node n.id start n.source ∷ rest

unfoldable pub check_reachability : Workflow → List Diagnostic
check_reachability w =
    if is_empty w.start || is_missing (node w w.start)
    then []
    else report_unvisited w.start (bfs w.start (build_all_edge_adjacency w)) w.nodes

unfoldable pub report_outgoing : Str → List Edge → List Diagnostic
report_outgoing exit [] = []
report_outgoing exit (e ∷ es) = exit_has_outgoing exit e.to e.source ∷ report_outgoing exit es

unfoldable pub check_exit_no_outgoing : Workflow → List Diagnostic
check_exit_no_outgoing w =
    if is_empty w.exit || is_missing (node w w.exit)
    then []
    else report_outgoing w.exit (edges_from w w.exit)

-- nodeTargets: a node with its sorted targets or sources
pub record NodeTargets : Type 0 where
  pub node : Node
  pub sorted : List Str

abbrev pub parallel_entry : Node → NodeConfig → List NodeTargets
parallel_entry n (parallel cfg) = record { node = n; sorted = sort_strings cfg.targets } ∷ []
parallel_entry n _ = []

abbrev pub fan_in_entry : Node → NodeConfig → List NodeTargets
fan_in_entry n (fan_in cfg) = record { node = n; sorted = sort_strings cfg.sources } ∷ []
fan_in_entry n _ = []

-- collectParallelFanIn, which fills two lists in one loop
unfoldable pub collect_parallels : List Node → List NodeTargets
collect_parallels ns = gather (λ (n : Node). parallel_entry n n.config) ns

unfoldable pub collect_fan_ins : List Node → List NodeTargets
collect_fan_ins ns = gather (λ (n : Node). fan_in_entry n n.config) ns

-- The lengths differ where one list ends before the other.
unfoldable pub slices_equal : List Str → List Str → Bool
slices_equal [] [] = true
slices_equal [] (y ∷ ys) = false
slices_equal (x ∷ xs) [] = false
slices_equal (x ∷ xs) (y ∷ ys) = x == y && slices_equal xs ys

unfoldable pub has_match : List Str → List NodeTargets → Bool
has_match target [] = false
has_match target (c ∷ cs) = slices_equal target c.sorted || has_match target cs

unfoldable pub check_unmatched_parallels : List NodeTargets → List NodeTargets → List Diagnostic
check_unmatched_parallels [] fan_ins = []
check_unmatched_parallels (p ∷ ps) fan_ins =
    let rest = check_unmatched_parallels ps fan_ins in
    if has_match p.sorted fan_ins
    then rest
    else unmatched_parallel p.node.id p.sorted p.node.source ∷ rest

unfoldable pub check_unmatched_fan_ins : List NodeTargets → List NodeTargets → List Diagnostic
check_unmatched_fan_ins [] parallels = []
check_unmatched_fan_ins (f ∷ fs) parallels =
    let rest = check_unmatched_fan_ins fs parallels in
    if has_match f.sorted parallels
    then rest
    else unmatched_fan_in f.node.id f.sorted f.node.source ∷ rest

unfoldable pub check_parallel_fan_in : Workflow → List Diagnostic
check_parallel_fan_in w =
    let parallels = collect_parallels w.nodes in
    let fan_ins = collect_fan_ins w.nodes in
    check_unmatched_parallels parallels fan_ins ++ check_unmatched_fan_ins fan_ins parallels

-- The loop of checkNoDuplicateNodes; the list has the nodes that `seen` maps their IDs to.
unfoldable pub first_node : Str → List Node → Option Node
first_node id [] = none
first_node id (n ∷ ns) = if n.id == id then some n else first_node id ns

unfoldable pub duplicate_nodes : List Node → List Node → List Diagnostic
duplicate_nodes seen [] = []
duplicate_nodes seen (n ∷ ns) = elim (first_node n.id seen) [
  | some first ↦ duplicate_node n.id n.source first.source ∷ duplicate_nodes seen ns
  | none ↦ duplicate_nodes (n ∷ seen) ns
]

unfoldable pub check_no_duplicate_nodes : Workflow → List Diagnostic
check_no_duplicate_nodes w = duplicate_nodes [] w.nodes

abbrev pub cond_raw : Option Condition → Str
cond_raw none = []
cond_raw (some c) = c.raw

-- The two edges have the same key of endpoints and condition.
unfoldable pub same_key : Edge → Edge → Bool
same_key e f = e.from == f.from && (e.to == f.to && cond_raw e.condition == cond_raw f.condition)

unfoldable pub first_same : Edge → List Edge → Option Edge
first_same e [] = none
first_same e (f ∷ fs) = if same_key e f then some f else first_same e fs

unfoldable pub duplicate_edges : List Edge → List Edge → List Diagnostic
duplicate_edges seen [] = []
duplicate_edges seen (e ∷ es) = elim (first_same e seen) [
  | some first ↦ duplicate_edge e.from e.to e.source first.source ∷ duplicate_edges seen es
  | none ↦ duplicate_edges (e ∷ seen) es
]

unfoldable pub check_no_duplicate_edges : Workflow → List Diagnostic
check_no_duplicate_edges w = duplicate_edges [] w.edges
