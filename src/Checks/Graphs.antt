-- ===== src/Checks/Graphs.antt =====
-- The graph queries and the reports on the sample.
use dippin_lang.Base.{Str, ◌≡◌, ◌↔◌, true, bytes, In, arith}
use dippin_lang.Ir.Arc.{HasEdge, HasUniqueIds, Arc, Reach, ids}
use dippin_lang.Ir.Lookup.{edges_from, edges_to}
use dippin_lang.Ir.Lookup.Outgoing.{edges_from-Arc}
use dippin_lang.Ir.Lookup.Incoming.{edges_from_iff_edges_to}
use dippin_lang.Search.{bfs}
use dippin_lang.Search.Correct.{Walk, bfs_iff_Walk}
use dippin_lang.Coverage.Defs.{build_forward_adjacency, analyze_reachability, analyze_termination}
use dippin_lang.Coverage.Reports.{unreachable_iff, all_paths_terminate_iff}
use dippin_lang.Checks.Samples.{sample}

sample-HasUniqueIds : HasUniqueIds sample
sample-HasUniqueIds = ground arith

edges_from-Arc_example :
    HasEdge (edges_from sample (bytes "p")) (bytes "p") (bytes "x")
    ↔ ((bytes "p" ≡ bytes "p") × Arc sample (bytes "p") (bytes "x"))
edges_from-Arc_example =
    edges_from-Arc sample (bytes "p") (bytes "p") (bytes "x") sample-HasUniqueIds

edges_from_iff_edges_to_example :
    HasEdge (edges_from sample (bytes "y")) (bytes "y") (bytes "j")
    ↔ HasEdge (edges_to sample (bytes "j")) (bytes "y") (bytes "j")
edges_from_iff_edges_to_example =
    edges_from_iff_edges_to sample (bytes "y") (bytes "j") sample-HasUniqueIds

bfs_iff_Walk_example :
    In (bytes "j") (bfs (bytes "a") (build_forward_adjacency sample))
    ↔ Walk (build_forward_adjacency sample) (bytes "a") (bytes "j")
bfs_iff_Walk_example = bfs_iff_Walk (build_forward_adjacency sample) (bytes "a") (bytes "j")

unreachable_iff_example :
    In (bytes "e") (analyze_reachability sample).unreachable_nodes
    ↔ (In (bytes "e") (ids sample.nodes) × (¬ Reach sample (bytes "a") (bytes "e")))
unreachable_iff_example = unreachable_iff sample (bytes "e")

all_paths_terminate_iff_example :
    ((analyze_termination sample).all_paths_terminate ≡ true)
    ↔ ((x : Str) → Reach sample (bytes "a") x → Reach sample x (bytes "e"))
all_paths_terminate_iff_example = all_paths_terminate_iff sample
