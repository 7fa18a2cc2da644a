-- ===== src/Dipx/Refs.antt =====
-- The references between the workflows of a bundle: walkRefs of dipx/helpers.go with the cycle search of
-- dipx/resolve.go. The parsed workflows, a Go map, are a list in the order in which Go ranges over it.
pub mod Acyclic
pub mod Listed
use dippin_lang.Base.{
  Str, ℕ, zero, suc, ◌+◌, List, [], ◌∷◌, ◌++◌, Bool, true, false, Map, contains, map, ◌==◌,
  if◌then◌else◌,
}
use dippin_lang.Base.Fallible.{ok, err, ◌>>=◌}
use dippin_lang.Ir.{Workflow, Node, NodeConfig, subgraph, manager_loop}
use dippin_lang.Search.{Adjacency, successors}
use dippin_lang.Search.Colors.{Color, white, gray, black, color_of, paint}
use dippin_lang.Dipx.Errors.{Bundled, new_error, ref_escape, ref_cycle, cap_exceeded}
use dippin_lang.Dipx.Paths.{resolve_lexically}
use dippin_lang.Dipx.Shape.{Manifest, listed_paths}

unfoldable pub ref_from_node : NodeConfig → Str
ref_from_node (subgraph cfg) = cfg.ref
ref_from_node (manager_loop cfg) = cfg.subgraph_ref
ref_from_node _ = []

unfoldable pub refs_for_workflow : (Str → Str) → List Node → Str → Bundled (List Str)
refs_for_workflow nfc [] parent_path = ok []
refs_for_workflow nfc (n ∷ ns) parent_path =
    let rest = refs_for_workflow nfc ns parent_path in
    let ref = ref_from_node n.config in
    if ref == []
    then rest
    else resolve_lexically nfc ref parent_path >>= λ resolved. rest >>= λ out. ok (resolved ∷ out)

unfoldable pub build_ref_graph : (Str → Str) → Map Workflow → Bundled Adjacency
build_ref_graph nfc [] = ok []
build_ref_graph nfc ((parent_path, wf) ∷ parsed) =
    refs_for_workflow nfc wf.nodes parent_path >>= λ out.
    build_ref_graph nfc parsed >>= λ g. ok ((parent_path, out) ∷ g)

unfoldable pub verify_targets : List Str → Str → List Str → Bundled Unit
verify_targets listed from [] = ok tt
verify_targets listed from (to ∷ tos) =
    if contains listed to then verify_targets listed from tos else err (new_error ref_escape from)

unfoldable pub verify_refs_listed : Adjacency → List Str → Bundled Unit
verify_refs_listed [] listed = ok tt
verify_refs_listed ((from, tos) ∷ graph) listed =
    verify_targets listed from tos >>= λ _. verify_refs_listed graph listed

-- What dfsVisit changes.
pub record RefSearch : Type 0 where
  pub color : Map Color
  pub stack : List Str

-- The stack from `target` on.
unfoldable pub from_target : List Str → Str → List Str
from_target [] target = []
from_target (n ∷ ns) target = if n == target then n ∷ ns else from_target ns target

unfoldable pub last_to : List Str → Str → List Str
last_to [] target = target ∷ []
last_to (n ∷ []) target = n ∷ target ∷ []
last_to (n ∷ k ∷ ns) target = last_to (k ∷ ns) target

-- The nodes that formatCycle joins by arrows.
unfoldable pub format_cycle : List Str → Str → List Str
format_cycle stack target = elim (from_target stack target) [
  | [] ↦ last_to stack target
  | n ∷ ns ↦ (n ∷ ns) ++ target ∷ []
]

abbrev pub without_last : List Str → List Str
without_last [] = []
without_last (n ∷ []) = []
without_last (n ∷ k ∷ ns) = n ∷ without_last (k ∷ ns)

unfoldable pub dfs_visit_edge :
    (Str → RefSearch → Bundled RefSearch) → Str → RefSearch → Bundled RefSearch
dfs_visit_edge visit next s = elim (color_of next s.color) [
  | gray ↦ err (new_error (ref_cycle (format_cycle s.stack next)) next)
  | white ↦ visit next s
  | black ↦ ok s
]

unfoldable pub dfs_visit_edges :
    (Str → RefSearch → Bundled RefSearch) → List Str → RefSearch → Bundled RefSearch
dfs_visit_edges visit [] s = ok s
dfs_visit_edges visit (next ∷ rest) s =
    dfs_visit_edge visit next s >>= λ t. dfs_visit_edges visit rest t

abbrev pub push_node : Str → RefSearch → RefSearch
push_node node s = record { color = paint node gray s.color; stack = s.stack ++ node ∷ [] }

abbrev pub pop_node : Str → RefSearch → RefSearch
pop_node node s = record { stack = without_last s.stack; color = paint node black s.color }

-- `room` is the number of levels that maxDepth leaves, this one included.
unfoldable pub dfs_visit : ℕ → Adjacency → Str → RefSearch → Bundled RefSearch
dfs_visit zero graph node s = err (new_error cap_exceeded node)
dfs_visit (suc room) graph node s =
    dfs_visit_edges (dfs_visit room graph) (successors graph node) (push_node node s) >>= λ t.
    ok (pop_node node t)

unfoldable pub detect_cycles : Adjacency → Str → ℕ → Bundled Unit
detect_cycles graph start max_depth =
    dfs_visit (max_depth + 1) graph start (record { color = []; stack = [] }) >>= λ _. ok tt

unfoldable pub detect_cycles_all : Adjacency → List Str → ℕ → Bundled Unit
detect_cycles_all graph [] max_depth = ok tt
detect_cycles_all graph (p ∷ ps) max_depth =
    detect_cycles graph p max_depth >>= λ _. detect_cycles_all graph ps max_depth

unfoldable pub walk_refs : (Str → Str) → Map Workflow → Manifest → Bundled Unit
walk_refs nfc parsed m = build_ref_graph nfc parsed >>= λ graph.
    verify_refs_listed graph (listed_paths m.files) >>= λ _.
    detect_cycles_all graph (listed_paths m.files) 64
