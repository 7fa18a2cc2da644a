-- ===== src/Ir/Lookup.antt =====
-- ir/lookup.go: the node lookup and the edge queries. A loop that threads `out` and `seen` is a
-- recursion over the collection that threads both.
pub mod Outgoing
pub mod Incoming
use dippin_lang.Base.{
  Str, List, [], ◌∷◌, ◌++◌, Bool, true, false, not, ◌&&◌, Option, none, some, map, ◌==◌, contains,
  if◌then◌else◌, pos, bytes,
}
use dippin_lang.Ir.{Workflow, Node, Edge, Condition, NodeConfig, parallel, fan_in, SourceLocation}

abbrev pub no_location : SourceLocation
no_location = record {
  file = [];
  line = pos 0;
  column = pos 0;
  end_line = pos 0;
  end_column = pos 0;
}

-- &Edge{From: from, To: to}
abbrev pub plain_edge : Str → Str → Edge
plain_edge from to = record {
  from = from;
  to = to;
  label = [];
  condition = none;
  weight = pos 0;
  restart = false;
  source = no_location;
}

unfoldable pub find_node : Str → List Node → Option Node
find_node id [] = none
find_node id (n ∷ ns) = if n.id == id then some n else find_node id ns

-- (w *Workflow) Node
unfoldable pub node : Workflow → Str → Option Node
node w id = find_node id w.nodes

-- `out` and the set of endpoints that an unconditional edge has reached.
pub record Collected : Type 0 where
  pub out : List Edge
  pub seen : List Str

abbrev pub nothing : Collected
nothing = record { out = []; seen = [] }

-- append(out, e), with seen[k] = true
abbrev pub emit : Edge → Str → Collected → Collected
emit e k c = record { out = c.out ++ e ∷ []; seen = k ∷ c.seen }

abbrev pub note : Edge → Str → Option Condition → Collected → Collected
note e k none c = emit e k c
note e k (some _) c = record c { out = c.out ++ e ∷ [] }

unfoldable pub explicit_edges_from : Str → List Edge → Collected → Collected
explicit_edges_from id [] c = c
explicit_edges_from id (e ∷ es) c =
    explicit_edges_from id es (if e.from == id then note e e.to e.condition c else c)

-- The loop over the targets of a parallel node: an edge to each not yet seen.
unfoldable pub add_targets : Str → List Str → Collected → Collected
add_targets id [] c = c
add_targets id (t ∷ ts) c =
    add_targets id ts (if contains c.seen t then c else emit (plain_edge id t) t c)

-- The targets of a parallel node, and the sources of a fan-in; nothing for other kinds.
abbrev pub parallel_targets : NodeConfig → List Str
parallel_targets (parallel cfg) = cfg.targets
parallel_targets _ = []

abbrev pub fan_in_sources : NodeConfig → List Str
fan_in_sources (fan_in cfg) = cfg.sources
fan_in_sources _ = []

unfoldable pub parallel_edges_from : Workflow → Str → Collected → Collected
parallel_edges_from w id c = elim (node w id) [
  | none ↦ c
  | some n ↦ add_targets id (parallel_targets n.config) c
]

unfoldable pub add_fan_in_source_edges : Str → Str → List Str → Collected → Collected
add_fan_in_source_edges src_id fan_in_id [] c = c
add_fan_in_source_edges src_id fan_in_id (src ∷ rest) c =
    add_fan_in_source_edges src_id fan_in_id rest (
      if (src == src_id) && not (contains c.seen fan_in_id)
      then emit (plain_edge src_id fan_in_id) fan_in_id c
      else c)

unfoldable pub fan_in_edges_from : Str → List Node → Collected → Collected
fan_in_edges_from id [] c = c
fan_in_edges_from id (n ∷ ns) c =
    fan_in_edges_from id ns (add_fan_in_source_edges id n.id (fan_in_sources n.config) c)

-- (w *Workflow) EdgesFrom
unfoldable pub edges_from : Workflow → Str → List Edge
edges_from w id =
    let explicit = explicit_edges_from id w.edges nothing in
    (fan_in_edges_from id w.nodes (parallel_edges_from w id explicit)).out

unfoldable pub explicit_edges_to : Str → List Edge → Collected → Collected
explicit_edges_to id [] c = c
explicit_edges_to id (e ∷ es) c =
    explicit_edges_to id es (if e.to == id then note e e.from e.condition c else c)

unfoldable pub parallel_targets_node : List Str → Str → Bool
parallel_targets_node [] id = false
parallel_targets_node (t ∷ ts) id = if t == id then true else parallel_targets_node ts id

unfoldable pub parallel_edges_to : Str → List Node → Collected → Collected
parallel_edges_to id [] c = c
parallel_edges_to id (n ∷ ns) c = parallel_edges_to id ns (
    if parallel_targets_node (parallel_targets n.config) id && not (contains c.seen n.id)
    then emit (plain_edge n.id id) n.id c
    else c)

-- The loop over the sources of a fan-in node: an edge from each not yet seen.
unfoldable pub add_sources : Str → List Str → Collected → Collected
add_sources id [] c = c
add_sources id (s ∷ ss) c =
    add_sources id ss (if contains c.seen s then c else emit (plain_edge s id) s c)

unfoldable pub fan_in_edges_to : Workflow → Str → Collected → Collected
fan_in_edges_to w id c = elim (node w id) [
  | none ↦ c
  | some n ↦ add_sources id (fan_in_sources n.config) c
]

-- (w *Workflow) EdgesTo
unfoldable pub edges_to : Workflow → Str → List Edge
edges_to w id =
    let explicit = explicit_edges_to id w.edges nothing in
    (fan_in_edges_to w id (parallel_edges_to id w.nodes explicit)).out

-- The inner loop of AllEdges; `seen` holds the keys "from->to".
unfoldable pub keep_new : List Edge → Collected → Collected
keep_new [] c = c
keep_new (e ∷ es) c =
    let key = e.from ++ (bytes "->" ++ e.to) in
    keep_new es (if contains c.seen key then c else emit e key c)

unfoldable pub all_edges_loop : Workflow → List Node → Collected → Collected
all_edges_loop w [] c = c
all_edges_loop w (n ∷ ns) c = all_edges_loop w ns (keep_new (edges_from w n.id) c)

-- (w *Workflow) AllEdges
unfoldable pub all_edges : Workflow → List Edge
all_edges w = (all_edges_loop w w.nodes nothing).out

-- (w *Workflow) NodeIDs
unfoldable pub node_ids : Workflow → List Str
node_ids w = map (λ n. n.id) w.nodes
