-- ===== src/Coverage/Graph.antt =====
-- The adjacency maps of buildForwardAdjacency and buildReverseAdjacency against the arcs of the
-- workflow.
use dippin_lang.Base.{
  Str, List, [], ◌∷◌, ◌++◌, ◌≡◌, ◌↔◌, ◌⊎◌, In, In-append, arith, ==_iff, lookup-insert,
}
use dippin_lang.Ir.{Workflow, Node, Edge, NodeConfig, parallel, fan_in}
use dippin_lang.Ir.Arc.{HasEdge, HasFanOut, HasFanIn, Arc}
use dippin_lang.Ir.Lookup.{parallel_targets, fan_in_sources}
use dippin_lang.Search.{Adjacency, successors, append_at}
use dippin_lang.Coverage.Defs.{
  explicit_forward, append_sources, add_implicit_edge, add_implicit_edges, build_forward_adjacency,
  explicit_reverse, add_reverse_node_edges, add_reverse_implicit_edges, build_reverse_adjacency,
}

pub In-successors-append_at :
    (u v x : Str) (vs : List Str) (adj : Adjacency)
    → In v (successors (append_at u vs adj) x) ↔ (In v (successors adj x) ⊎ ((x ≡ u) × In v vs))
unfolding append_at successors
In-successors-append_at u v x vs adj = ground (
  arith,
  lookup-insert u x (successors adj u ++ vs) adj,
  ==_iff x u,
  In-append v (successors adj u) vs,
)

In-successors-append_sources :
    (id v x : Str) (ss : List Str) (adj : Adjacency)
    → In v (successors (append_sources id ss adj) x)
      ↔ (In v (successors adj x) ⊎ ((v ≡ id) × In x ss))
unfolding append_sources
In-successors-append_sources id v x [] adj = ground arith
In-successors-append_sources id v x (s ∷ ss) adj = ground (
  arith,
  In-successors-append_sources id v x ss (append_at s (id ∷ []) adj),
  In-successors-append_at s v x (id ∷ []) adj,
)

module _ (u v : Str) where
  In-explicit_forward :
      (es : List Edge) (adj : Adjacency)
      → In v (successors (explicit_forward es adj) u) ↔ (In v (successors adj u) ⊎ HasEdge es u v)
  unfolding explicit_forward
  In-explicit_forward [] adj = ground arith
  In-explicit_forward (e ∷ es) adj = ground (
    arith,
    In-explicit_forward es (append_at e.from (e.to ∷ []) adj),
    In-successors-append_at e.from v u (e.to ∷ []) adj,
  )

  In-explicit_reverse :
      (es : List Edge) (adj : Adjacency)
      → In u (successors (explicit_reverse es adj) v) ↔ (In u (successors adj v) ⊎ HasEdge es u v)
  unfolding explicit_reverse
  In-explicit_reverse [] adj = ground arith
  In-explicit_reverse (e ∷ es) adj = ground (
    arith,
    In-explicit_reverse es (append_at e.to (e.from ∷ []) adj),
    In-successors-append_at e.to u v (e.from ∷ []) adj,
  )

  In-add_implicit_edge :
      (id : Str) (cfg : NodeConfig) (adj : Adjacency)
      → In v (successors (add_implicit_edge id cfg adj) u) ↔ (
          In v (successors adj u)
          ⊎ (((id ≡ u) × In v (parallel_targets cfg)) ⊎ ((id ≡ v) × In u (fan_in_sources cfg))))
  In-add_implicit_edge id (parallel cfg) adj =
      ground (arith, In-successors-append_at id v u cfg.targets adj)
  In-add_implicit_edge id (fan_in cfg) adj =
      ground (arith, In-successors-append_sources id v u cfg.sources adj)
  In-add_implicit_edge id _ adj = ground arith

  In-add_reverse_node_edges :
      (id : Str) (cfg : NodeConfig) (adj : Adjacency)
      → In u (successors (add_reverse_node_edges id cfg adj) v) ↔ (
          In u (successors adj v)
          ⊎ (((id ≡ u) × In v (parallel_targets cfg)) ⊎ ((id ≡ v) × In u (fan_in_sources cfg))))
  In-add_reverse_node_edges id (parallel cfg) adj =
      ground (arith, In-successors-append_sources id u v cfg.targets adj)
  In-add_reverse_node_edges id (fan_in cfg) adj =
      ground (arith, In-successors-append_at id u v cfg.sources adj)
  In-add_reverse_node_edges id _ adj = ground arith

  In-add_implicit_edges :
      (ns : List Node) (adj : Adjacency)
      → In v (successors (add_implicit_edges ns adj) u)
        ↔ (In v (successors adj u) ⊎ (HasFanOut ns u v ⊎ HasFanIn ns u v))
  unfolding add_implicit_edges
  In-add_implicit_edges [] adj = ground arith
  In-add_implicit_edges (n ∷ ns) adj = ground (
    arith,
    In-add_implicit_edges ns (add_implicit_edge n.id n.config adj),
    In-add_implicit_edge n.id n.config adj,
  )

  In-add_reverse_implicit_edges :
      (ns : List Node) (adj : Adjacency)
      → In u (successors (add_reverse_implicit_edges ns adj) v)
        ↔ (In u (successors adj v) ⊎ (HasFanOut ns u v ⊎ HasFanIn ns u v))
  unfolding add_reverse_implicit_edges
  In-add_reverse_implicit_edges [] adj = ground arith
  In-add_reverse_implicit_edges (n ∷ ns) adj = ground (
    arith,
    In-add_reverse_implicit_edges ns (add_reverse_node_edges n.id n.config adj),
    In-add_reverse_node_edges n.id n.config adj,
  )

  In-empty : (x y : Str) → ¬ In x (successors [] y)
  unfolding successors
  In-empty x y m = m

  -- v is a successor of u exactly if the workflow has an arc from u to v.
  pub forward_iff_Arc : (w : Workflow) → In v (successors (build_forward_adjacency w) u) ↔ Arc w u v
  unfolding build_forward_adjacency
  forward_iff_Arc w = ground (
    arith,
    In-add_implicit_edges w.nodes (explicit_forward w.edges []),
    In-explicit_forward w.edges [],
    In-empty v u,
  )

  pub reverse_iff_Arc : (w : Workflow) → In u (successors (build_reverse_adjacency w) v) ↔ Arc w u v
  unfolding build_reverse_adjacency
  reverse_iff_Arc w = ground (
    arith,
    In-add_reverse_implicit_edges w.nodes (explicit_reverse w.edges []),
    In-explicit_reverse w.edges [],
    In-empty u v,
  )
