-- ===== src/Ir/Lookup/Incoming.antt =====
-- What EdgesTo returns, and how it answers EdgesFrom.
use dippin_lang.Base.{
  Str, List, [], ◌∷◌, ◌≡◌, ◌↔◌, ◌⊎◌, inl, inr, In, Distinct, arith, none, some, ==_iff,
  contains_iff, Option-cases, if◌then◌else◌, contains, true,
}
use dippin_lang.Ir.{Workflow, Node, Edge}
use dippin_lang.Ir.Arc.{HasEdge, HasFanOut, HasFanIn, Arc, HasUniqueIds, HasEdge-append, ids}
use dippin_lang.Ir.Lookup.{
  Collected, find_node, node, explicit_edges_to, add_sources, parallel_edges_to,
  parallel_targets_node, fan_in_edges_to, edges_to, edges_from, parallel_targets, fan_in_sources,
  plain_edge, nothing, emit, note,
}
use dippin_lang.Ir.Lookup.Outgoing.{HasEdge-note, edges_from-Arc}

-- What `seen` holds has an edge to `id` in `out`.
abbrev Tracks : Str → Collected → Type 0
Tracks id c = (s : Str) → In s c.seen → HasEdge c.out s id

-- The step of the loops over implicit edges: an edge unless its source has been seen.
abbrev offer : Str → Str → Collected → Collected
offer id s c = if contains c.seen s then c else emit (plain_edge s id) s c

HasEdge-offer :
    (id s : Str) (c : Collected) (u v : Str)
    → Tracks id c
    → HasEdge (offer id s c).out u v ↔ (HasEdge c.out u v ⊎ ((v ≡ id) × (u ≡ s)))
HasEdge-offer id s c u v k =
    ground (arith, HasEdge-append c.out (plain_edge s id ∷ []) u v, contains_iff c.seen s, k s)

Tracks-offer : (id s : Str) (c : Collected) → Tracks id c → Tracks id (offer id s c)
Tracks-offer id s c k t h =
    ground (arith, HasEdge-append c.out (plain_edge s id ∷ []) t id, contains_iff c.seen s, k t)

parallel_targets_node_iff :
    (ts : List Str) (id : Str) → (parallel_targets_node ts id ≡ true) ↔ In id ts
unfolding parallel_targets_node
parallel_targets_node_iff [] id = ground arith
parallel_targets_node_iff (t ∷ ts) id = ground (arith, ==_iff t id, parallel_targets_node_iff ts id)

Tracks-explicit :
    (id : Str) (es : List Edge) (c : Collected)
    → Tracks id c
    → Tracks id (explicit_edges_to id es c)
unfolding explicit_edges_to
Tracks-explicit id [] c k s h = k s h
Tracks-explicit id (e ∷ es) c k s h = ground (
  arith,
  λ (p : e.to ≡ id). Tracks-explicit id es (note e e.from e.condition c) (noted p) s,
  Tracks-explicit id es c k s,
  ==_iff e.to id,
)
  where
    noted : e.to ≡ id → Tracks id (note e e.from e.condition c)
    noted p t m =
        ground (arith, HasEdge-note e e.from e.condition c t id, k t, Option-cases e.condition)

Tracks-parallel :
    (id : Str) (ns : List Node) (c : Collected)
    → Tracks id c
    → Tracks id (parallel_edges_to id ns c)
unfolding parallel_edges_to
Tracks-parallel id [] c k s h = k s h
Tracks-parallel id (n ∷ ns) c k s h = ground (
  arith,
  Tracks-parallel id ns c k s,
  Tracks-parallel id ns (offer id n.id c) (Tracks-offer id n.id c k) s,
)

module _ (id u v : Str) where
  explicit_edges_to-HasEdge :
      (es : List Edge) (c : Collected)
      → HasEdge (explicit_edges_to id es c).out u v
        ↔ (HasEdge c.out u v ⊎ ((v ≡ id) × HasEdge es u id))
  unfolding explicit_edges_to
  explicit_edges_to-HasEdge [] c = ground arith
  explicit_edges_to-HasEdge (e ∷ es) c = ground (
    arith,
    explicit_edges_to-HasEdge es (note e e.from e.condition c),
    explicit_edges_to-HasEdge es c,
    HasEdge-note e e.from e.condition c u v,
    ==_iff e.to id,
  )

  add_sources-HasEdge :
      (ss : List Str) (c : Collected)
      → Tracks id c
      → HasEdge (add_sources id ss c).out u v ↔ (HasEdge c.out u v ⊎ ((v ≡ id) × In u ss))
  unfolding add_sources
  add_sources-HasEdge [] c k = ground arith
  add_sources-HasEdge (s ∷ ss) c k = ground (
    arith,
    add_sources-HasEdge ss (offer id s c) (Tracks-offer id s c k),
    HasEdge-offer id s c u v k,
  )

  parallel_edges_to-HasEdge :
      (ns : List Node) (c : Collected)
      → Tracks id c
      → HasEdge (parallel_edges_to id ns c).out u v
        ↔ (HasEdge c.out u v ⊎ ((v ≡ id) × HasFanOut ns u id))
  unfolding parallel_edges_to
  parallel_edges_to-HasEdge [] c k = ground arith
  parallel_edges_to-HasEdge (n ∷ ns) c k = ground (
    arith,
    parallel_edges_to-HasEdge ns c k,
    parallel_edges_to-HasEdge ns (offer id n.id c) (Tracks-offer id n.id c k),
    HasEdge-offer id n.id c u v k,
    parallel_targets_node_iff (parallel_targets n.config) id,
  )

HasFanIn→In : (ns : List Node) (u v : Str) → HasFanIn ns u v → In v (ids ns)
HasFanIn→In [] u v h = h
HasFanIn→In (n ∷ ns) u v h = ground (arith, HasFanIn→In ns u v)

HasFanIn-found :
    (id u : Str) (ns : List Node) (n : Node)
    → Distinct (ids ns)
    → find_node id ns ≡ some n
    → HasFanIn ns u id ↔ In u (fan_in_sources n.config)
unfolding find_node
HasFanIn-found id u [] n d h = cc
HasFanIn-found id u (m ∷ ns) n d h =
    ground (arith, ==_iff m.id id, HasFanIn-found id u ns n d.1, HasFanIn→In ns u id)

HasFanIn-missing : (id u : Str) (ns : List Node) → find_node id ns ≡ none → ¬ HasFanIn ns u id
unfolding find_node
HasFanIn-missing id u [] h = λ f. f
HasFanIn-missing id u (m ∷ ns) h = ground (arith, ==_iff m.id id, HasFanIn-missing id u ns)

fan_in_edges_to-HasEdge :
    (w : Workflow) (id u v : Str) (c : Collected)
    → HasUniqueIds w
    → Tracks id c
    → HasEdge (fan_in_edges_to w id c).out u v
      ↔ (HasEdge c.out u v ⊎ ((v ≡ id) × HasFanIn w.nodes u id))
unfolding fan_in_edges_to node
fan_in_edges_to-HasEdge w id u v c d k = elim (Option-cases (find_node id w.nodes)) [
  | inl e ↦ ground (arith, HasFanIn-missing id u w.nodes e)
  | inr (n, e) ↦ ground (
    arith,
    HasFanIn-found id u w.nodes n d e,
    add_sources-HasEdge id u v (fan_in_sources n.config) c k,
  )
]

-- If no two nodes share an ID, EdgesTo(id) has an edge from u to v exactly if v is id and the
-- workflow has an arc from u to id: an explicit edge, a fan-out target or a fan-in join.
pub edges_to-Arc :
    (w : Workflow) (id u v : Str)
    → HasUniqueIds w
    → HasEdge (edges_to w id) u v ↔ ((v ≡ id) × Arc w u id)
unfolding edges_to
edges_to-Arc w id u v d =
    let explicit = explicit_edges_to id w.edges nothing in
    let fanned = parallel_edges_to id w.nodes explicit in
    let tracked : Tracks id explicit = Tracks-explicit id w.edges nothing (λ t h. absurd h) in
    ground (
      arith,
      explicit_edges_to-HasEdge id u v w.edges nothing,
      parallel_edges_to-HasEdge id u v w.nodes explicit tracked,
      fan_in_edges_to-HasEdge w id u v fanned d (Tracks-parallel id w.nodes explicit tracked),
    )

-- If no two nodes share an ID, an edge from u to v stands among EdgesFrom(u) exactly if one stands
-- among EdgesTo(v), for any u and v.
pub edges_from_iff_edges_to :
    (w : Workflow) (u v : Str)
    → HasUniqueIds w
    → HasEdge (edges_from w u) u v ↔ HasEdge (edges_to w v) u v
edges_from_iff_edges_to w u v d = ground (arith, edges_from-Arc w u u v d, edges_to-Arc w v u v d)
