-- ===== src/Ir/Lookup/Outgoing.antt =====
-- What EdgesFrom returns: each loop's result in terms of what it started from.
use dippin_lang.Base.{
  Str, List, [], ◌∷◌, ◌≡◌, ◌↔◌, ◌⊎◌, inl, inr, In, Distinct, arith, none, some, ==_iff,
  contains_iff, Option-cases, Option, if◌then◌else◌, contains,
}
use dippin_lang.Ir.{Workflow, Node, Edge, Condition}
use dippin_lang.Ir.Arc.{
  HasEdge, HasFanOut, HasFanIn, Arc, HasUniqueIds, HasEdge-append, HasFanOut→In, ids,
}
use dippin_lang.Ir.Lookup.{
  Collected, find_node, node, explicit_edges_from, add_targets, parallel_edges_from,
  add_fan_in_source_edges, fan_in_edges_from, edges_from, parallel_targets, fan_in_sources,
  plain_edge, nothing, emit, note,
}

-- What `seen` holds has an edge in `out`.
abbrev Tracks : Str → Collected → Type 0
Tracks id c = (t : Str) → In t c.seen → HasEdge c.out id t

pub HasEdge-note :
    (e : Edge) (k : Str) (o : Option Condition) (c : Collected) (u v : Str)
    → HasEdge (note e k o c).out u v ↔ (HasEdge c.out u v ⊎ ((e.from ≡ u) × (e.to ≡ v)))
HasEdge-note e k none c u v = ground (arith, HasEdge-append c.out (e ∷ []) u v)
HasEdge-note e k (some _) c u v = ground (arith, HasEdge-append c.out (e ∷ []) u v)

-- The step of the loops over implicit edges: an edge unless its target has been seen.
abbrev offer : Str → Str → Collected → Collected
offer id t c = if contains c.seen t then c else emit (plain_edge id t) t c

HasEdge-offer :
    (id t : Str) (c : Collected) (u v : Str)
    → Tracks id c
    → HasEdge (offer id t c).out u v ↔ (HasEdge c.out u v ⊎ ((u ≡ id) × (v ≡ t)))
HasEdge-offer id t c u v k =
    ground (arith, HasEdge-append c.out (plain_edge id t ∷ []) u v, contains_iff c.seen t, k t)

Tracks-offer : (id t : Str) (c : Collected) → Tracks id c → Tracks id (offer id t c)
Tracks-offer id t c k s h =
    ground (arith, HasEdge-append c.out (plain_edge id t ∷ []) id s, contains_iff c.seen t, k s)

module _ (id u v : Str) where
  explicit_edges_from-HasEdge :
      (es : List Edge) (c : Collected)
      → HasEdge (explicit_edges_from id es c).out u v
        ↔ (HasEdge c.out u v ⊎ ((u ≡ id) × HasEdge es id v))
  unfolding explicit_edges_from
  explicit_edges_from-HasEdge [] c = ground arith
  explicit_edges_from-HasEdge (e ∷ es) c = ground (
    arith,
    explicit_edges_from-HasEdge es (note e e.to e.condition c),
    explicit_edges_from-HasEdge es c,
    HasEdge-note e e.to e.condition c u v,
    ==_iff e.from id,
  )

  add_targets-HasEdge :
      (ts : List Str) (c : Collected)
      → Tracks id c
      → HasEdge (add_targets id ts c).out u v ↔ (HasEdge c.out u v ⊎ ((u ≡ id) × In v ts))
  unfolding add_targets
  add_targets-HasEdge [] c k = ground arith
  add_targets-HasEdge (t ∷ ts) c k = ground (
    arith,
    add_targets-HasEdge ts (offer id t c) (Tracks-offer id t c k),
    HasEdge-offer id t c u v k,
  )

  add_fan_in_source_edges-HasEdge :
      (fid : Str) (ss : List Str) (c : Collected)
      → Tracks id c
      → HasEdge (add_fan_in_source_edges id fid ss c).out u v
        ↔ (HasEdge c.out u v ⊎ ((u ≡ id) × (v ≡ fid) × In id ss))
  unfolding add_fan_in_source_edges
  add_fan_in_source_edges-HasEdge fid [] c k = ground arith
  add_fan_in_source_edges-HasEdge fid (s ∷ ss) c k = ground (
    arith,
    add_fan_in_source_edges-HasEdge fid ss c k,
    add_fan_in_source_edges-HasEdge fid ss (offer id fid c) (Tracks-offer id fid c k),
    HasEdge-offer id fid c u v k,
    ==_iff s id,
  )

Tracks-note :
    (id : Str) (e : Edge) (c : Collected)
    → e.from ≡ id
    → Tracks id c
    → Tracks id (note e e.to e.condition c)
Tracks-note id e c p k t h =
    ground (arith, HasEdge-note e e.to e.condition c id t, k t, Option-cases e.condition)

Tracks-explicit :
    (id : Str) (es : List Edge) (c : Collected)
    → Tracks id c
    → Tracks id (explicit_edges_from id es c)
unfolding explicit_edges_from
Tracks-explicit id [] c k t h = k t h
Tracks-explicit id (e ∷ es) c k t h = ground (
  arith,
  λ (p : e.from ≡ id). Tracks-explicit id es (note e e.to e.condition c) (Tracks-note id e c p k) t,
  Tracks-explicit id es c k t,
  ==_iff e.from id,
)

Tracks-targets :
    (id : Str) (ts : List Str) (c : Collected) → Tracks id c → Tracks id (add_targets id ts c)
unfolding add_targets
Tracks-targets id [] c k = k
Tracks-targets id (t ∷ ts) c k = Tracks-targets id ts (offer id t c) (Tracks-offer id t c k)

Tracks-sources :
    (id fid : Str) (ss : List Str) (c : Collected)
    → Tracks id c
    → Tracks id (add_fan_in_source_edges id fid ss c)
unfolding add_fan_in_source_edges
Tracks-sources id fid [] c k t h = k t h
Tracks-sources id fid (s ∷ ss) c k t h = ground (
  arith,
  Tracks-sources id fid ss c k t,
  Tracks-sources id fid ss (offer id fid c) (Tracks-offer id fid c k) t,
)

fan_in_edges_from-HasEdge :
    (id u v : Str) (ns : List Node) (c : Collected)
    → Tracks id c
    → HasEdge (fan_in_edges_from id ns c).out u v
      ↔ (HasEdge c.out u v ⊎ ((u ≡ id) × HasFanIn ns id v))
unfolding fan_in_edges_from
fan_in_edges_from-HasEdge id u v [] c k = ground arith
fan_in_edges_from-HasEdge id u v (n ∷ ns) c k =
    let c' = add_fan_in_source_edges id n.id (fan_in_sources n.config) c in
    ground (
      arith,
      fan_in_edges_from-HasEdge id u v ns c' (Tracks-sources id n.id (fan_in_sources n.config) c k),
      add_fan_in_source_edges-HasEdge id u v n.id (fan_in_sources n.config) c k,
    )

-- The node that the lookup finds is the only one of its ID.
HasFanOut-found :
    (id v : Str) (ns : List Node) (n : Node)
    → Distinct (ids ns)
    → find_node id ns ≡ some n
    → HasFanOut ns id v ↔ In v (parallel_targets n.config)
unfolding find_node
HasFanOut-found id v [] n d h = cc
HasFanOut-found id v (m ∷ ns) n d h =
    ground (arith, ==_iff m.id id, HasFanOut-found id v ns n d.1, HasFanOut→In ns id v)

HasFanOut-missing : (id v : Str) (ns : List Node) → find_node id ns ≡ none → ¬ HasFanOut ns id v
unfolding find_node
HasFanOut-missing id v [] h = λ f. f
HasFanOut-missing id v (m ∷ ns) h = ground (arith, ==_iff m.id id, HasFanOut-missing id v ns)

parallel_edges_from-HasEdge :
    (w : Workflow) (id u v : Str) (c : Collected)
    → HasUniqueIds w
    → Tracks id c
    → HasEdge (parallel_edges_from w id c).out u v
      ↔ (HasEdge c.out u v ⊎ ((u ≡ id) × HasFanOut w.nodes id v))
unfolding parallel_edges_from node
parallel_edges_from-HasEdge w id u v c d k = elim (Option-cases (find_node id w.nodes)) [
  | inl e ↦ ground (arith, HasFanOut-missing id v w.nodes e)
  | inr (n, e) ↦ ground (
    arith,
    HasFanOut-found id v w.nodes n d e,
    add_targets-HasEdge id u v (parallel_targets n.config) c k,
  )
]

Tracks-parallel :
    (w : Workflow) (id : Str) (c : Collected) → Tracks id c → Tracks id (parallel_edges_from w id c)
unfolding parallel_edges_from
Tracks-parallel w id c k t h = elim (Option-cases (node w id)) [
  | inl e ↦ ground (arith, k t)
  | inr (n, e) ↦ ground (arith, Tracks-targets id (parallel_targets n.config) c k t)
]

pub HasFanOut-first :
    (id v : Str) (ns : List Node) (n : Node)
    → find_node id ns ≡ some n
    → In v (parallel_targets n.config)
    → HasFanOut ns id v
unfolding find_node
HasFanOut-first id v [] n h m = cc
HasFanOut-first id v (k ∷ ns) n h m = ground (arith, ==_iff k.id id, HasFanOut-first id v ns n)

parallel_edges_from_sound :
    (w : Workflow) (id u v : Str) (c : Collected)
    → Tracks id c
    → HasEdge (parallel_edges_from w id c).out u v
    → HasEdge c.out u v ⊎ ((u ≡ id) × HasFanOut w.nodes id v)
unfolding parallel_edges_from node
parallel_edges_from_sound w id u v c k h = elim (Option-cases (find_node id w.nodes)) [
  | inl e ↦ ground arith
  | inr (n, e) ↦ ground (
    arith,
    add_targets-HasEdge id u v (parallel_targets n.config) c k,
    HasFanOut-first id v w.nodes n e,
  )
]

-- Also where IDs are shared, an edge of EdgesFrom(id) leaves id along an arc.
pub edges_from_sound :
    (w : Workflow) (id u v : Str) → HasEdge (edges_from w id) u v → (u ≡ id) × Arc w id v
unfolding edges_from
edges_from_sound w id u v h =
    let explicit = explicit_edges_from id w.edges nothing in
    let fanned = parallel_edges_from w id explicit in
    let tracked : Tracks id explicit = Tracks-explicit id w.edges nothing (λ t h. absurd h) in
    ground (
      arith,
      explicit_edges_from-HasEdge id u v w.edges nothing,
      parallel_edges_from_sound w id u v explicit tracked,
      fan_in_edges_from-HasEdge id u v w.nodes fanned (Tracks-parallel w id explicit tracked),
    )

-- If no two nodes share an ID, EdgesFrom(id) has an edge from u to v exactly if u is id and the
-- workflow has an arc from id to v: an explicit edge, a fan-out target or a fan-in join.
pub edges_from-Arc :
    (w : Workflow) (id u v : Str)
    → HasUniqueIds w
    → HasEdge (edges_from w id) u v ↔ ((u ≡ id) × Arc w id v)
unfolding edges_from
edges_from-Arc w id u v d =
    let explicit = explicit_edges_from id w.edges nothing in
    let fanned = parallel_edges_from w id explicit in
    let tracked : Tracks id explicit = Tracks-explicit id w.edges nothing (λ t h. absurd h) in
    ground (
      arith,
      explicit_edges_from-HasEdge id u v w.edges nothing,
      parallel_edges_from-HasEdge w id u v explicit d tracked,
      fan_in_edges_from-HasEdge id u v w.nodes fanned (Tracks-parallel w id explicit tracked),
    )
