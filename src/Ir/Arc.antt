-- ===== src/Ir/Arc.antt =====
-- The graph that a workflow stands for, apart from the queries of the code: the explicit edges, the
-- fan-out of each parallel node and the joins of each fan-in node.
use dippin_lang.Base.{Str, List, [], ◌∷◌, ◌++◌, ◌≡◌, ◌↔◌, ◌⊎◌, In, Distinct, arith}
use dippin_lang.Ir.{Workflow, Node, Edge}
use dippin_lang.Ir.Lookup.{parallel_targets, fan_in_sources}

-- An edge from `u` to `v` stands in the list.
abbrev pub HasEdge : List Edge → Str → Str → Type 0
HasEdge [] u v = ⊥
HasEdge (e ∷ es) u v = ((e.from ≡ u) × (e.to ≡ v)) ⊎ HasEdge es u v

-- A parallel node `u` has the target `v`.
abbrev pub HasFanOut : List Node → Str → Str → Type 0
HasFanOut [] u v = ⊥
HasFanOut (n ∷ ns) u v = ((n.id ≡ u) × In v (parallel_targets n.config)) ⊎ HasFanOut ns u v

-- A fan-in node `v` has the source `u`.
abbrev pub HasFanIn : List Node → Str → Str → Type 0
HasFanIn [] u v = ⊥
HasFanIn (n ∷ ns) u v = ((n.id ≡ v) × In u (fan_in_sources n.config)) ⊎ HasFanIn ns u v

abbrev pub Arc : Workflow → Str → Str → Type 0
Arc w u v = HasEdge w.edges u v ⊎ (HasFanOut w.nodes u v ⊎ HasFanIn w.nodes u v)

-- The walks from `src` along arcs.
pub data Reach (w : Workflow) (src : Str) : Str → Type 0 where
  here : Reach w src src
  step : {u v : Str} → Reach w src u → Arc w u v → Reach w src v

pub Reach-trans : {w : Workflow} {a b c : Str} → Reach w a b → Reach w b c → Reach w a c
Reach-trans p here = p
Reach-trans p (step q e) = step (Reach-trans p q) e

-- No two nodes share their ID, as DIP008 demands.
abbrev pub ids : List Node → List Str
ids [] = []
ids (n ∷ ns) = n.id ∷ ids ns

abbrev pub HasUniqueIds : Workflow → Type 0
HasUniqueIds w = Distinct (ids w.nodes)

pub HasEdge-append :
    (xs ys : List Edge) (u v : Str) → HasEdge (xs ++ ys) u v ↔ (HasEdge xs u v ⊎ HasEdge ys u v)
HasEdge-append [] ys u v = ground arith
HasEdge-append (x ∷ xs) ys u v = ground (arith, HasEdge-append xs ys u v)

pub HasFanOut→In : (ns : List Node) (u v : Str) → HasFanOut ns u v → In u (ids ns)
HasFanOut→In [] u v h = h
HasFanOut→In (n ∷ ns) u v h = ground (arith, HasFanOut→In ns u v)
