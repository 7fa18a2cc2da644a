-- ===== src/Condition/Kept.antt =====
-- What EnsureConditionsParsed leaves of the workflow's graph, after success and after an error.
use dippin_lang.Base.{
  Str, List, [], ◌∷◌, ◌≡◌, ◌↔◌, inl, inr, refl, ap, sym, Option, none, some, arith, Option-cases,
}
use dippin_lang.Ir.{Workflow, Node, Edge, NodeConfig, manager_loop, ManagerLoopConfig}
use dippin_lang.Ir.Arc.{HasEdge, HasFanOut, HasFanIn, Arc, Reach, here, step, ids}
use dippin_lang.Ir.Lookup.{parallel_targets, fan_in_sources}
use dippin_lang.Condition.Ensure.{
  EnsureError, ensure_steer, ensure_config, ensure_edge_condition_parsed,
  ensure_node_conditions_parsed, ensure_all, ensure_conditions_parsed,
}

module _ (u v : Str) where
  HasEdge-ensure_all :
      (es : List Edge) → HasEdge (ensure_all ensure_edge_condition_parsed es).0 u v ↔ HasEdge es u v
  unfolding ensure_all ensure_edge_condition_parsed
  HasEdge-ensure_all [] = ((λ h. h), λ h. h)
  HasEdge-ensure_all (e ∷ es) = elim (Option-cases (ensure_edge_condition_parsed e).1) [
    | inl x ↦ ground (arith, HasEdge-ensure_all es)
    | inr (bad, x) ↦ ground arith
  ]

-- A node keeps its ID and, as a manager loop has neither, its targets and sources.
record SameNode (n m : Node) : Type 0 where
  id : m.id ≡ n.id
  targets : parallel_targets m.config ≡ parallel_targets n.config
  sources : fan_in_sources m.config ≡ fan_in_sources n.config

SameNode-loop :
    (n : Node) (cfg c : ManagerLoopConfig)
    → n.config ≡ manager_loop cfg
    → SameNode n (record n { config = manager_loop c })
SameNode-loop n cfg c e = record {
  id = refl;
  targets = ap parallel_targets (sym e);
  sources = ap fan_in_sources (sym e);
}

ensure_steer-SameNode :
    (n : Node) (cfg c : ManagerLoopConfig) (o : Option EnsureError)
    → n.config ≡ manager_loop cfg
    → SameNode n (ensure_steer n c o).0
ensure_steer-SameNode n cfg c none e = SameNode-loop n cfg _ e
ensure_steer-SameNode n cfg c (some x) e = SameNode-loop n cfg c e

ensure_node-SameNode : (n : Node) → SameNode n (ensure_node_conditions_parsed n).0
unfolding ensure_node_conditions_parsed
ensure_node-SameNode n = go n.config refl
  where
    go : (cfg : NodeConfig) → n.config ≡ cfg → SameNode n (ensure_config n cfg).0
    go (manager_loop cfg) e = ensure_steer-SameNode n cfg _ _ e
    go _ e = record { id = refl; targets = refl; sources = refl }

-- Both lists of nodes give the same IDs, fan-outs and joins.
record SameNodes (ns ms : List Node) : Type 0 where
  ids : ids ms ≡ ids ns
  fan_out : (u v : Str) → HasFanOut ms u v ↔ HasFanOut ns u v
  fan_in : (u v : Str) → HasFanIn ms u v ↔ HasFanIn ns u v

SameNodes-refl : (ns : List Node) → SameNodes ns ns
SameNodes-refl ns = record {
  ids = refl;
  fan_out = λ u v. ((λ h. h), λ h. h);
  fan_in = λ u v. ((λ h. h), λ h. h);
}

SameNodes-cons :
    (n m : Node) (ns ms : List Node) → SameNode n m → SameNodes ns ms → SameNodes (n ∷ ns) (m ∷ ms)
SameNodes-cons n m ns ms h k = record {
  ids = rw (h.id, k.ids);
  fan_out = λ u v. rw (h.id, h.targets) (ground (arith, k.fan_out u v));
  fan_in = λ u v. rw (h.id, h.sources) (ground (arith, k.fan_in u v));
}

ensure_all-SameNodes :
    (ns : List Node) → SameNodes ns (ensure_all ensure_node_conditions_parsed ns).0
unfolding ensure_all
ensure_all-SameNodes [] = SameNodes-refl []
ensure_all-SameNodes (n ∷ ns) = elim (Option-cases (ensure_node_conditions_parsed n).1) [
  | inl x ↦
      rw (x, ensure_all)
        (SameNodes-cons n _ ns _ (ensure_node-SameNode n) (ensure_all-SameNodes ns))
  | inr (bad, x) ↦
      rw (x, ensure_all) (SameNodes-cons n _ ns ns (ensure_node-SameNode n) (SameNodes-refl ns))
]

pub record SameGraph (w w' : Workflow) : Type 0 where
  pub start : w'.start ≡ w.start
  pub exit : w'.exit ≡ w.exit
  pub ids : ids w'.nodes ≡ ids w.nodes
  pub arcs : (u v : Str) → Arc w' u v ↔ Arc w u v

-- Parsing the conditions of a workflow leaves its start and exit, its node IDs and its arcs as they
-- are, whether it succeeds or stops at an error.
pub ensure_conditions_parsed-SameGraph : (w : Workflow) → SameGraph w (ensure_conditions_parsed w).0
unfolding ensure_conditions_parsed
ensure_conditions_parsed-SameGraph w =
    let edges = λ (u v : Str). HasEdge-ensure_all u v w.edges in
    let nodes = ensure_all-SameNodes w.nodes in
    elim (Option-cases (ensure_all ensure_edge_condition_parsed w.edges).1) [
      | inl x ↦
          rw (x, ensure_conditions_parsed)
            (record {
              start = refl;
              exit = refl;
              ids = nodes.ids;
              arcs = λ u v. ground (arith, edges u v, nodes.fan_out u v, nodes.fan_in u v);
            })
      | inr (bad, x) ↦
          rw (x, ensure_conditions_parsed)
            (record {
              start = refl;
              exit = refl;
              ids = refl;
              arcs = λ u v. ground (arith, edges u v);
            })
    ]

pub Reach-SameGraph : {w w' : Workflow} {u v : Str} → SameGraph w w' → Reach w' u v → Reach w u v
Reach-SameGraph g here = here
Reach-SameGraph g (step {u} {v} p a) = step (Reach-SameGraph g p) ((g.arcs u v).0 a)
