-- ===== src/Simulate/Reachable.antt =====
-- The nodes that a run visits, against the graph of the workflow.
use dippin_lang.Base.{
  Str, List, [], ◌∷◌, ◌≡◌, refl, sym, subst, inl, inr, Bool, true, false, Option, none, some, arith,
  In, In-append, All, All-of_In, In-of_All, contains, contains_iff, if◌then◌else◌, select, map,
  Bool-cases, Option-cases, ◌==◌,
}
use dippin_lang.Ir.{
  Workflow, Node, NodeConfig, parallel, fan_in, ParallelConfig, BranchConfig, manager_loop,
  ManagerLoopConfig,
}
use dippin_lang.Ir.Arc.{Arc, Reach, here, step, HasFanIn}
use dippin_lang.Ir.Lookup.{node, find_node, fan_in_sources}
use dippin_lang.Ir.Lookup.Outgoing.{edges_from_sound, HasFanOut-first}
use dippin_lang.Condition.Ensure.{
  EnsureError, ensure_conditions_parsed, ensure_all, ensure_steer, ensure_config,
  ensure_node_conditions_parsed, ensure_edge_condition_parsed,
}
use dippin_lang.Condition.Kept.{ensure_conditions_parsed-SameGraph, Reach-SameGraph}
use dippin_lang.Simulate.State.{Options, Sim, Report, ok}
use dippin_lang.Simulate.Resolve.{resolve_next}
use dippin_lang.Simulate.Run.{
  is_empty, or_branches, select_branches, resolve_targets, all_in, sources_match_targets,
  find_join_node, joins, some_source, initial, run,
}
use dippin_lang.Simulate.Chosen.{resolve_next-HasEdge}
use dippin_lang.Simulate.Rule.{Visited}
use dippin_lang.Simulate.Keeps.{Keeps, path-Ended, id-node, run_parsed_rule}
use dippin_lang.Simulate.Trace.{run-eq_ok}

-- Every target of the node's branches is among its targets, as the parser builds both forms.
abbrev pub BranchesAreTargets : NodeConfig → Type 0
BranchesAreTargets (parallel cfg) = All (λ t. In t cfg.targets) (map (λ b. b.target) cfg.branches)
BranchesAreTargets _ = Unit

abbrev pub HasTargets : Workflow → Type 0
HasTargets w = All (λ n. BranchesAreTargets n.config) w.nodes

In-select : (p : Str → Bool) (xs : List Str) (x : Str) → In x (select p xs) → In x xs
In-select p [] x h = h
In-select p (y ∷ ys) x h = ground (arith, In-select p ys x)

In-select_branches :
    (opts : Options) (ts : List Str) (x : Str) → In x (select_branches opts ts) → In x ts
unfolding select_branches
In-select_branches opts ts x h = ground (arith, In-select (contains opts.branch) ts x)

In-of_find_node : (id : Str) (ns : List Node) (n : Node) → find_node id ns ≡ some n → In n ns
unfolding find_node
In-of_find_node id [] n h = cc
In-of_find_node id (m ∷ ns) n h = elim (Bool-cases (m.id == id)) [
  | inl e ↦ ground arith
  | inr e ↦ ground (arith, In-of_find_node id ns n)
]

all_in→In : (ts ss : List Str) (x : Str) → all_in ts ss ≡ true → In x ss → In x ts
unfolding all_in
all_in→In ts [] x h m = absurd m
all_in→In ts (s ∷ ss) x h m = ground (arith, all_in→In ts ss x, contains_iff ts s)

joins-source :
    (cfg : NodeConfig) (ts : List Str)
    → joins cfg ts ≡ true
    → (s : Str) × In s ts × In s (fan_in_sources cfg)
unfolding sources_match_targets
joins-source (fan_in cfg) ts h = go cfg.sources h
  where
    go :
        (ss : List Str)
        → (if all_in ts ss then some_source ss else false) ≡ true
        → (s : Str) × In s ts × In s ss
    go [] e = ground arith
    go (s ∷ ss) e = (s, ground (arith, all_in→In ts (s ∷ ss) s), inl refl)
joins-source _ ts h = cc

-- A join that is found has an arc from one of the targets.
find_join_node-HasFanIn :
    (ns : List Node) (ts : List Str)
    → is_empty (find_join_node ns ts) ≡ false
    → (s : Str) × In s ts × HasFanIn ns s (find_join_node ns ts)
unfolding find_join_node
find_join_node-HasFanIn [] ts h = cc
find_join_node-HasFanIn (n ∷ ns) ts h = elim (Bool-cases (joins n.config ts)) [
  | inl e ↦ let (s, m, src) = joins-source n.config ts e in rw e (s, m, inl (refl, src))
  | inr e ↦
      let (s, m, arc) = find_join_node-HasFanIn ns ts (rw (e, find_join_node) at h) in
      rw e (s, m, inr arc)
]

module _ (w : Workflow) (opts : Options) (full : HasTargets w) where
  abbrev Reached : Str → Type 0
  Reached x = Reach w w.start x

  -- The targets of a parallel node, in either form, are targets of its arcs.
  In-resolve_targets :
      (id : Str) (n : Node) (cfg : ParallelConfig) (t : Str)
      → node w id ≡ some n
      → n.config ≡ parallel cfg
      → In t (resolve_targets cfg)
      → Arc w id t
  unfolding resolve_targets node
  In-resolve_targets id n cfg t at e m =
      let inline : In t cfg.targets = among cfg.targets cfg.branches given m in
      inr (inl (HasFanOut-first id t w.nodes n at (rw e inline)))
    where
      given : BranchesAreTargets (parallel cfg)
      given = subst BranchesAreTargets e (
          In-of_All (λ (m : Node). BranchesAreTargets m.config) w.nodes n full
            (In-of_find_node id w.nodes n at))

      among :
          (ts : List Str) (bs : List BranchConfig)
          → All (λ x. In x ts) (map (λ (b : BranchConfig). b.target) bs)
          → In t (or_branches ts bs)
          → In t ts
      among [] bs all h = In-of_All (λ x. In x []) (map (λ (b : BranchConfig). b.target) bs) t all h
      among (x ∷ ts) bs all h = h

  fanned :
      (id : Str) (n : Node) (cfg : ParallelConfig)
      → node w id ≡ some n
      → n.config ≡ parallel cfg
      → Reached id
      → (t : Str) → In t (resolve_targets cfg)
      → Reached t
  fanned id n cfg at e q t m = step q (In-resolve_targets id n cfg t at e m)

  -- All of the path has been reached.
  record PathReached (s : Sim) : Type 0 where
    all : (x : Str) → In x s.path → Reached x

  PathReached-Visited :
      (n : Node) (s t : Sim) → Reached n.id → Visited n s t → PathReached s → PathReached t
  PathReached-Visited n s t q v p = record {
    all = λ x m. elim ((In-append x s.path (n.id ∷ [])).0 (subst (In x) v.path m)) [
      | inl old ↦ p.all x old
      | inr (inl e) ↦ subst Reached (sym e) q
      | inr (inr f) ↦ absurd f
    ];
  }

  Reached-Keeps : Keeps w opts PathReached Reached
  Reached-Keeps = record {
    same = λ s t h p. record { all = λ x m. p.all x (subst (In x) h.path m) };
    counts = λ s p. record { all = p.all };
    visits = PathReached-Visited;
    moves = λ id n s at q h.
        let (u, edge) = resolve_next-HasEdge w opts n s h in
        let (_, arc) = edges_from_sound w n.id u (resolve_next w opts n s).0 edge in
        step q (subst (λ x. Arc w x (resolve_next w opts n s).0) (id-node w id n at) arc);
    fans = λ id n cfg at e q.
        All-of_In Reached (select_branches opts (resolve_targets cfg))
          λ t m. fanned id n cfg at e q t (In-select_branches opts (resolve_targets cfg) t m);
    joined = λ id n cfg at e q h.
        let (s, m, arc) = find_join_node-HasFanIn w.nodes (resolve_targets cfg) h in
        step (fanned id n cfg at e q s m) (inr (inr arc));
  }

HasTargets-steer :
    (n : Node) (cfg : ManagerLoopConfig) (o : Option EnsureError)
    → BranchesAreTargets (ensure_steer n cfg o).0.config
HasTargets-steer n cfg none = tt
HasTargets-steer n cfg (some x) = tt

HasTargets-node :
    (n : Node)
    → BranchesAreTargets n.config
    → BranchesAreTargets (ensure_node_conditions_parsed n).0.config
unfolding ensure_node_conditions_parsed
HasTargets-node n h = go n.config h
  where
    go :
        (cfg : NodeConfig)
        → BranchesAreTargets n.config
        → BranchesAreTargets (ensure_config n cfg).0.config
    go (manager_loop cfg) h = HasTargets-steer n _ _
    go _ h = h

HasTargets-nodes :
    (ns : List Node)
    → All (λ n. BranchesAreTargets n.config) ns
    → All (λ n. BranchesAreTargets n.config) (ensure_all ensure_node_conditions_parsed ns).0
unfolding ensure_all
HasTargets-nodes [] h = tt
HasTargets-nodes (n ∷ ns) h = elim (Option-cases (ensure_node_conditions_parsed n).1) [
  | inl e ↦ rw (e, ensure_all) (HasTargets-node n h.0, HasTargets-nodes ns h.1)
  | inr (x, e) ↦ rw (e, ensure_all) (HasTargets-node n h.0, h.1)
]

HasTargets-ensure : (w : Workflow) → HasTargets w → HasTargets (ensure_conditions_parsed w).0
unfolding ensure_conditions_parsed
HasTargets-ensure w h = elim (Option-cases (ensure_all ensure_edge_condition_parsed w.edges).1) [
  | inl e ↦ rw (e, ensure_conditions_parsed) (HasTargets-nodes w.nodes h)
  | inr (x, e) ↦ rw (e, ensure_conditions_parsed) h
]

PathReached-initial :
    (w : Workflow) (opts : Options) (full : HasTargets w) → PathReached w opts full (initial w opts)
unfolding initial
PathReached-initial w opts full = record { all = λ x m. absurd m }

-- If every parallel node lists its branches' targets among its targets, as the parser builds it, and
-- a run ends with a report, then each node of the report's path is reached from the start node along
-- explicit edges, fan-outs and joins of the workflow: the node set of the reachability analysis.
pub run_reaches :
    (w : Workflow) (opts : Options) (r : Report) (x : Str)
    → HasTargets w
    → run w opts ≡ ok r
    → In x r.path
    → Reach w w.start x
run_reaches w opts r x full h m =
    let w' = (ensure_conditions_parsed w).0 in
    let full' = HasTargets-ensure w full in
    let graph = ensure_conditions_parsed-SameGraph w in
    let e =
      run_parsed_rule w' opts (PathReached w' opts full') (Reached w' opts full')
        (Reached-Keeps w' opts full') r here (PathReached-initial w' opts full')
        (run-eq_ok w opts r h) in
    let reached = e.keeps.all x (subst (In x) (path-Ended r e) m) in
    subst (λ s. Reach w s x) graph.start (Reach-SameGraph graph reached)
