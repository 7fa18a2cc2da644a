-- ===== src/Validate/Cycles/Exact.antt =====
-- DIP005 against the walks along the edges that are not marked restart.
use dippin_lang.Base.{Str, List, [], ◌∷◌, ◌≡◌, ◌↔◌, ◌⊎◌, refl, sym, ◌∙◌, arith, In, not, select}
use dippin_lang.Ir.{Workflow, Edge}
use dippin_lang.Ir.Arc.{HasEdge, ids}
use dippin_lang.Search.{Adjacency, successors, append_at}
use dippin_lang.Search.Correct.{Walk}
use dippin_lang.Search.Correct
use dippin_lang.Coverage.Graph.{In-successors-append_at}
use dippin_lang.Validate.Defs.{check_start_exists}
use dippin_lang.Validate.Cycles.{
  non_restart, build_non_restart_adjacency, new_detector, detect_cycles_dfs, check_no_cycles,
}
use dippin_lang.Validate.Cycles.Ordered.{silent_no_cycle}
use dippin_lang.Validate.Cycles.Quiet.{visit_nodes_quiet, new-IsGray}

-- The edges that are not marked restart.
abbrev pub forward_edges : Workflow → List Edge
forward_edges w = select (λ (e : Edge). not e.restart) w.edges

-- The walks along them.
pub data Follow (w : Workflow) (src : Str) : Str → Type 0 where
  here : Follow w src src
  step : {u v : Str} → Follow w src u → HasEdge (forward_edges w) u v → Follow w src v

-- Such a walk of one edge or more leads from the node back to it.
abbrev pub IsLooping : Workflow → Str → Type 0
IsLooping w v = (u : Str) × Follow w v u × HasEdge (forward_edges w) u v

non_restart_iff :
    (u v : Str) (es : List Edge) (adj : Adjacency)
    → In v (successors (non_restart es adj) u)
      ↔ (HasEdge (select (λ (e : Edge). not e.restart) es) u v ⊎ In v (successors adj u))
unfolding non_restart
non_restart_iff u v [] adj = ground arith
non_restart_iff u v (e ∷ es) adj = ground (
  arith,
  non_restart_iff u v es adj,
  non_restart_iff u v es (append_at e.from (e.to ∷ []) adj),
  In-successors-append_at e.from v u (e.to ∷ []) adj,
)

module _ (w : Workflow) where
  forward_iff :
      (u v : Str)
      → In v (successors (build_non_restart_adjacency w) u) ↔ HasEdge (forward_edges w) u v
  unfolding build_non_restart_adjacency successors
  forward_iff u v = ground (arith, non_restart_iff u v w.edges [])

  Walk→Follow : {u v : Str} → Walk (build_non_restart_adjacency w) u v → Follow w u v
  Walk→Follow Correct.here = here
  Walk→Follow (Correct.step {u} {v} p m) = step (Walk→Follow p) ((forward_iff u v).0 m)

  Follow→Walk : {u v : Str} → Follow w u v → Walk (build_non_restart_adjacency w) u v
  Follow→Walk here = Correct.here
  Follow→Walk (step {u} {v} p e) = Correct.step (Follow→Walk p) ((forward_iff u v).1 e)

  check_no_cycles-eq :
      check_start_exists w ≡ []
      → check_no_cycles w ≡ detect_cycles_dfs w (build_non_restart_adjacency w)
  unfolding check_start_exists check_no_cycles
  check_no_cycles-eq h = ground arith

-- Where the start node is there, DIP005 is silent exactly if no walk along edges that are not marked
-- restart leads from a node of the workflow to one that has such a walk back to itself.
pub check_no_cycles_iff :
    (w : Workflow)
    → check_start_exists w ≡ []
    → (check_no_cycles w ≡ []) ↔ ((x v : Str) → In x (ids w.nodes) → Follow w x v → ¬ IsLooping w v)
unfolding detect_cycles_dfs
check_no_cycles_iff w h =
    let adj = build_non_restart_adjacency w in
    let same = check_no_cycles-eq w h in
    (
      λ e x v i p (u, q, last).
          silent_no_cycle adj w.nodes x v (sym same ∙ e) i (Follow→Walk w p)
            (u, Follow→Walk w q, (forward_iff w u v).1 last),
      λ none_there.
          same
          ∙ visit_nodes_quiet adj (λ v. (x : Str) × In x (ids w.nodes) × Walk adj x v)
              (λ u v (x, i, p) s. (x, i, Correct.step p s))
              (λ v (x, i, p) (u, q, last).
                none_there x v i (Walk→Follow w p) (u, Walk→Follow w q, (forward_iff w u v).0 last))
              w.nodes new_detector (λ x i. (x, i, Correct.here)) new-IsGray refl,
    )
