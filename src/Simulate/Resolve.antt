-- ===== src/Simulate/Resolve.antt =====
-- resolveNext of simulate/simulate.go: which edge is taken out of a node.
use dippin_lang.Base.{
  Str, List, [], ◌∷◌, Bool, true, false, ◌&&◌, not, ltb, Option, none, some, value_at, delete,
  if◌then◌else◌, bytes, has_substring, to_lower,
}
use dippin_lang.Ir.{Workflow, Node, NodeConfig, human, Edge, Condition, ConditionExpr}
use dippin_lang.Ir.Lookup.{edges_from}
use dippin_lang.Condition.Eval.{eval_condition}
use dippin_lang.Simulate.State.{edge_traverse, context_update, Options, Sim, emit}
use dippin_lang.Simulate.Visit.{visits_of}

abbrev pub condition_text : Option Condition → Str
condition_text none = []
condition_text (some c) = c.raw

unfoldable pub emit_edge_traverse : Edge → Sim → Sim
emit_edge_traverse e s =
    emit (edge_traverse e.from e.to (condition_text e.condition) e.label e.restart) s

-- The first edge that passes the test: the loop of the five searches below.
unfoldable pub first_edge : (Edge → Bool) → List Edge → Option Edge
first_edge p [] = none
first_edge p (e ∷ es) = if p e then some e else first_edge p es

-- An edge that is found is traversed.
abbrev pub Choice : Type 0
Choice = Option Edge × Sim

unfoldable pub traverse : Option Edge → Sim → Choice
traverse none s = (none, s)
traverse (some e) s = (some e, emit_edge_traverse e s)

unfoldable pub match_edge_label : List Edge → Str → Sim → Choice
match_edge_label edges target s =
    traverse (first_edge (λ e. has_substring (to_lower e.label) (to_lower target)) edges) s

abbrev pub kw_preferred_label : Str
kw_preferred_label = bytes "preferred_label"

abbrev pub by_label : Str → List Edge → Sim → Choice
by_label [] edges s = (none, s)
by_label (c ∷ label) edges s =
    match_edge_label edges (c ∷ label) (record s { ctx = delete kw_preferred_label s.ctx })

unfoldable pub resolve_by_label : NodeConfig → List Edge → Sim → Choice
resolve_by_label (human cfg) edges s = by_label (value_at kw_preferred_label s.ctx) edges s
resolve_by_label _ edges s = (none, s)

-- A condition with a parsed form, and its value.
abbrev pub condition_is : (ConditionExpr → Bool) → Option Condition → Bool
condition_is p none = false
condition_is p (some c) = elim c.parsed [ none ↦ false | some e ↦ p e ]

abbrev pub is_unconditional : Option Condition → Bool
is_unconditional none = true
is_unconditional (some c) = false

unfoldable pub first_non_matching_cond : Workflow → List Edge → Sim → Choice
first_non_matching_cond w edges s =
    traverse
      (first_edge (λ e. condition_is (λ x. not (eval_condition s.ctx w.goal x)) e.condition) edges)
      s

unfoldable pub first_matching_conditional : Workflow → List Edge → Sim → Choice
first_matching_conditional w edges s =
    traverse (first_edge (λ e. condition_is (eval_condition s.ctx w.goal) e.condition) edges) s

unfoldable pub first_unconditional : List Edge → Sim → Choice
first_unconditional edges s = traverse (first_edge (λ e. is_unconditional e.condition) edges) s

-- The next search runs only if the one before found nothing.
unfoldable pub or_else : Choice → (Sim → Choice) → Choice
or_else (none, s) next = next s
or_else (some e, s) next = (some e, s)

unfoldable pub find_matching_edge : Workflow → List Edge → Sim → Choice
find_matching_edge w edges s =
    or_else (first_matching_conditional w edges s) (first_unconditional edges)

unfoldable pub should_break_loop : Options → Str → Sim → Bool
should_break_loop opts node_id s =
    ltb 0 opts.max_node_visits && ltb opts.max_node_visits (visits_of node_id s)

unfoldable pub emit_loop_break : Str → Sim → Sim
emit_loop_break node_id s = emit (context_update (bytes "_loop_break") node_id) s

unfoldable pub take_edge : Edge → Sim → Choice
take_edge e s = (some e, emit_edge_traverse e s)

-- forceLoopExit; the first edge is the last resort.
unfoldable pub force_loop_exit : Workflow → Str → Edge → List Edge → Sim → Choice
force_loop_exit w node_id first rest s =
    or_else (first_non_matching_cond w (first ∷ rest) (emit_loop_break node_id s))
      λ s'. or_else (first_unconditional (first ∷ rest) s') (take_edge first)

unfoldable pub resolve_conditional_next : Workflow → Options → Str → Edge → List Edge → Sim → Choice
resolve_conditional_next w opts node_id first rest s =
    if should_break_loop opts node_id s
    then force_loop_exit w node_id first rest s
    else or_else (find_matching_edge w (first ∷ rest) s) (take_edge first)

-- resolveNext over the edges out of the node; `none` is the answer "" for a node with no edge.
unfoldable pub resolve_edges : Workflow → Options → Node → List Edge → Sim → Choice
resolve_edges w opts n [] s = (none, s)
resolve_edges w opts n (e ∷ []) s =
    if is_unconditional e.condition
    then take_edge e s
    else or_else (resolve_by_label n.config (e ∷ []) s) (resolve_conditional_next w opts n.id e [])
resolve_edges w opts n (e ∷ f ∷ es) s =
    or_else (resolve_by_label n.config (e ∷ f ∷ es) s)
      (resolve_conditional_next w opts n.id e (f ∷ es))

abbrev pub target_of : Option Edge → Str
target_of none = []
target_of (some e) = e.to

unfoldable pub resolve_next : Workflow → Options → Node → Sim → Str × Sim
resolve_next w opts n s =
    let (chosen, s') = resolve_edges w opts n (edges_from w n.id) s in (target_of chosen, s')
