-- ===== src/Simulate/Frame/Choice.antt =====
-- What the choice of the next node leaves alone: resolveNext and what it calls.
use dippin_lang.Base.{Str, List, [], ◌∷◌, refl, inl, inr, Option, none, some, Bool-cases, bytes}
use dippin_lang.Ir.{Workflow, Node, NodeConfig, human, Edge}
use dippin_lang.Ir.Lookup.{edges_from}
use dippin_lang.Simulate.State.{context_update, Options, Sim}
use dippin_lang.Simulate.Resolve.{
  Choice, emit_edge_traverse, traverse, or_else, resolve_next, resolve_edges, take_edge, by_label,
  match_edge_label, resolve_by_label, force_loop_exit, find_matching_edge, resolve_conditional_next,
  should_break_loop, is_unconditional, first_unconditional, first_non_matching_cond,
  first_matching_conditional, emit_loop_break,
}
use dippin_lang.Simulate.Frame.{Same, Same-refl, Same-trans, Same-emit, Same-ctx}

Same-traverse : (o : Option Edge) (s : Sim) → Same s (traverse o s).1
unfolding traverse emit_edge_traverse
Same-traverse none s = Same-refl s
Same-traverse (some e) s = Same-emit _ s refl

Same-or_else :
    (c : Choice) (next : Sim → Choice) (s : Sim)
    → Same s c.1
    → ((t : Sim) → Same t (next t).1)
    → Same s (or_else c next).1
unfolding or_else
Same-or_else (none, t) next s h k = Same-trans h (k t)
Same-or_else (some e, t) next s h k = h

Same-take_edge : (e : Edge) (s : Sim) → Same s (take_edge e s).1
unfolding take_edge traverse
Same-take_edge e s = Same-traverse (some e) s

Same-by_label : (label : Str) (es : List Edge) (s : Sim) → Same s (by_label label es s).1
unfolding match_edge_label
Same-by_label [] es s = Same-refl s
Same-by_label (c ∷ label) es s = Same-trans (Same-ctx s _) (Same-traverse _ _)

Same-resolve_by_label :
    (cfg : NodeConfig) (es : List Edge) (s : Sim) → Same s (resolve_by_label cfg es s).1
unfolding resolve_by_label
Same-resolve_by_label (human cfg) es s = Same-by_label _ es s
Same-resolve_by_label _ es s = Same-refl s

Same-loop_break : (id : Str) (s : Sim) → Same s (emit_loop_break id s)
unfolding emit_loop_break
Same-loop_break id s = Same-emit (context_update (bytes "_loop_break") id) s refl

Same-unconditional : (es : List Edge) (s : Sim) → Same s (first_unconditional es s).1
unfolding first_unconditional
Same-unconditional es s = Same-traverse _ s

module _ (w : Workflow) (opts : Options) where
  Same-non_matching : (es : List Edge) (s : Sim) → Same s (first_non_matching_cond w es s).1
  unfolding first_non_matching_cond
  Same-non_matching es s = Same-traverse _ s

  Same-matching : (es : List Edge) (s : Sim) → Same s (first_matching_conditional w es s).1
  unfolding first_matching_conditional
  Same-matching es s = Same-traverse _ s

  Same-force_loop_exit :
      (id : Str) (e : Edge) (es : List Edge) (s : Sim) → Same s (force_loop_exit w id e es s).1
  unfolding force_loop_exit
  Same-force_loop_exit id e es s =
      Same-or_else _ _ s
        (Same-trans (Same-loop_break id s) (Same-non_matching (e ∷ es) (emit_loop_break id s)))
        λ t. Same-or_else _ _ t (Same-unconditional (e ∷ es) t) (Same-take_edge e)

  Same-find_matching_edge : (es : List Edge) (s : Sim) → Same s (find_matching_edge w es s).1
  unfolding find_matching_edge
  Same-find_matching_edge es s = Same-or_else _ _ s (Same-matching es s) (Same-unconditional es)

  Same-resolve_conditional_next :
      (id : Str) (e : Edge) (es : List Edge) (s : Sim)
      → Same s (resolve_conditional_next w opts id e es s).1
  unfolding resolve_conditional_next
  Same-resolve_conditional_next id e es s = elim (Bool-cases (should_break_loop opts id s)) [
    | inl b ↦ rw b (Same-force_loop_exit id e es s)
    | inr b ↦ rw b (Same-or_else _ _ s (Same-find_matching_edge (e ∷ es) s) (Same-take_edge e))
  ]

  Same-resolve_edges :
      (n : Node) (es : List Edge) (s : Sim) → Same s (resolve_edges w opts n es s).1
  unfolding resolve_edges
  Same-resolve_edges n [] s = Same-refl s
  Same-resolve_edges n (e ∷ []) s = elim (Bool-cases (is_unconditional e.condition)) [
    | inl b ↦ rw b (Same-take_edge e s)
    | inr b ↦ rw b (
        Same-or_else _ _ s (Same-resolve_by_label n.config (e ∷ []) s)
          (Same-resolve_conditional_next n.id e []))
  ]
  Same-resolve_edges n (e ∷ f ∷ es) s =
      Same-or_else _ _ s (Same-resolve_by_label n.config (e ∷ f ∷ es) s)
        (Same-resolve_conditional_next n.id e (f ∷ es))

  pub Same-resolve_next : (n : Node) (s : Sim) → Same s (resolve_next w opts n s).1
  unfolding resolve_next
  Same-resolve_next n s = Same-resolve_edges n (edges_from w n.id) s
