-- ===== src/Simulate/Chosen.antt =====
-- The edge that resolveNext takes, among those of EdgesFrom.
use dippin_lang.Base.{
  Str, List, [], ◌∷◌, ◌≡◌, refl, inl, inr, Bool, false, Option, none, some, Bool-cases,
}
use dippin_lang.Ir.{Workflow, Node, NodeConfig, human, Edge}
use dippin_lang.Ir.Arc.{HasEdge}
use dippin_lang.Ir.Lookup.{edges_from}
use dippin_lang.Simulate.State.{Options, Sim}
use dippin_lang.Simulate.Run.{is_empty}
use dippin_lang.Simulate.Resolve.{
  Choice, first_edge, traverse, or_else, take_edge, by_label, match_edge_label, resolve_by_label,
  emit_loop_break, first_non_matching_cond, first_matching_conditional, first_unconditional,
  find_matching_edge, should_break_loop, force_loop_exit, resolve_conditional_next, resolve_edges,
  resolve_next, is_unconditional, target_of,
}

abbrev IsAmong : List Edge → Option Edge → Type 0
IsAmong es none = Unit
IsAmong es (some e) = HasEdge es e.from e.to

record Chosen (es : List Edge) (c : Choice) : Type 0 where
  among : IsAmong es c.0

IsAmong-first_edge : (p : Edge → Bool) (es : List Edge) → IsAmong es (first_edge p es)
unfolding first_edge
IsAmong-first_edge p [] = tt
IsAmong-first_edge p (e ∷ es) = elim (Bool-cases (p e)) [
  | inl h ↦ rw h (inl (refl, refl))
  | inr h ↦ rw h (IsAmong-cons (first_edge p es) (IsAmong-first_edge p es))
]
  where
    IsAmong-cons : (o : Option Edge) → IsAmong es o → IsAmong (e ∷ es) o
    IsAmong-cons none h = tt
    IsAmong-cons (some x) h = inr h

Chosen-first_edge :
    (p : Edge → Bool) (es : List Edge) (s : Sim) → Chosen es (traverse (first_edge p es) s)
unfolding traverse
Chosen-first_edge p es s = go (first_edge p es) (IsAmong-first_edge p es)
  where
    go : (o : Option Edge) → IsAmong es o → Chosen es (traverse o s)
    go none h = record { among = tt }
    go (some e) h = record { among = h }

module _ (es : List Edge) where
  Chosen-or_else :
      (c : Choice) (next : Sim → Choice)
      → Chosen es c
      → ((t : Sim) → Chosen es (next t))
      → Chosen es (or_else c next)
  unfolding or_else
  Chosen-or_else (none, t) next h k = k t
  Chosen-or_else (some e, t) next h k = h

  Chosen-by_label : (label : Str) (s : Sim) → Chosen es (by_label label es s)
  unfolding match_edge_label
  Chosen-by_label [] s = record { among = tt }
  Chosen-by_label (c ∷ label) s = Chosen-first_edge _ es _

  Chosen-resolve_by_label : (cfg : NodeConfig) (s : Sim) → Chosen es (resolve_by_label cfg es s)
  unfolding resolve_by_label
  Chosen-resolve_by_label (human cfg) s = Chosen-by_label _ s
  Chosen-resolve_by_label _ s = record { among = tt }

Chosen-take_edge : (e : Edge) (es : List Edge) (s : Sim) → Chosen (e ∷ es) (take_edge e s)
unfolding take_edge
Chosen-take_edge e es s = record { among = inl (refl, refl) }

module _ (w : Workflow) where
  Chosen-non_matching : (es : List Edge) (s : Sim) → Chosen es (first_non_matching_cond w es s)
  unfolding first_non_matching_cond
  Chosen-non_matching es s = Chosen-first_edge _ es s

  Chosen-matching : (es : List Edge) (s : Sim) → Chosen es (first_matching_conditional w es s)
  unfolding first_matching_conditional
  Chosen-matching es s = Chosen-first_edge _ es s

Chosen-unconditional : (es : List Edge) (s : Sim) → Chosen es (first_unconditional es s)
unfolding first_unconditional
Chosen-unconditional es s = Chosen-first_edge _ es s

module _ (w : Workflow) (opts : Options) where
  Chosen-resolve_conditional_next :
      (id : Str) (e : Edge) (es : List Edge) (s : Sim)
      → Chosen (e ∷ es) (resolve_conditional_next w opts id e es s)
  unfolding resolve_conditional_next force_loop_exit find_matching_edge
  Chosen-resolve_conditional_next id e es s = elim (Bool-cases (should_break_loop opts id s)) [
    | inl b ↦ rw b (
        Chosen-or_else (e ∷ es) _ _ (Chosen-non_matching w (e ∷ es) (emit_loop_break id s)) λ t.
          Chosen-or_else (e ∷ es) _ _ (Chosen-unconditional (e ∷ es) t) (Chosen-take_edge e es))
    | inr b ↦ rw b (
        Chosen-or_else (e ∷ es) _ _
          (Chosen-or_else (e ∷ es) _ _ (Chosen-matching w (e ∷ es) s)
            (Chosen-unconditional (e ∷ es)))
          (Chosen-take_edge e es))
  ]

  Chosen-resolve_edges :
      (n : Node) (es : List Edge) (s : Sim) → Chosen es (resolve_edges w opts n es s)
  unfolding resolve_edges
  Chosen-resolve_edges n [] s = record { among = tt }
  Chosen-resolve_edges n (e ∷ []) s = elim (Bool-cases (is_unconditional e.condition)) [
    | inl b ↦ rw b (Chosen-take_edge e [] s)
    | inr b ↦ rw b (
        Chosen-or_else (e ∷ []) _ _ (Chosen-resolve_by_label (e ∷ []) n.config s)
          (Chosen-resolve_conditional_next n.id e []))
  ]
  Chosen-resolve_edges n (e ∷ f ∷ es) s =
      Chosen-or_else (e ∷ f ∷ es) _ _ (Chosen-resolve_by_label (e ∷ f ∷ es) n.config s)
        (Chosen-resolve_conditional_next n.id e (f ∷ es))

  -- A next node is the target of an edge out of the node.
  pub resolve_next-HasEdge :
      (n : Node) (s : Sim)
      → is_empty (resolve_next w opts n s).0 ≡ false
      → (u : Str) × HasEdge (edges_from w n.id) u (resolve_next w opts n s).0
  unfolding resolve_next
  resolve_next-HasEdge n s h =
      let c = resolve_edges w opts n (edges_from w n.id) s in
      go c.0 (Chosen-resolve_edges n (edges_from w n.id) s).among h
    where
      go :
          (o : Option Edge)
          → IsAmong (edges_from w n.id) o
          → is_empty (target_of o) ≡ false
          → (u : Str) × HasEdge (edges_from w n.id) u (target_of o)
      go none m e = cc
      go (some e) m x = (e.from, m)
