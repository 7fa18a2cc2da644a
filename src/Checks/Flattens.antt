-- ===== src/Checks/Flattens.antt =====
-- Flattening a workflow with one reference.
use dippin_lang.Base.{
  [], ◌∷◌, ◌≡◌, refl, some, bytes, pos, Bool, true, false, arith, subst, ◌==◌, contains, lookup,
  insert, In,
}
use dippin_lang.Base.Fallible.{ok, err}
use dippin_lang.Ir.{Workflow, Node, SubgraphConfig, agent, subgraph}
use dippin_lang.Ir.Lookup.{plain_edge}
use dippin_lang.Flatten.{
  Resolver, found, Answer, flatten, has_subgraph_refs, prefixed_nodes, prefixed_edges,
  append_prefixed, resolve_and_validate, splice, inline_subgraph, process_node, process_nodes,
  rewire_parent_edges, assemble, flatten_recursive,
}
use dippin_lang.Flatten.Refs.{flatten-IsFlat}
use dippin_lang.Flatten.Closed.{IsClosed, ResolvesClosed, flatten-IsClosed}
use dippin_lang.Checks.Samples.{sample, plain_node, plain_agent}

abbrev child : Workflow
child = record sample {
  start = bytes "b";
  exit = bytes "c";
  nodes =
      plain_node (bytes "b") (bytes "agent") (agent (plain_agent false))
      ∷ plain_node (bytes "c") (bytes "agent") (agent (plain_agent false))
      ∷ [];
  edges = plain_edge (bytes "b") (bytes "c") ∷ [];
}

abbrev parent : Workflow
parent = record sample {
  start = bytes "a";
  exit = bytes "s";
  nodes =
      plain_node (bytes "a") (bytes "agent") (agent (plain_agent false))
      ∷ plain_node (bytes "s") (bytes "subgraph")
          (subgraph (record { ref = bytes "child.dip"; params = [] }))
      ∷ [];
  edges = plain_edge (bytes "a") (bytes "s") ∷ [];
}

abbrev one_child : Resolver
one_child ref origin = found child

abbrev is_ok : Answer Workflow → Bool
is_ok (ok w) = true
is_ok (err e) = false

abbrev workflow_of : Answer Workflow → Workflow
workflow_of (ok w) = w
workflow_of (err e) = sample

abbrev flat_parent : Workflow
flat_parent = workflow_of (flatten parent (some one_child) (pos 0))

ok-workflow_of : (a : Answer Workflow) → is_ok a ≡ true → a ≡ ok (workflow_of a)
ok-workflow_of (ok w) h = refl
ok-workflow_of (err e) h = ground arith

-- All that Flatten calls, to be opened at once.
flattening : Unit {0}
unfolding ◌==◌ contains lookup insert has_subgraph_refs prefixed_nodes prefixed_edges
    append_prefixed resolve_and_validate splice inline_subgraph process_node process_nodes
    rewire_parent_edges assemble flatten_recursive flatten
flattening = tt

found-injective : {w w' : Workflow} → found w ≡ found w' → w ≡ w'
found-injective h = cc

parent_flattens : is_ok (flatten parent (some one_child) (pos 0)) ≡ true
unfolding flattening
parent_flattens = refl

parent_exit : flat_parent.exit ≡ bytes "s_c"
unfolding flattening
parent_exit = refl

parent_flat : flatten parent (some one_child) (pos 0) ≡ ok flat_parent
parent_flat = ok-workflow_of (flatten parent (some one_child) (pos 0)) parent_flattens

flatten-IsFlat_example :
    ((n : Node) (cfg : SubgraphConfig)
      → In n flat_parent.nodes
      → n.config ≡ subgraph cfg
      → cfg.ref ≡ [])
    × (flatten flat_parent (some one_child) (pos 0) ≡ ok flat_parent)
flatten-IsFlat_example = flatten-IsFlat parent flat_parent (some one_child) (pos 0) parent_flat

child-IsClosed : IsClosed child
child-IsClosed = record {
  start = ground arith;
  exit = ground arith;
  edges = λ u v h. ground (arith, h);
}

parent-IsClosed : IsClosed parent
parent-IsClosed = record {
  start = ground arith;
  exit = ground arith;
  edges = λ u v h. ground (arith, h);
}

one_child-ResolvesClosed : ResolvesClosed one_child
one_child-ResolvesClosed ref origin w h = subst IsClosed (found-injective h) child-IsClosed

flatten-IsClosed_example : IsClosed flat_parent
flatten-IsClosed_example =
    flatten-IsClosed parent flat_parent one_child (pos 0) one_child-ResolvesClosed parent-IsClosed
      parent_flat
