-- ===== src/Flatten.antt =====
-- flatten/flatten.go: subgraph nodes that refer to another workflow are replaced by its nodes.
pub mod Refs
pub mod Closed
use dippin_lang.Base.{
  Str, ℕ, zero, suc, List, [], ◌∷◌, ◌++◌, Bool, true, false, Option, none, some, Map, lookup,
  insert, contains, if◌then◌else◌, bytes, ℤ, pos, negsuc,
}
use dippin_lang.Base.Fallible.{Fallible, ok, err, ◌>>=◌}
use dippin_lang.Ir.{Workflow, Node, NodeConfig, subgraph, Edge}

-- What Resolve(refPath, relativeTo) yields: the workflow, or the text of an error.
pub data Resolved : Type 0 where
  found : Workflow → Resolved
  failed : Str → Resolved

abbrev pub Resolver : Type 0
Resolver = Str → Str → Resolved

-- The errors, with what their texts mention.
pub data FlattenError : Type 0 where
  no_resolver : FlattenError
  depth_exceeded : ℤ → FlattenError
  cycle_detected : List Str → Str → FlattenError
  cannot_resolve : Str → Str → Str → FlattenError
  no_start : Str → Str → FlattenError
  no_exit : Str → Str → FlattenError

abbrev pub Answer : Type 0 → Type 0
Answer A = Fallible FlattenError A

abbrev pub is_empty : Str → Bool
is_empty [] = true
is_empty (c ∷ s) = false

-- cfg.Ref of a subgraph node, and "" for other kinds
abbrev pub ref_of : NodeConfig → Str
ref_of (subgraph cfg) = cfg.ref
ref_of _ = []

unfoldable pub has_subgraph_refs : List Node → Bool
has_subgraph_refs [] = false
has_subgraph_refs (n ∷ ns) = if is_empty (ref_of n.config) then has_subgraph_refs ns else true

pub record Rewire : Type 0 where
  pub start : Str
  pub exit : Str

-- What `out` and `rewires` collect.
pub record Pieces : Type 0 where
  pub nodes : List Node
  pub edges : List Edge
  pub rewires : Map Rewire

unfoldable pub prefixed_nodes : Str → List Node → List Node
prefixed_nodes prefix [] = []
prefixed_nodes prefix (n ∷ ns) = record n { id = prefix ++ n.id } ∷ prefixed_nodes prefix ns

unfoldable pub prefixed_edges : Str → List Edge → List Edge
prefixed_edges prefix [] = []
prefixed_edges prefix (e ∷ es) =
    record e { from = prefix ++ e.from; to = prefix ++ e.to } ∷ prefixed_edges prefix es

unfoldable pub append_prefixed : Workflow → Str → Pieces → Pieces
append_prefixed child prefix p = record p {
  nodes = p.nodes ++ prefixed_nodes prefix child.nodes;
  edges = p.edges ++ prefixed_edges prefix child.edges;
}

abbrev pub check_ends : Node → Workflow → Answer Workflow
check_ends n child =
    if is_empty child.start
    then err (no_start n.id child.name)
    else if is_empty child.exit
    then err (no_exit n.id child.name)
    else ok child

abbrev pub checked : Node → Str → Resolved → Answer Workflow
checked n ref (failed e) = err (cannot_resolve n.id ref e)
checked n ref (found child) = check_ends n child

unfoldable pub resolve_and_validate : Resolver → Node → Str → Answer Workflow
resolve_and_validate resolve n ref = checked n ref (resolve ref n.source.file)

-- The part of inlineSubgraph behind the recursive call.
unfoldable pub splice : Node → Workflow → Pieces → Pieces
splice n child p =
    let prefix = n.id ++ bytes "_" in
    let p' = append_prefixed child prefix p in
    record p' {
      rewires =
          insert n.id (record { start = prefix ++ child.start; exit = prefix ++ child.exit })
            p'.rewires;
    }

-- The recursive call is the first argument.
unfoldable pub inline_subgraph :
    (List Str → Workflow → Answer Workflow) → Resolver → List Str → Node → Pieces → Answer Pieces
inline_subgraph flatten_child resolve seen n p =
    let ref = ref_of n.config in
    if contains seen ref then err (cycle_detected seen ref) else do
      child ← resolve_and_validate resolve n ref
      flat ← flatten_child (seen ++ ref ∷ []) child
      ok (splice n flat p)

unfoldable pub process_node :
    (List Str → Workflow → Answer Workflow) → Resolver → List Str → Node → Pieces → Answer Pieces
process_node flatten_child resolve seen n p =
    if is_empty (ref_of n.config)
    then ok (record p { nodes = p.nodes ++ n ∷ [] })
    else inline_subgraph flatten_child resolve seen n p

unfoldable pub process_nodes :
    (List Str → Workflow → Answer Workflow)
    → Resolver
    → List Str
    → List Node
    → Pieces
    → Answer Pieces
process_nodes flatten_child resolve seen [] p = ok p
process_nodes flatten_child resolve seen (n ∷ ns) p =
    process_node flatten_child resolve seen n p >>= process_nodes flatten_child resolve seen ns

abbrev pub start_of : Option Rewire → Str → Str
start_of none id = id
start_of (some r) id = r.start

abbrev pub exit_of : Option Rewire → Str → Str
exit_of none id = id
exit_of (some r) id = r.exit

unfoldable pub rewire_parent_edges : Map Rewire → List Edge → List Edge
rewire_parent_edges rewires [] = []
rewire_parent_edges rewires (e ∷ es) =
    record e {
      to = start_of (lookup e.to rewires) e.to;
      from = exit_of (lookup e.from rewires) e.from;
    }
    ∷ rewire_parent_edges rewires es

-- newOutputWorkflow with the nodes and edges, then rewriteStartExit. `Requires` and `Spec` are not
-- among the fields that the code copies.
unfoldable pub assemble : Workflow → Pieces → Workflow
assemble w p = record w {
  requires = [];
  spec = none;
  nodes = p.nodes;
  edges = p.edges ++ rewire_parent_edges p.rewires w.edges;
  start = start_of (lookup w.start p.rewires) w.start;
  exit = exit_of (lookup w.exit p.rewires) w.exit;
}

abbrev pub no_pieces : Pieces
no_pieces = record { nodes = []; edges = []; rewires = [] }

-- The first argument is `maxDepth - depth`, the levels that are left.
unfoldable pub flatten_recursive : ℕ → ℤ → Resolver → List Str → Workflow → Answer Workflow
flatten_recursive zero max_depth resolve seen w = err (depth_exceeded max_depth)
flatten_recursive (suc levels) max_depth resolve seen w =
    process_nodes (flatten_recursive levels max_depth resolve) resolve seen w.nodes no_pieces
    >>= λ p. ok (assemble w p)

-- Options.MaxDepth, 10 where it is 0; a negative one leaves no level.
abbrev pub depth_limit : ℤ → ℤ
depth_limit (pos zero) = pos 10
depth_limit d = d

abbrev pub levels_of : ℤ → ℕ
levels_of (pos n) = n
levels_of (negsuc n) = 0

unfoldable pub flatten : Workflow → Option Resolver → ℤ → Answer Workflow
flatten w resolver max_depth =
    if has_subgraph_refs w.nodes
    then elim resolver [
      | none ↦ err no_resolver
      | some resolve ↦
          flatten_recursive (levels_of (depth_limit max_depth)) (depth_limit max_depth) resolve [] w
    ]
    else ok w
