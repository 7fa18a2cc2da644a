-- ===== src/Validate/Duplicates.antt =====
-- The duplicate checks DIP008 and DIP009 against the lists of IDs and of edge keys.
use dippin_lang.Base.{Str, List, [], ◌∷◌, ◌≡◌, ◌↔◌, In, Distinct, All, arith, none, ==_iff}
use dippin_lang.Ir.{Workflow, Node, Edge}
use dippin_lang.Ir.Arc.{ids, HasUniqueIds}
use dippin_lang.Validate.Defs.{
  first_node, duplicate_nodes, check_no_duplicate_nodes, cond_raw, same_key, first_same,
  duplicate_edges, check_no_duplicate_edges,
}

first_node_iff : (id : Str) (ns : List Node) → (first_node id ns ≡ none) ↔ (¬ In id (ids ns))
unfolding first_node
first_node_iff id [] = ground arith
first_node_iff id (n ∷ ns) = ground (arith, first_node_iff id ns, ==_iff n.id id)

module _ {A : Type 0} where
  -- None of the first list stands in the second.
  abbrev Apart : List A → List A → Type 0
  Apart xs ys = All (λ x. ¬ In x ys) xs

  Apart-cons : (y : A) (xs ys : List A) → Apart xs (y ∷ ys) ↔ ((¬ In y xs) × Apart xs ys)
  Apart-cons y [] ys = ground arith
  Apart-cons y (x ∷ xs) ys = ground (arith, Apart-cons y xs ys)

  Apart-nil : (xs : List A) → Apart xs []
  Apart-nil [] = tt
  Apart-nil (x ∷ xs) = (λ m. m, Apart-nil xs)

duplicate_nodes_iff :
    (seen ns : List Node)
    → (duplicate_nodes seen ns ≡ []) ↔ (Distinct (ids ns) × Apart (ids ns) (ids seen))
unfolding duplicate_nodes
duplicate_nodes_iff seen [] = ground arith
duplicate_nodes_iff seen (n ∷ ns) = ground (
  arith,
  first_node_iff n.id seen,
  duplicate_nodes_iff (n ∷ seen) ns,
  Apart-cons n.id (ids ns) (ids seen),
)

-- DIP008 is silent exactly if no two nodes share their ID.
pub check_no_duplicate_nodes_iff :
    (w : Workflow) → (check_no_duplicate_nodes w ≡ []) ↔ HasUniqueIds w
unfolding check_no_duplicate_nodes
check_no_duplicate_nodes_iff w =
    ground (arith, duplicate_nodes_iff [] w.nodes, Apart-nil (ids w.nodes))

-- What identifies an edge: its endpoints and the text of its condition.
abbrev pub edge_keys : List Edge → List (Str × Str × Str)
edge_keys [] = []
edge_keys (e ∷ es) = (e.from, e.to, cond_raw e.condition) ∷ edge_keys es

first_same_iff :
    (e : Edge) (es : List Edge)
    → (first_same e es ≡ none) ↔ (¬ In (e.from, e.to, cond_raw e.condition) (edge_keys es))
unfolding first_same same_key
first_same_iff e [] = ground arith
first_same_iff e (f ∷ fs) = ground (
  arith,
  first_same_iff e fs,
  ==_iff e.from f.from,
  ==_iff e.to f.to,
  ==_iff (cond_raw e.condition) (cond_raw f.condition),
)

duplicate_edges_iff :
    (seen es : List Edge)
    → (duplicate_edges seen es ≡ [])
      ↔ (Distinct (edge_keys es) × Apart (edge_keys es) (edge_keys seen))
unfolding duplicate_edges
duplicate_edges_iff seen [] = ground arith
duplicate_edges_iff seen (e ∷ es) = ground (
  arith,
  first_same_iff e seen,
  duplicate_edges_iff (e ∷ seen) es,
  Apart-cons (e.from, e.to, cond_raw e.condition) (edge_keys es) (edge_keys seen),
)

-- DIP009 is silent exactly if no two edges agree in both endpoints and the text of their condition.
pub check_no_duplicate_edges_iff :
    (w : Workflow) → (check_no_duplicate_edges w ≡ []) ↔ Distinct (edge_keys w.edges)
unfolding check_no_duplicate_edges
check_no_duplicate_edges_iff w =
    ground (arith, duplicate_edges_iff [] w.edges, Apart-nil (edge_keys w.edges))
