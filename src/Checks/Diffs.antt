-- ===== src/Checks/Diffs.antt =====
-- Differences of small workflows.
use dippin_lang.Base.{
  Str, [], ◌∷◌, ◌++◌, ◌≡◌, ◌↔◌, refl, In-of_All, none, some, negsuc, arith, bytes, false, In,
  lookup, insert, sort_strings, insert_sorted, str_le, ◌==◌,
}
use dippin_lang.Ir.{Workflow, Node, agent}
use dippin_lang.Ir.Arc.{ids}
use dippin_lang.Ir.Lookup.{plain_edge}
use dippin_lang.Diff.{
  compare, itoa, int_to_str, truncate, changed_fields, fill_node_map, added_ids, modified_nodes,
  insert_diff, sort_diffs, fill_edge_set, added_edges, insert_edge, sort_edges,
}
use dippin_lang.Diff.Same.{IsPrinted, compare_nodes_iff, compare_self}
use dippin_lang.Checks.Samples.{sample, plain_node, plain_agent}

-- A workflow of two nodes, whose second has a prompt.
abbrev with_prompt : Str → Str → Workflow
with_prompt id prompt = record sample {
  nodes =
      plain_node (bytes "a") (bytes "agent") (agent (plain_agent false))
      ∷ plain_node id (bytes "agent") (agent (record (plain_agent false) { prompt = prompt }))
      ∷ [];
  edges = plain_edge (bytes "a") id ∷ [];
}

-- All that Compare calls, to be opened at once.
comparing : Unit {0}
unfolding ◌==◌ lookup insert sort_strings str_le compare itoa int_to_str truncate changed_fields
    fill_node_map added_ids modified_nodes insert_diff sort_diffs fill_edge_set added_edges
    insert_edge sort_edges insert_sorted
comparing = tt

renamed_found :
    compare (with_prompt (bytes "b") (bytes "go")) (with_prompt (bytes "c") (bytes "go")) ≡ record {
      nodes_added = bytes "c" ∷ [];
      nodes_removed = bytes "b" ∷ [];
      nodes_modified = some [];
      edges_added = record { from = bytes "a"; to = bytes "c"; condition = [] } ∷ [];
      edges_removed = record { from = bytes "a"; to = bytes "b"; condition = [] } ∷ [];
    }
unfolding comparing
renamed_found = refl

-- Prompts that differ behind their fiftieth byte.
abbrev opening : Str
opening = bytes "Read the whole repository and then write a report."

late_missed :
    (compare
      (with_prompt (bytes "b") (opening ++ bytes " Be brief"))
      (with_prompt (bytes "b") (opening ++ bytes " Be long"))).nodes_modified
    ≡ some []
unfolding comparing
late_missed = refl

compare_nodes_iff_example :
    (In (bytes "c") (compare (with_prompt (bytes "b") []) (with_prompt (bytes "c") [])).nodes_added
      ↔ (In (bytes "c") (ids (with_prompt (bytes "c") []).nodes)
          × (¬ In (bytes "c") (ids (with_prompt (bytes "b") []).nodes))))
    × (In
          (bytes "c")
          (compare (with_prompt (bytes "b") []) (with_prompt (bytes "c") [])).nodes_removed
        ↔ (In (bytes "c") (ids (with_prompt (bytes "b") []).nodes)
            × (¬ In (bytes "c") (ids (with_prompt (bytes "c") []).nodes))))
compare_nodes_iff_example =
    compare_nodes_iff (with_prompt (bytes "b") []) (with_prompt (bytes "c") []) (bytes "c")

sample_turns : (n : Node) → In n sample.nodes → IsPrinted n.config
sample_turns n i = In-of_All (λ (k : Node). IsPrinted k.config) sample.nodes n (ground arith) i

-- The least integer has no end.
least_endless : itoa (negsuc 9223372036854775807) ≡ none
unfolding comparing
least_endless = refl

compare_self_example : compare sample sample ≡ record {
  nodes_added = [];
  nodes_removed = [];
  nodes_modified = some [];
  edges_added = [];
  edges_removed = [];
}
compare_self_example = compare_self sample sample_turns
