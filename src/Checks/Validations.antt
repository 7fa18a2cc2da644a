-- ===== src/Checks/Validations.antt =====
-- The validator's checks on the sample.
use dippin_lang.Base.{Str, ℕ, ◌≤◌, [], ◌≡◌, ◌↔◌, refl, bytes, In, Distinct, All, arith, ◌==◌}
use dippin_lang.Ir.{Node}
use dippin_lang.Ir.Arc.{HasUniqueIds, Reach, ids}
use dippin_lang.Ir.Lookup.{node, find_node}
use dippin_lang.Validate.Distance.{
  levenshtein, closest_node_id, closest, levenshtein_rows, fill_levenshtein_row, first_row,
  last_cell, min3,
}
use dippin_lang.Validate.Edits.{Edits, levenshtein-Edits}
use dippin_lang.Validate.Defs.{
  check_start_exists, check_exit_exists, check_reachability, check_no_duplicate_edges,
  check_parallel_fan_in,
}
use dippin_lang.Validate.Graph.{check_reachability_iff}
use dippin_lang.Validate.Duplicates.{edge_keys, check_no_duplicate_edges_iff}
use dippin_lang.Validate.Pairs.{IsPaired, check_parallel_fan_in_iff}
use dippin_lang.Validate.Cycles.{check_no_cycles}
use dippin_lang.Validate.Cycles.Exact.{Follow, IsLooping, check_no_cycles_iff}
use dippin_lang.Validate.Whole.{validate, IsWellFormed, validate_iff}
use dippin_lang.Checks.Samples.{sample}

-- "did you mean" finds a node at distance one, and none at distance three.
suggests : closest_node_id sample.nodes (bytes "gg") ≡ bytes "g"
unfolding closest_node_id closest levenshtein levenshtein_rows fill_levenshtein_row first_row
    last_cell min3
suggests = refl

suggests_nothing : closest_node_id sample.nodes (bytes "zzzz") ≡ []
unfolding closest_node_id closest levenshtein levenshtein_rows fill_levenshtein_row first_row
    last_cell min3
suggests_nothing = refl

levenshtein-Edits_example :
    Edits (levenshtein (bytes "tool") (bytes "to")) (bytes "tool") (bytes "to")
    × ((n : ℕ) → Edits n (bytes "tool") (bytes "to") → levenshtein (bytes "tool") (bytes "to") ≤ n)
levenshtein-Edits_example = levenshtein-Edits (bytes "tool") (bytes "to")

has_start : check_start_exists sample ≡ []
unfolding check_start_exists node find_node ◌==◌
has_start = refl

has_exit : check_exit_exists sample ≡ []
unfolding check_exit_exists node find_node ◌==◌
has_exit = refl

sample-HasUniqueIds : HasUniqueIds sample
sample-HasUniqueIds = ground arith

check_reachability_iff_example :
    (check_reachability sample ≡ [])
    ↔ ((x : Str) → In x (ids sample.nodes) → Reach sample (bytes "a") x)
check_reachability_iff_example = check_reachability_iff sample has_start

check_no_duplicate_edges_iff_example :
    (check_no_duplicate_edges sample ≡ []) ↔ Distinct (edge_keys sample.edges)
check_no_duplicate_edges_iff_example = check_no_duplicate_edges_iff sample

check_parallel_fan_in_iff_example :
    (check_parallel_fan_in sample ≡ [])
    ↔ All (λ (n : Node). IsPaired sample.nodes n.config) sample.nodes
check_parallel_fan_in_iff_example = check_parallel_fan_in_iff sample

check_no_cycles_iff_example :
    (check_no_cycles sample ≡ [])
    ↔ ((x v : Str) → In x (ids sample.nodes) → Follow sample x v → ¬ IsLooping sample v)
check_no_cycles_iff_example = check_no_cycles_iff sample has_start

validate_iff_example : (validate sample ≡ []) ↔ IsWellFormed sample
validate_iff_example = validate_iff sample
