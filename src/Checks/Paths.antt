-- ===== src/Checks/Paths.antt =====
-- All paths of a workflow with a choice.
use dippin_lang.Base.{
  Str, ℕ, ◌≤◌, ◌<◌, List, [], ◌∷◌, ◌++◌, ◌≡◌, ◌↔◌, refl, none, bytes, Bool, true, false, length,
  arith, All,
}
use dippin_lang.Base.Fallible.{Fallible, ok, err}
use dippin_lang.Ir.{Workflow, agent}
use dippin_lang.Ir.Arc.{HasUniqueIds}
use dippin_lang.Ir.Lookup.{plain_edge}
use dippin_lang.Condition.Ensure.{ensure_conditions_parsed}
use dippin_lang.Simulate.State.{Report, status_success}
use dippin_lang.Simulate.Run.{validate_sim_input}
use dippin_lang.Simulate.Paths.{
  PathError, no_paths, max_results, max_depth, run_all_paths, should_explore, started,
  append_node_events, enter, assign_run_id, record_path, seed_compare_context,
  seed_condition_context, explore_edges, explore_node, explore, root, no_results, explore_all,
}
use dippin_lang.Simulate.Paths.Trails.{IsFullPath, IsFullReport}
use dippin_lang.Simulate.Paths.Growth.{IsFound}
use dippin_lang.Simulate.Paths.Found.{
  run_all_paths-IsFullReport, run_all_paths_iff, run_all_paths-no_paths,
}
use dippin_lang.Simulate.Paths.Fuel.{explore_all-fuel}
use dippin_lang.Checks.Runs.{simulator}
use dippin_lang.Checks.Samples.{sample, plain_node, plain_agent, conditional_edge}

abbrev fork : Workflow
fork = record sample {
  start = bytes "a";
  exit = bytes "e";
  nodes =
      plain_node (bytes "a") (bytes "agent") (agent (plain_agent false))
      ∷ plain_node (bytes "b") (bytes "agent") (agent (plain_agent false))
      ∷ plain_node (bytes "e") (bytes "agent") (agent (plain_agent false))
      ∷ [];
  edges =
      conditional_edge (bytes "a") (bytes "e") (bytes "ctx.x = 1") false
      ∷ plain_edge (bytes "a") (bytes "b")
      ∷ plain_edge (bytes "b") (bytes "e")
      ∷ [];
}

-- A run ID for each count, which stands in it as one byte.
abbrev plain_id : ℕ → Str
plain_id n = bytes "sim-path-" ++ n ∷ []

abbrev reports_of : Fallible PathError (List Report) → List Report
reports_of (ok rs) = rs
reports_of (err e) = []

abbrev is_ok : Fallible PathError (List Report) → Bool
is_ok (ok rs) = true
is_ok (err e) = false

ok-reports_of : (a : Fallible PathError (List Report)) → is_ok a ≡ true → a ≡ ok (reports_of a)
ok-reports_of (ok rs) h = refl
ok-reports_of (err e) h = ground arith

abbrev fork_reports : List Report
fork_reports = reports_of (run_all_paths plain_id fork [])

-- All that the enumerator calls, to be opened at once.
enumeration : Unit {0}
unfolding simulator run_all_paths should_explore started append_node_events enter assign_run_id
    record_path seed_compare_context seed_condition_context explore_edges explore_node explore root
    explore_all
enumeration = tt

fork_enumerates : is_ok (run_all_paths plain_id fork []) ≡ true
unfolding enumeration
fork_enumerates = refl

fork_two : length fork_reports ≡ 2
unfolding enumeration
fork_two = refl

fork-HasUniqueIds : HasUniqueIds fork
fork-HasUniqueIds = ground arith

fork_found : run_all_paths plain_id fork [] ≡ ok fork_reports
fork_found = ok-reports_of (run_all_paths plain_id fork []) fork_enumerates

fork_few : length fork_reports < max_results
fork_few = omega (arith, fork_two)

fork_valid : validate_sim_input fork ≡ none
unfolding enumeration
fork_valid = refl

fork_parses : (ensure_conditions_parsed fork).1 ≡ none
unfolding enumeration
fork_parses = refl

run_all_paths-IsFullReport_example :
    (1 ≤ length fork_reports)
    × (length fork_reports ≤ max_results)
    × All (IsFullReport fork) fork_reports
run_all_paths-IsFullReport_example =
    run_all_paths-IsFullReport plain_id fork [] fork_reports fork-HasUniqueIds fork_found

run_all_paths_iff_example :
    IsFound (bytes "a" ∷ bytes "b" ∷ bytes "e" ∷ []) status_success fork_reports
    ↔ IsFullPath fork (bytes "a" ∷ bytes "b" ∷ bytes "e" ∷ []) status_success
run_all_paths_iff_example =
    run_all_paths_iff plain_id fork [] fork_reports fork-HasUniqueIds fork_found fork_few
      (bytes "a" ∷ bytes "b" ∷ bytes "e" ∷ []) status_success

run_all_paths-no_paths_example :
    (run_all_paths plain_id fork [] ≡ err no_paths)
    ↔ ((path : List Str) (status : Str) → ¬ IsFullPath fork path status)
run_all_paths-no_paths_example =
    run_all_paths-no_paths plain_id fork [] fork-HasUniqueIds fork_valid fork_parses

above_depth : max_depth < 1000
above_depth = omega arith

explore_all-fuel_example :
    (explore 1000 plain_id fork (root fork []) no_results).results ≡ explore_all plain_id fork []
explore_all-fuel_example = explore_all-fuel 1000 plain_id fork [] above_depth
