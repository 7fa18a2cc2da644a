-- ===== src/Checks/Runs.antt =====
-- Runs of the sample.
use dippin_lang.Base.{
  ◌<◌, ◌+◌, Str, List, [], ◌∷◌, ◌++◌, ◌≡◌, ◌↔◌, ◌⊎◌, refl, inl, inr, none, bytes, In, Distinct,
  length, arith, ◌==◌, contains, add, has_prefix, trim_prefix, lookup, insert, delete, trim_space,
  trim_with, space_size, last_space_size, split, has_substring, to_lower, value_at, Bool, true,
  false,
}
use dippin_lang.Ir.Arc.{Reach}
use dippin_lang.Ir.Lookup.{
  find_node, node, explicit_edges_from, add_targets, parallel_edges_from, add_fan_in_source_edges,
  fan_in_edges_from, edges_from,
}
use dippin_lang.Condition.Parse.{parse_condition}
use dippin_lang.Condition.Eval.{eval_condition}
use dippin_lang.Condition.Ensure.{ensure_conditions_parsed, ensure_condition}
use dippin_lang.Simulate.State.{
  Options, Report, Outcome, ok, err, max_steps, update_context, status_success, status_dead_end,
}
use dippin_lang.Simulate.Visit.{
  populate_enter_fields, build_node_enter_event, apply_node_scenario, scenario_has_key,
  set_context_default_for_node, apply_node_defaults, handle_human_interaction, mark_visit,
  enter_and_leave, visit_node,
}
use dippin_lang.Simulate.Resolve.{
  emit_edge_traverse, first_edge, traverse, or_else, take_edge, match_edge_label, resolve_by_label,
  first_non_matching_cond, first_matching_conditional, first_unconditional, find_matching_edge,
  should_break_loop, emit_loop_break, force_loop_exit, resolve_conditional_next, resolve_edges,
  resolve_next,
}
use dippin_lang.Simulate.Run.{
  resolve_targets, select_branches, all_in, sources_match_targets, find_join_node, walk_branch_step,
  branch_loop, walk_branch_to_join, walk_branches, finish_run, walk_parallel_branches,
  advance_to_next, step_node, run_loop, validate_sim_input, initial, run_parsed, run,
}
use dippin_lang.Simulate.Frame.{entered}
use dippin_lang.Simulate.Trace.{run_trace, run_status}
use dippin_lang.Simulate.Reachable.{run_reaches}
use dippin_lang.Checks.Samples.{sample}

abbrev plain_options : Options
plain_options = record {
  run_id = bytes "sim-0001";
  scenario = [];
  max_node_visits = 0;
  branch = [];
  console = none;
}

abbrev no_report : Report
no_report = record { events = []; nodes_visited = 0; status = []; path = [] }

abbrev report_of : Outcome Report → Report
report_of (ok r) = r
report_of (err e) = no_report

abbrev sample_report : Report
sample_report = report_of (run sample plain_options)

-- All that a run calls, to be opened at once.
unfoldable pub simulator : Unit {0}
unfolding ◌==◌ contains add has_prefix trim_prefix lookup insert delete trim_space trim_with
    space_size last_space_size split has_substring to_lower value_at find_node node
    explicit_edges_from add_targets parallel_edges_from add_fan_in_source_edges fan_in_edges_from
    edges_from parse_condition eval_condition ensure_conditions_parsed ensure_condition max_steps
    update_context populate_enter_fields build_node_enter_event apply_node_scenario scenario_has_key
    set_context_default_for_node apply_node_defaults handle_human_interaction mark_visit
    enter_and_leave visit_node emit_edge_traverse first_edge traverse or_else take_edge
    match_edge_label resolve_by_label first_non_matching_cond first_matching_conditional
    first_unconditional find_matching_edge should_break_loop emit_loop_break force_loop_exit
    resolve_conditional_next resolve_edges resolve_next resolve_targets select_branches all_in
    sources_match_targets find_join_node walk_branch_step branch_loop walk_branch_to_join
    walk_branches finish_run walk_parallel_branches advance_to_next step_node run_loop
    validate_sim_input initial run_parsed run entered
simulator = tt

abbrev is_ok : Outcome Report → Bool
is_ok (ok r) = true
is_ok (err e) = false

ok-report_of : (o : Outcome Report) → is_ok o ≡ true → o ≡ ok (report_of o)
ok-report_of (ok r) h = refl
ok-report_of (err e) h = ground arith

sample_ends : is_ok (run sample plain_options) ≡ true
unfolding simulator
sample_ends = refl

sample_runs : run sample plain_options ≡ ok sample_report
sample_runs = ok-report_of (run sample plain_options) sample_ends

sample_path :
    sample_report.path
    ≡ bytes "a" ∷ bytes "p" ∷ bytes "x" ∷ bytes "y" ∷ bytes "j" ∷ bytes "g" ∷ bytes "e" ∷ []
unfolding simulator
sample_path = refl

sample_visits_y : In (bytes "y") sample_report.path
unfolding simulator
sample_visits_y = inr (inr (inr (inl refl)))

run_trace_example :
    (entered sample_report.events ≡ sample_report.path)
    × ((nodes : List Str) × Distinct nodes
        × ((x : Str) → In x nodes ↔ In x sample_report.path)
        × (sample_report.nodes_visited ≡ length nodes))
run_trace_example = run_trace sample plain_options sample_report sample_runs

run_status_example :
    ((sample_report.status ≡ status_success)
      × (before : List Str) × (sample_report.path ≡ before ++ bytes "e" ∷ []))
    ⊎ (sample_report.status ≡ status_dead_end)
run_status_example = run_status sample plain_options sample_report sample_runs

run_reaches_example : Reach sample (bytes "a") (bytes "y")
run_reaches_example =
    run_reaches sample plain_options sample_report (bytes "y") (omega arith) sample_runs
      sample_visits_y

bound_below : max_steps < 1000
unfolding max_steps
bound_below = omega arith

bound_below_added : max_steps < 1000 + (initial sample plain_options).steps
bound_below_added = omega (arith, bound_below)
