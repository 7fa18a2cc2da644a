-- ===== src/Simulate/Run.antt =====
-- Run of simulate/simulate.go, with the walk over parallel branches of simulate/parallel.go.
use dippin_lang.Base.{
  Str, ℕ, zero, suc, ◌+◌, ◌-◌, List, [], ◌∷◌, Bool, true, false, ltb, Option, none, some, length,
  map, select, contains, insert, Map, if◌then◌else◌, ◌==◌,
}
use dippin_lang.Ir.{Workflow, Node, NodeConfig, parallel, fan_in, ParallelConfig, BranchConfig}
use dippin_lang.Ir.Lookup.{node}
use dippin_lang.Condition.Ensure.{ensure_conditions_parsed}
use dippin_lang.Simulate.State.{
  pipeline_start, pipeline_end, Options, Sim, Report, SimError, no_start, no_exit, start_not_found,
  exit_not_found, bad_condition, node_not_found, branch_node_not_found, branch_exceeded, exceeded,
  Outcome, ok, err, ◌>>=◌, status_success, status_dead_end, max_steps, emit,
}
use dippin_lang.Simulate.Visit.{visit_node}
use dippin_lang.Simulate.Resolve.{resolve_next}

abbrev pub is_empty : Str → Bool
is_empty [] = true
is_empty (c ∷ s) = false

abbrev pub or_branches : List Str → List BranchConfig → List Str
or_branches [] branches = map (λ b. b.target) branches
or_branches (t ∷ ts) branches = t ∷ ts

unfoldable pub resolve_targets : ParallelConfig → List Str
resolve_targets cfg = or_branches cfg.targets cfg.branches

abbrev all_if_none : List Str → List Str → List Str
all_if_none targets [] = targets
all_if_none targets (t ∷ ts) = t ∷ ts

-- With no branch chosen the selection is empty, and an empty selection stands for all.
unfoldable pub select_branches : Options → List Str → List Str
select_branches opts targets = all_if_none targets (select (contains opts.branch) targets)

unfoldable pub all_in : List Str → List Str → Bool
all_in targets [] = true
all_in targets (s ∷ ss) = if contains targets s then all_in targets ss else false

abbrev pub some_source : List Str → Bool
some_source [] = false
some_source (s ∷ ss) = true

unfoldable pub sources_match_targets : List Str → List Str → Bool
sources_match_targets sources targets =
    if all_in targets sources then some_source sources else false

abbrev pub joins : NodeConfig → List Str → Bool
joins (fan_in cfg) targets = sources_match_targets cfg.sources targets
joins _ targets = false

-- findJoinNode; "" where there is none
unfoldable pub find_join_node : List Node → List Str → Str
find_join_node [] targets = []
find_join_node (n ∷ ns) targets = if joins n.config targets then n.id else find_join_node ns targets

abbrev pub count_step : Sim → Sim
count_step s = record s { steps = s.steps + 1 }

abbrev pub branch_node : Str → Option Node → Outcome Node
branch_node id none = err (branch_node_not_found id)
branch_node id (some n) = ok n

abbrev pub main_node : Str → Option Node → Outcome Node
main_node id none = err (node_not_found id)
main_node id (some n) = ok n

unfoldable pub walk_branch_step : Workflow → Options → Str → Sim → Outcome (Str × Sim)
walk_branch_step w opts current s = do
  n ← branch_node current (node w current)
  s' ← visit_node w opts n s
  ok (resolve_next w opts n (count_step s'))

-- The loop of walkBranchToJoin, on fuel. Each round counts a step.
unfoldable pub branch_loop : ℕ → Workflow → Options → Str → Str → Sim → Outcome Sim
branch_loop zero w opts join current s = err branch_exceeded
branch_loop (suc fuel) w opts join current s =
    if ltb s.steps max_steps
    then if current == join
      then ok s
      else (walk_branch_step w opts current s >>= λ (next, s').
          let rest = branch_loop fuel w opts join next s' in if is_empty next then ok s' else rest)
    else err branch_exceeded

unfoldable pub walk_branch_to_join : Workflow → Options → Str → Str → Sim → Outcome Sim
walk_branch_to_join w opts target join s =
    branch_loop (suc (max_steps - s.steps)) w opts join target s

-- The loop over the selected branches; an error ends it.
unfoldable pub walk_branches : Workflow → Options → List Str → Str → Sim → Outcome Sim
walk_branches w opts [] join s = ok s
walk_branches w opts (t ∷ ts) join s =
    walk_branch_to_join w opts t join s >>= walk_branches w opts ts join

-- The run goes on at a node, or is over.
pub data Next : Type 0 where
  goto : Str → Sim → Next
  finished : Report → Next

unfoldable pub finish_run : Str → Sim → Report
finish_run status s =
    let s' = emit (pipeline_end status (length s.visited)) s in
    record { events = s'.events; nodes_visited = length s.visited; status = status; path = s.path }

abbrev pub goto_or_dead_end : Str → Sim → Next
goto_or_dead_end next s =
    if is_empty next then finished (finish_run status_dead_end s) else goto next s

unfoldable pub walk_parallel_branches : Workflow → Options → ParallelConfig → Sim → Outcome Next
walk_parallel_branches w opts cfg s =
    let targets = resolve_targets cfg in
    let join = find_join_node w.nodes targets in
    walk_branches w opts (select_branches opts targets) join s >>= λ s'.
    ok (goto_or_dead_end join s')

abbrev pub advance_by : Workflow → Options → Node → NodeConfig → Sim → Outcome Next
advance_by w opts n (parallel cfg) s = walk_parallel_branches w opts cfg s
advance_by w opts n _ s = let (next, s') = resolve_next w opts n s in ok (goto_or_dead_end next s')

unfoldable pub advance_to_next : Workflow → Options → Node → Sim → Outcome Next
advance_to_next w opts n s = advance_by w opts n n.config s

unfoldable pub step_node : Workflow → Options → Str → Sim → Outcome Next
step_node w opts current s = do
  n ← main_node current (node w current)
  s' ← visit_node w opts n s
  if current == w.exit
      then ok (finished (finish_run status_success s'))
      else advance_to_next w opts n s'

-- The main loop, on fuel. Each round counts a step at least.
unfoldable pub run_loop : ℕ → Workflow → Options → Str → Sim → Outcome Report
run_loop zero w opts current s = err exceeded
run_loop (suc fuel) w opts current s =
    if ltb s.steps max_steps
    then (step_node w opts current s >>= λ r. elim r [
      | goto next s' ↦ run_loop fuel w opts next (count_step s')
      | finished report ↦ ok report
    ])
    else err exceeded

unfoldable pub validate_sim_input : Workflow → Option SimError
validate_sim_input w =
    if is_empty w.start
    then some no_start
    else if is_empty w.exit
    then some no_exit
    else elim (node w w.start) [
      | none ↦ some (start_not_found w.start)
      | some _ ↦ elim (node w w.exit) [ none ↦ some (exit_not_found w.exit) | some _ ↦ none ]
    ]

-- The state of a new run, with the start event; the scenario seeds the context.
abbrev pub seed : Map Str → Map Str → Map Str
seed [] ctx = ctx
seed ((k, v) ∷ rest) ctx = seed rest (insert k v ctx)

unfoldable pub initial : Workflow → Options → Sim
initial w opts = record {
  ctx = seed opts.scenario [];
  visited = [];
  node_visits = [];
  events = pipeline_start opts.run_id w.name ∷ [];
  path = [];
  steps = 0;
}

-- The run of a workflow whose conditions are parsed.
unfoldable pub run_parsed : Workflow → Options → Outcome Report
run_parsed w opts = run_loop (suc max_steps) w opts w.start (initial w opts)

unfoldable pub run : Workflow → Options → Outcome Report
run w opts = elim (validate_sim_input w) [
  | some e ↦ err e
  | none ↦
      let (w', bad) = ensure_conditions_parsed w in
      elim bad [ some e ↦ err (bad_condition e) | none ↦ run_parsed w' opts ]
]
