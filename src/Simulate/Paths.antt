-- ===== src/Simulate/Paths.antt =====
-- simulate/path_enumerator.go: RunAllPaths, the depth-first search for all paths of a workflow. The
-- results are threaded through the search; the snapshots that the code clones are values.
pub mod Trails
pub mod Routes
pub mod Fuel
pub mod Growth
pub mod Complete
pub mod Found
use dippin_lang.Base.{
  Str, ℕ, zero, suc, ◌+◌, List, [], ◌∷◌, ◌++◌, Bool, true, false, ◌&&◌, ltb, leb, Option, none,
  some, Map, insert, lookup, length, split, trim_space, if◌then◌else◌, bytes, ◌==◌,
}
use dippin_lang.Base.Fallible.{Fallible, ok, err}
use dippin_lang.Ir.{
  Workflow, Node, NodeConfig, parallel, fan_in, Edge, Condition, ConditionExpr, cond_and, cond_or,
  cond_not, cond_compare,
}
use dippin_lang.Ir.Lookup.{node, edges_from}
use dippin_lang.Condition.Ensure.{EnsureError, ensure_conditions_parsed}
use dippin_lang.Condition.Eval.{context_key}
use dippin_lang.Simulate.State.{
  Event, pipeline_start, pipeline_end, node_enter, node_exit, edge_traverse, parallel_start,
  parallel_end, Report, SimError, bad_condition, status_success, status_dead_end,
}
use dippin_lang.Simulate.Visit.{build_node_enter_event, count_of}
use dippin_lang.Simulate.Resolve.{condition_text}
use dippin_lang.Simulate.Run.{seed, validate_sim_input}

abbrev pub max_depth : ℕ
max_depth = 200

abbrev pub max_results : ℕ
max_results = 100

-- The part of pathEnumerator that changes.
pub record Enumerator : Type 0 where
  pub results : List Report
  pub path_count : ℕ

pub record PathState : Type 0 where
  pub node_id : Str
  pub ctx : Map Str
  pub visited : Map ℕ
  pub events : List Event
  pub path : List Str
  pub depth : ℕ

-- visited[id]
abbrev pub visits_at : Str → Map ℕ → ℕ
visits_at id m = count_of (lookup id m)

unfoldable pub should_explore : Enumerator → PathState → Bool
should_explore e s =
    ltb (length e.results) max_results
    && (leb s.depth max_depth && ltb (visits_at s.node_id s.visited) 2)

abbrev pub pending_id : Str
pending_id = bytes "sim-path-pending"

-- The end of cloneState: the root of the traversal has no events yet.
unfoldable pub started : Workflow → List Event → List Event
started w [] = pipeline_start pending_id w.name ∷ []
started w (ev ∷ evs) = ev ∷ evs

abbrev pub kind_events : Node → NodeConfig → List Event
kind_events n (parallel cfg) = parallel_start n.id cfg.targets ∷ []
kind_events n (fan_in cfg) = parallel_end n.id cfg.sources ∷ []
kind_events n _ = []

unfoldable pub append_node_events : Workflow → Node → List Event → List Event
append_node_events w n events =
    events
    ++ node_enter (build_node_enter_event n w) ∷ kind_events n n.config
    ++ node_exit n.id status_success ∷ []

-- The snapshot once the node is visited.
unfoldable pub enter : Workflow → Node → PathState → PathState
enter w n s = record s {
  visited = insert s.node_id (suc (visits_at s.node_id s.visited)) s.visited;
  path = s.path ++ s.node_id ∷ [];
  events = append_node_events w n (started w s.events);
}

unfoldable pub assign_run_id : Str → List Event → List Event
assign_run_id id [] = []
assign_run_id id (pipeline_start old name ∷ evs) = pipeline_start id name ∷ evs
assign_run_id id (ev ∷ evs) = ev ∷ assign_run_id id evs

-- `path_id` is the run ID for a count: fmt.Sprintf("sim-path-%03d", n).
unfoldable pub record_path : (ℕ → Str) → Str → PathState → Enumerator → Enumerator
record_path path_id status s e =
    let ended = s.events ++ pipeline_end status (length s.visited) ∷ [] in
    let report : Report = record {
      events = assign_run_id (path_id (e.path_count + 1)) ended;
      nodes_visited = length s.visited;
      status = status;
      path = s.path;
    } in
    record { results = e.results ++ report ∷ []; path_count = e.path_count + 1 }

abbrev pub edge_event : Edge → Event
edge_event e = edge_traverse e.from e.to (condition_text e.condition) e.label e.restart

abbrev pub first_item : List Str → Str
first_item [] = []
first_item (x ∷ xs) = trim_space x

unfoldable pub seed_compare_context : Str → Str → Str → Map Str → Map Str
seed_compare_context variable op value ctx =
    let key = context_key variable in
    if op == bytes "="
    then insert key value ctx
    else if op == bytes "=="
    then insert key value ctx
    else if op == bytes "in"
    then insert key (first_item (split b',' value)) ctx
    else ctx

unfoldable pub seed_condition_context : ConditionExpr → Map Str → Map Str
seed_condition_context (cond_compare variable op value) ctx =
    seed_compare_context variable op value ctx
seed_condition_context (cond_and left right) ctx =
    seed_condition_context right (seed_condition_context left ctx)
seed_condition_context (cond_or left right) ctx = seed_condition_context left ctx
seed_condition_context (cond_not e) ctx = ctx

abbrev pub seed_parsed : Option ConditionExpr → Map Str → Map Str
seed_parsed none ctx = ctx
seed_parsed (some e) ctx = seed_condition_context e ctx

abbrev pub seed_edge : Option Condition → Map Str → Map Str
seed_edge none ctx = ctx
seed_edge (some c) ctx = seed_parsed c.parsed ctx

-- The snapshot at the other end of an edge.
abbrev pub follow : Edge → PathState → PathState
follow e s = record {
  node_id = e.to;
  ctx = seed_edge e.condition s.ctx;
  visited = s.visited;
  events = s.events ++ edge_event e ∷ [];
  path = s.path;
  depth = s.depth + 1;
}

unfoldable pub explore_edges :
    (PathState → Enumerator → Enumerator) → List Edge → PathState → Enumerator → Enumerator
explore_edges explore [] s e = e
explore_edges explore (edge ∷ edges) s e = explore_edges explore edges s (explore (follow edge s) e)

abbrev pub branch_out :
    (ℕ → Str)
    → (PathState → Enumerator → Enumerator)
    → List Edge
    → PathState
    → Enumerator
    → Enumerator
branch_out path_id explore [] s e = record_path path_id status_dead_end s e
branch_out path_id explore (edge ∷ edges) s e = explore_edges explore (edge ∷ edges) s e

-- The part of explore behind its guards; `s` is the snapshot with the node visited.
unfoldable pub explore_node :
    (ℕ → Str)
    → (PathState → Enumerator → Enumerator)
    → Workflow
    → PathState
    → Enumerator
    → Enumerator
explore_node path_id explore w s e =
    if s.node_id == w.exit
    then record_path path_id status_success s e
    else branch_out path_id explore (edges_from w s.node_id) s e

abbrev pub at_node :
    (ℕ → Str)
    → (PathState → Enumerator → Enumerator)
    → Workflow
    → PathState
    → Option Node
    → Enumerator
    → Enumerator
at_node path_id explore w s none e = e
at_node path_id explore w s (some n) e = explore_node path_id explore w (enter w n s) e

-- explore, on fuel: each level is one deeper.
unfoldable pub explore : ℕ → (ℕ → Str) → Workflow → PathState → Enumerator → Enumerator
explore zero path_id w s e = e
explore (suc fuel) path_id w s e =
    if should_explore e s
    then at_node path_id (explore fuel path_id w) w s (node w s.node_id) e
    else e

unfoldable pub root : Workflow → Map Str → PathState
root w scenario = record {
  node_id = w.start;
  ctx = seed scenario [];
  visited = [];
  events = [];
  path = [];
  depth = 0;
}

abbrev pub no_results : Enumerator
no_results = record { results = []; path_count = 0 }

unfoldable pub explore_all : (ℕ → Str) → Workflow → Map Str → List Report
explore_all path_id w scenario =
    (explore (max_depth + 2) path_id w (root w scenario) no_results).results

pub data PathError : Type 0 where
  invalid_input : SimError → PathError
  no_paths : PathError

abbrev pub some_found : List Report → Fallible PathError (List Report)
some_found [] = err no_paths
some_found (r ∷ rs) = ok (r ∷ rs)

-- enumerate parses the conditions once more.
abbrev pub enumerate :
    (ℕ → Str) → Map Str → Workflow × Option EnsureError → Fallible PathError (List Report)
enumerate path_id scenario (w, bad) = elim bad [
  | some x ↦ err (invalid_input (bad_condition x))
  | none ↦ some_found (explore_all path_id w scenario)
]

unfoldable pub run_all_paths : (ℕ → Str) → Workflow → Map Str → Fallible PathError (List Report)
run_all_paths path_id w scenario = elim (validate_sim_input w) [
  | some x ↦ err (invalid_input x)
  | none ↦
      let (w', bad) = ensure_conditions_parsed w in
      elim bad [
        | some x ↦ err (invalid_input (bad_condition x))
        | none ↦ enumerate path_id scenario (ensure_conditions_parsed w')
      ]
]
