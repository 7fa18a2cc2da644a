-- ===== src/Simulate/Visit.antt =====
-- visitNode of simulate/simulate.go: the events of entering and leaving a node, the context defaults
-- of simulate/defaults.go and the prompts of simulate/interactive.go.
use dippin_lang.Base.{
  Str, ℕ, suc, List, [], ◌∷◌, ◌++◌, Bool, true, false, Option, none, some, Map, lookup, insert,
  delete, add, length, if◌then◌else◌, bytes, ◌==◌, has_prefix, trim_prefix, trim_space,
}
use dippin_lang.Ir.{
  Workflow, WorkflowDefaults, Node, NodeConfig, agent, human, tool, parallel, fan_in, subgraph,
  HumanConfig,
}
use dippin_lang.Simulate.State.{
  NodeEnter, node_enter, node_exit, parallel_start, parallel_end, Reading, Options, Sim,
  prompt_failed, Outcome, ok, err, ◌>>=◌, emit, update_context, status_success,
}

-- resolveModel, resolveProvider and resolveFidelity, which are one function
abbrev pub or_default : Str → Str → Str
or_default [] d = d
or_default (c ∷ s) d = c ∷ s

abbrev pub basic_enter : Node → NodeEnter
basic_enter n = record {
  node = n.id;
  kind = n.kind;
  model = [];
  provider = [];
  prompt = [];
  command = [];
  mode = [];
  fidelity = [];
  label = n.label;
}

unfoldable pub populate_enter_fields : NodeEnter → WorkflowDefaults → NodeConfig → NodeEnter
populate_enter_fields e d (agent cfg) = record e {
  model = or_default cfg.model d.model;
  provider = or_default cfg.provider d.provider;
  prompt = cfg.prompt;
  fidelity = or_default cfg.fidelity d.fidelity;
}
populate_enter_fields e d (tool cfg) = record e { command = cfg.command }
populate_enter_fields e d (human cfg) = record e { mode = cfg.mode; prompt = cfg.prompt }
populate_enter_fields e d (subgraph cfg) = record e { label = bytes "subgraph:" ++ cfg.ref }
populate_enter_fields e d _ = e

unfoldable pub build_node_enter_event : Node → Workflow → NodeEnter
build_node_enter_event n w = populate_enter_fields (basic_enter n) w.defaults n.config

-- The update for one scenario entry: the empty value clears the key.
abbrev pub override : Str → Str → Sim → Sim
override key [] s = record s { ctx = delete key s.ctx }
override key (c ∷ v) s = update_context key (c ∷ v) s

unfoldable pub apply_node_scenario : Str → Map Str → Sim → Sim
apply_node_scenario node_id [] s = s
apply_node_scenario node_id ((k, v) ∷ rest) s =
    let prefix = node_id ++ bytes "." in
    apply_node_scenario node_id rest
      (if has_prefix k prefix then override (trim_prefix k prefix) v s else s)

abbrev has_key : Option Str → Bool
has_key none = false
has_key (some v) = true

unfoldable pub scenario_has_key : Map Str → Str → Str → Bool
scenario_has_key scenario key node_id =
    if has_key (lookup key scenario)
    then true
    else has_key (lookup (node_id ++ (bytes "." ++ key)) scenario)

unfoldable pub set_context_default_for_node : Options → Str → Str → Str → Sim → Sim
set_context_default_for_node opts key value node_id s =
    if scenario_has_key opts.scenario key node_id then s else update_context key value s

abbrev pub config_defaults : Options → Str → NodeConfig → Sim → Sim
config_defaults opts id (agent cfg) s =
    if cfg.auto_status
    then set_context_default_for_node opts (bytes "outcome") status_success id s
    else s
config_defaults opts id (tool cfg) s =
    set_context_default_for_node opts (bytes "outcome") status_success id
      (set_context_default_for_node opts (bytes "tool_stdout") status_success id s)
config_defaults opts id _ s = s

unfoldable pub apply_node_defaults : Options → Node → Sim → Sim
apply_node_defaults opts n s =
    config_defaults opts n.id n.config (apply_node_scenario n.id opts.scenario s)

-- The lines in front of the first blank one, and whether one was found.
abbrev pub until_blank : List Str → List Str
until_blank [] = []
until_blank ([] ∷ ls) = []
until_blank ((c ∷ l) ∷ ls) = (c ∷ l) ∷ until_blank ls

-- strings.Join(lines, "\n")
abbrev pub join_lines : List Str → Str
join_lines [] = []
join_lines (l ∷ []) = l
join_lines (l ∷ m ∷ ls) = l ++ (10 ∷ join_lines (m ∷ ls))

abbrev pub answer : Node → Str → Str → Sim → Sim
answer n key text s =
    update_context (bytes "human_response") text
      (update_context (or_default key (bytes "interview_answers")) text s)

unfoldable pub handle_interview_mode : Node → HumanConfig → Reading → Sim → Outcome Sim
handle_interview_mode n cfg reading s = elim reading.error [
  | some e ↦ err (prompt_failed n.id e)
  | none ↦ ok (answer n cfg.answers_key (join_lines (until_blank reading.lines)) s)
]

abbrev pub first_line : HumanConfig → Str → List Str → Option Str → Outcome Str
first_line cfg id (l ∷ ls) e = ok (trim_space l)
first_line cfg id [] (some e) = err (prompt_failed id e)
first_line cfg id [] none = ok cfg.default

unfoldable pub handle_choice_freeform : Node → HumanConfig → Reading → Sim → Outcome Sim
handle_choice_freeform n cfg reading s =
    first_line cfg n.id reading.lines reading.error >>= λ response.
    ok (update_context (bytes "human_response") response s)

abbrev pub interact : Option (ℕ → Reading) → Node → NodeConfig → Sim → Outcome Sim
interact (some console) n (human cfg) s =
    if cfg.mode == bytes "interview"
    then handle_interview_mode n cfg (console (length s.events)) s
    else handle_choice_freeform n cfg (console (length s.events)) s
interact _ n _ s = ok s

unfoldable pub handle_human_interaction : Options → Node → Sim → Outcome Sim
handle_human_interaction opts n s = interact opts.console n n.config s

abbrev pub count_of : Option ℕ → ℕ
count_of none = 0
count_of (some k) = k

-- s.nodeVisits[id]
abbrev pub visits_of : Str → Sim → ℕ
visits_of id s = count_of (lookup id s.node_visits)

-- The first three lines of visitNode.
unfoldable pub mark_visit : Node → Sim → Sim
mark_visit n s = record s {
  visited = add n.id s.visited;
  node_visits = insert n.id (suc (visits_of n.id s)) s.node_visits;
  path = s.path ++ n.id ∷ [];
}

abbrev pub leave : Node → Sim → Sim
leave n s = emit (node_exit n.id status_success) s

-- emitFanOutIn for the two kinds that it handles, and the rest of visitNode for the others.
unfoldable pub enter_and_leave : Workflow → Options → Node → NodeConfig → Sim → Outcome Sim
enter_and_leave w opts n (parallel cfg) s = ok (
    leave n
      (emit (parallel_start n.id cfg.targets) (emit (node_enter (build_node_enter_event n w)) s)))
enter_and_leave w opts n (fan_in cfg) s = ok (
    leave n
      (emit (parallel_end n.id cfg.sources) (emit (node_enter (build_node_enter_event n w)) s)))
enter_and_leave w opts n _ s =
    handle_human_interaction opts n
      (apply_node_defaults opts n (emit (node_enter (build_node_enter_event n w)) s))
    >>= λ s'. ok (leave n s')

unfoldable pub visit_node : Workflow → Options → Node → Sim → Outcome Sim
visit_node w opts n s = enter_and_leave w opts n n.config (mark_visit n s)
