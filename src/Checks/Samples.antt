-- ===== src/Checks/Samples.antt =====
-- A small workflow: a plan, two parallel workers joined again, and a review that passes or restarts.
use dippin_lang.Base.{Str, List, [], ◌∷◌, none, some, true, false, bytes, pos, Bool}
use dippin_lang.Ir.{
  Workflow, WorkflowDefaults, Node, NodeConfig, agent, parallel, fan_in, tool, AgentConfig,
  ToolConfig, Edge,
}
use dippin_lang.Ir.Lookup.{no_location, plain_edge}

abbrev pub plain_agent : Bool → AgentConfig
plain_agent auto = record {
  prompt = bytes "do it";
  system_prompt = [];
  model = [];
  provider = [];
  max_turns = pos 0;
  cmd_timeout = pos 0;
  cache_tools = false;
  compaction = [];
  reasoning_effort = [];
  fidelity = [];
  auto_status = auto;
  goal_gate = false;
  response_format = [];
  response_schema = [];
  backend = [];
  working_dir = [];
  params = [];
}

abbrev pub plain_tool : ToolConfig
plain_tool = record {
  command = bytes "make";
  timeout = pos 0;
  outputs = [];
  marker_grep = [];
  route_required = false;
  output_limit = pos 0;
  verify_acid = [];
}

abbrev pub plain_node : Str → Str → NodeConfig → Node
plain_node id kind config = record {
  id = id;
  kind = kind;
  label = [];
  classes = [];
  config = config;
  retry = record {
    policy = [];
    max_retries = pos 0;
    base_delay = pos 0;
    retry_target = [];
    fallback_target = [];
  };
  io = record { reads = []; writes = [] };
  satisfies = [];
  source = no_location;
}

abbrev pub plain_defaults : WorkflowDefaults
plain_defaults = record {
  model = bytes "m";
  provider = [];
  retry_policy = [];
  max_retries = pos 0;
  fidelity = [];
  max_restarts = pos 0;
  restart_target = [];
  cache_tools = false;
  compaction = [];
  on_resume = [];
  max_total_tokens = pos 0;
  max_cost_cents = pos 0;
  max_wall_time = pos 0;
  tool_commands_allow = [];
  tool_denylist_add = [];
}

abbrev pub workers : List Str
workers = bytes "x" ∷ bytes "y" ∷ []

abbrev pub conditional_edge : Str → Str → Str → Bool → Edge
conditional_edge from to raw restart = record {
  from = from;
  to = to;
  label = [];
  condition = some (record { raw = raw; parsed = none });
  weight = pos 0;
  restart = restart;
  source = no_location;
}

abbrev pub sample : Workflow
sample = record {
  name = bytes "sample";
  version = [];
  goal = bytes "test";
  start = bytes "a";
  exit = bytes "e";
  defaults = plain_defaults;
  vars = [];
  requires = [];
  spec = none;
  nodes =
      plain_node (bytes "a") (bytes "agent") (agent (plain_agent false))
      ∷ plain_node (bytes "p") (bytes "parallel")
          (parallel (record { targets = workers; branches = [] }))
      ∷ plain_node (bytes "x") (bytes "agent") (agent (plain_agent false))
      ∷ plain_node (bytes "y") (bytes "tool") (tool plain_tool)
      ∷ plain_node (bytes "j") (bytes "fan_in") (fan_in (record { sources = workers }))
      ∷ plain_node (bytes "g") (bytes "agent") (agent (plain_agent true))
      ∷ plain_node (bytes "e") (bytes "agent") (agent (plain_agent false))
      ∷ [];
  edges =
      plain_edge (bytes "a") (bytes "p")
      ∷ plain_edge (bytes "j") (bytes "g")
      ∷ conditional_edge (bytes "g") (bytes "a") (bytes "ctx.outcome != success") true
      ∷ conditional_edge (bytes "g") (bytes "e") (bytes "ctx.outcome = success") false
      ∷ [];
  stylesheet = [];
  source_map = none;
}
