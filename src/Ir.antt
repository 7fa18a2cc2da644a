-- ===== src/Ir.antt =====
-- The intermediate representation: ir/ir.go, ir/edge.go, ir/source.go and ir/spec.go. A pointer or
-- interface that may be nil is an `Option`. `AgentConfig.CompactionThreshold`, the one float of the
-- representation, is left out: no modelled operation reads it.
pub mod Lookup
pub mod Arc
use dippin_lang.Base.{Str, List, Bool, Option, Map, ℤ}

pub record SourceLocation : Type 0 where
  pub file : Str
  pub line : ℤ
  pub column : ℤ
  pub end_line : ℤ
  pub end_column : ℤ

pub record SourceMapEntry : Type 0 where
  pub ir_element : Str
  pub location : SourceLocation

pub record SpecRef : Type 0 where
  pub loader : Str
  pub path : Str

-- A nil `ConditionExpr` inside a condition is the `none` of `parsed`.
pub data ConditionExpr : Type 0 where
  cond_and : ConditionExpr → ConditionExpr → ConditionExpr
  cond_or : ConditionExpr → ConditionExpr → ConditionExpr
  cond_not : ConditionExpr → ConditionExpr
  cond_compare : Str → Str → Str → ConditionExpr

pub record Condition : Type 0 where
  pub raw : Str
  pub parsed : Option ConditionExpr

pub record Edge : Type 0 where
  pub from : Str
  pub to : Str
  pub label : Str
  pub condition : Option Condition
  pub weight : ℤ
  pub restart : Bool
  pub source : SourceLocation

pub record AgentConfig : Type 0 where
  pub prompt : Str
  pub system_prompt : Str
  pub model : Str
  pub provider : Str
  pub max_turns : ℤ
  pub cmd_timeout : ℤ
  pub cache_tools : Bool
  pub compaction : Str
  pub reasoning_effort : Str
  pub fidelity : Str
  pub auto_status : Bool
  pub goal_gate : Bool
  pub response_format : Str
  pub response_schema : Str
  pub backend : Str
  pub working_dir : Str
  pub params : Map Str

pub record HumanConfig : Type 0 where
  pub mode : Str
  pub default : Str
  pub prompt : Str
  pub questions_key : Str
  pub answers_key : Str
  pub timeout : ℤ
  pub timeout_action : Str

pub record ToolConfig : Type 0 where
  pub command : Str
  pub timeout : ℤ
  pub outputs : List Str
  pub marker_grep : Str
  pub route_required : Bool
  pub output_limit : ℤ
  pub verify_acid : List Str

pub record BranchConfig : Type 0 where
  pub target : Str
  pub model : Str
  pub provider : Str
  pub fidelity : Str

pub record ParallelConfig : Type 0 where
  pub targets : List Str
  pub branches : List BranchConfig

pub record FanInConfig : Type 0 where
  pub sources : List Str

pub record SubgraphConfig : Type 0 where
  pub ref : Str
  pub params : Map Str

pub record ManagerLoopConfig : Type 0 where
  pub subgraph_ref : Str
  pub poll_interval : ℤ
  pub max_cycles : ℤ
  pub stop_condition : Option Condition
  pub steer_condition : Option Condition
  pub steer_context : Map Str

-- The sealed interface; `unset` is its nil value.
pub data NodeConfig : Type 0 where
  agent : AgentConfig → NodeConfig
  human : HumanConfig → NodeConfig
  tool : ToolConfig → NodeConfig
  parallel : ParallelConfig → NodeConfig
  fan_in : FanInConfig → NodeConfig
  subgraph : SubgraphConfig → NodeConfig
  conditional : NodeConfig
  manager_loop : ManagerLoopConfig → NodeConfig
  unset : NodeConfig

pub record RetryConfig : Type 0 where
  pub policy : Str
  pub max_retries : ℤ
  pub base_delay : ℤ
  pub retry_target : Str
  pub fallback_target : Str

pub record NodeIo : Type 0 where
  pub reads : List Str
  pub writes : List Str

-- `kind` is a string type: its named values are constants, and any other may stand there.
pub record Node : Type 0 where
  pub id : Str
  pub kind : Str
  pub label : Str
  pub classes : List Str
  pub config : NodeConfig
  pub retry : RetryConfig
  pub io : NodeIo
  pub satisfies : List Str
  pub source : SourceLocation

pub record StyleSelector : Type 0 where
  pub kind : Str
  pub value : Str

pub record StylesheetRule : Type 0 where
  pub selector : StyleSelector
  pub properties : Map Str

pub record WorkflowDefaults : Type 0 where
  pub model : Str
  pub provider : Str
  pub retry_policy : Str
  pub max_retries : ℤ
  pub fidelity : Str
  pub max_restarts : ℤ
  pub restart_target : Str
  pub cache_tools : Bool
  pub compaction : Str
  pub on_resume : Str
  pub max_total_tokens : ℤ
  pub max_cost_cents : ℤ
  pub max_wall_time : ℤ
  pub tool_commands_allow : Str
  pub tool_denylist_add : Str

pub record Workflow : Type 0 where
  pub name : Str
  pub version : Str
  pub goal : Str
  pub start : Str
  pub exit : Str
  pub defaults : WorkflowDefaults
  pub vars : Map Str
  pub requires : List Str
  pub spec : Option SpecRef
  pub nodes : List Node
  pub edges : List Edge
  pub stylesheet : List StylesheetRule
  pub source_map : Option (List SourceMapEntry)
