-- ===== src/Condition/Ensure.antt =====
-- EnsureConditionsParsed of simulate/condition.go. It writes the parsed form through pointers, so
-- what was parsed before an error stays parsed: the changed workflow comes back beside the error.
use dippin_lang.Base.{Str, List, [], ◌∷◌, Option, none, some, if◌then◌else◌, bytes}
use dippin_lang.Ir.{
  Workflow, Node, Edge, Condition, ConditionExpr, NodeConfig, manager_loop, ManagerLoopConfig,
}
use dippin_lang.Condition.Parse.{ParseError, Result, ok, err, parse_condition, is_end}

-- Which condition is invalid: its place, its text and the parser's error.
pub data EnsureError : Type 0 where
  edge_condition : Str → Str → Str → ParseError → EnsureError
  node_condition : Str → Str → Str → ParseError → EnsureError

abbrev pub settle : Condition → Result ConditionExpr → Condition × Option ParseError
settle c (ok e) = (record c { parsed = some e }, none)
settle c (err x) = (c, some x)

abbrev pub parse_raw : Condition → Option ConditionExpr → Condition × Option ParseError
parse_raw c (some e) = (c, none)
parse_raw c none = if is_end c.raw then (c, none) else settle c (parse_condition c.raw)

-- The part that edges and nodes share: parse the text unless it is empty or parsed already.
unfoldable pub ensure_condition : Condition → Condition × Option ParseError
ensure_condition c = parse_raw c c.parsed

abbrev pub ensure_optional : Option Condition → Option Condition × Option ParseError
ensure_optional none = (none, none)
ensure_optional (some c) = let (c', e) = ensure_condition c in (some c', e)

abbrev pub edge_error : Edge → Str → Option ParseError → Option EnsureError
edge_error e raw none = none
edge_error e raw (some x) = some (edge_condition e.from e.to raw x)

abbrev pub raw_of : Option Condition → Str
raw_of none = []
raw_of (some c) = c.raw

unfoldable pub ensure_edge_condition_parsed : Edge → Edge × Option EnsureError
unfolding ensure_condition
ensure_edge_condition_parsed e =
    let (condition, x) = ensure_optional e.condition in
    (record e { condition = condition }, edge_error e (raw_of e.condition) x)

abbrev pub node_error : Str → Str → Str → Option ParseError → Option EnsureError
node_error id field raw none = none
node_error id field raw (some x) = some (node_condition id field raw x)

-- The steer condition is reached only if the stop condition is valid.
abbrev pub ensure_steer : Node → ManagerLoopConfig → Option EnsureError → Node × Option EnsureError
ensure_steer n cfg (some x) = (record n { config = manager_loop cfg }, some x)
ensure_steer n cfg none =
    let (condition, x) = ensure_optional cfg.steer_condition in
    (
      record n { config = manager_loop (record cfg { steer_condition = condition }) },
      node_error n.id (bytes "steer_condition") (raw_of cfg.steer_condition) x,
    )

abbrev pub ensure_config : Node → NodeConfig → Node × Option EnsureError
ensure_config n (manager_loop cfg) =
    let (condition, x) = ensure_optional cfg.stop_condition in
    ensure_steer n (record cfg { stop_condition = condition })
      (node_error n.id (bytes "stop_condition") (raw_of cfg.stop_condition) x)
ensure_config n _ = (n, none)

unfoldable pub ensure_node_conditions_parsed : Node → Node × Option EnsureError
unfolding ensure_condition
ensure_node_conditions_parsed n = ensure_config n n.config

-- The loops: the first error ends them.
unfoldable pub ensure_all :
    {A : Type 0} → (A → A × Option EnsureError) → List A → List A × Option EnsureError
ensure_all f [] = ([], none)
ensure_all f (x ∷ xs) =
    let rest = ensure_all f xs in
    let (x', bad) = f x in elim bad [ some e ↦ (x' ∷ xs, some e) | none ↦ (x' ∷ rest.0, rest.1) ]

unfoldable pub ensure_conditions_parsed : Workflow → Workflow × Option EnsureError
unfolding ensure_all ensure_edge_condition_parsed ensure_node_conditions_parsed
ensure_conditions_parsed w =
    let (edges, bad) = ensure_all ensure_edge_condition_parsed w.edges in
    elim bad [
      | some e ↦ (record w { edges = edges }, some e)
      | none ↦
          let (nodes, bad') = ensure_all ensure_node_conditions_parsed w.nodes in
          (record w { edges = edges; nodes = nodes }, bad')
    ]
