-- ===== src/Diff.antt =====
-- diff/diff.go: the comparison of two workflows. A Go map is a list in the order of its range, each key once.
pub mod Same
use Prim.Native.Nat.{◌/◌, ◌%◌}
use mathlib.Core.Option.{map}
use dippin_lang.Base.{
  Str, ℕ, zero, suc, ◌+◌, List, [], ◌∷◌, ◌++◌, Bool, true, false, not, ltb, leb, length, take,
  select, Map, lookup, insert, str_le, sort_strings, bytes, ◌==◌, if◌then◌else◌, Option, none, some,
  ℤ, pos, negsuc,
}
use dippin_lang.Ir.{Workflow, Node, NodeConfig, agent, AgentConfig, Edge, Condition}

pub record FieldChange : Type 0 where
  pub field : Str
  pub old_value : Str
  pub new_value : Str

pub record NodeDiff : Type 0 where
  pub node_id : Str
  pub changes : List FieldChange

pub record EdgeSummary : Type 0 where
  pub from : Str
  pub to : Str
  pub condition : Str

-- The costs, floats, are left out. The modified nodes are none where a call of itoa does not end.
pub record Report : Type 0 where
  pub nodes_added : List Str
  pub nodes_removed : List Str
  pub nodes_modified : Option (List NodeDiff)
  pub edges_added : List EdgeSummary
  pub edges_removed : List EdgeSummary

-- On fuel: a round takes a digit.
unfoldable pub int_to_str : ℕ → ℕ → Str
int_to_str zero n = []
int_to_str (suc fuel) n =
    let rest = int_to_str fuel (n / 10) in
    if ltb n 10 then (b'0' + n) ∷ [] else rest ++ (b'0' + n % 10) ∷ []

abbrev pub max_int : ℕ
max_int = 9223372036854775807

-- intToStr negates a negative number first. The least integer of 64 bits is its own negation, and the calls do
-- not end.
unfoldable pub itoa : ℤ → Option Str
itoa (pos n) = some (int_to_str (suc n) n)
itoa (negsuc n) = if ltb n max_int then some (b'-' ∷ int_to_str (suc (suc n)) (suc n)) else none

unfoldable pub truncate : Str → ℕ → Str
truncate s max_len = if leb (length s) max_len then s else take max_len s ++ bytes "..."

-- agentField has the fields of FieldChange.
abbrev pub agent_fields : AgentConfig → AgentConfig → Str → Str → List FieldChange
agent_fields old new old_turns new_turns =
    record { field = bytes "model"; old_value = old.model; new_value = new.model }
    ∷ record { field = bytes "provider"; old_value = old.provider; new_value = new.provider }
    ∷ record {
      field = bytes "prompt";
      old_value = truncate old.prompt 50;
      new_value = truncate new.prompt 50;
    }
    ∷ record { field = bytes "max_turns"; old_value = old_turns; new_value = new_turns }
    ∷ record {
      field = bytes "reasoning_effort";
      old_value = old.reasoning_effort;
      new_value = new.reasoning_effort;
    }
    ∷ record { field = bytes "fidelity"; old_value = old.fidelity; new_value = new.fidelity }
    ∷ []

abbrev pub printed_fields :
    AgentConfig → AgentConfig → Option Str → Option Str → Option (List FieldChange)
printed_fields old new none new_turns = none
printed_fields old new (some old_turns) new_turns = map (agent_fields old new old_turns) new_turns

abbrev pub agent_field_table : AgentConfig → AgentConfig → Option (List FieldChange)
agent_field_table old new = printed_fields old new (itoa old.max_turns) (itoa new.max_turns)

unfoldable pub changed_fields : List FieldChange → List FieldChange
changed_fields [] = []
changed_fields (f ∷ fs) =
    let rest = changed_fields fs in if f.old_value == f.new_value then rest else f ∷ rest

abbrev pub diff_agent_config : AgentConfig → AgentConfig → Option (List FieldChange)
diff_agent_config old new = map changed_fields (agent_field_table old new)

abbrev pub compare_config_fields : NodeConfig → NodeConfig → Option (List FieldChange)
compare_config_fields (agent old) (agent new) = diff_agent_config old new
compare_config_fields _ _ = some []

-- The label and the kind, tested one after the other like the rows of the table.
abbrev pub compare_node_fields : Node → Node → Option (List FieldChange)
compare_node_fields old new =
    let names = changed_fields (
      record { field = bytes "label"; old_value = old.label; new_value = new.label }
      ∷ record { field = bytes "kind"; old_value = old.kind; new_value = new.kind }
      ∷ []) in
    map (λ fields. names ++ fields) (compare_config_fields old.config new.config)

unfoldable pub fill_node_map : List Node → Map Node → Map Node
fill_node_map [] m = m
fill_node_map (n ∷ ns) m = fill_node_map ns (insert n.id n m)

abbrev pub node_map : Workflow → Map Node
node_map w = fill_node_map w.nodes []

abbrev pub is_absent {ℓ} : {V : Type ℓ} → Option V → Bool
is_absent none = true
is_absent (some v) = false

-- The keys of b that a lacks.
unfoldable pub added_ids : Map Node → Map Node → List Str
added_ids a [] = []
added_ids a ((id, n) ∷ b) =
    let rest = added_ids a b in if is_absent (lookup id a) then id ∷ rest else rest

abbrev pub find_added_ids : Map Node → Map Node → List Str
find_added_ids a b = sort_strings (added_ids a b)

abbrev pub diff_of : Str → List FieldChange → List NodeDiff
diff_of id [] = []
diff_of id (c ∷ cs) = record { node_id = id; changes = c ∷ cs } ∷ []

abbrev pub diff_at : Str → Node → Option Node → Option (List NodeDiff)
diff_at id old none = some []
diff_at id old (some new) = map (diff_of id) (compare_node_fields old new)

abbrev pub append_diffs : Option (List NodeDiff) → Option (List NodeDiff) → Option (List NodeDiff)
append_diffs none later = none
append_diffs (some diffs) later = map (λ ds. diffs ++ ds) later

unfoldable pub modified_nodes : Map Node → Map Node → Option (List NodeDiff)
modified_nodes [] new = some []
modified_nodes ((id, old) ∷ rest) new =
    append_diffs (diff_at id old (lookup id new)) (modified_nodes rest new)

unfoldable pub insert_diff : NodeDiff → List NodeDiff → List NodeDiff
insert_diff d [] = d ∷ []
insert_diff d (e ∷ es) = if str_le d.node_id e.node_id then d ∷ e ∷ es else e ∷ insert_diff d es

-- sort.Slice by node IDs, which are distinct
unfoldable pub sort_diffs : List NodeDiff → List NodeDiff
sort_diffs [] = []
sort_diffs (d ∷ ds) = insert_diff d (sort_diffs ds)

abbrev pub find_modified_nodes : Map Node → Map Node → Option (List NodeDiff)
find_modified_nodes old new = map sort_diffs (modified_nodes old new)

abbrev pub raw_of : Option Condition → Str
raw_of none = []
raw_of (some c) = c.raw

abbrev pub edge_key : Edge → Str
edge_key e = e.from ++ bytes "->" ++ e.to ++ bytes ":" ++ raw_of e.condition

abbrev pub summary_of : Edge → EdgeSummary
summary_of e = record { from = e.from; to = e.to; condition = raw_of e.condition }

unfoldable pub fill_edge_set : List Edge → Map EdgeSummary → Map EdgeSummary
fill_edge_set [] m = m
fill_edge_set (e ∷ es) m = fill_edge_set es (insert (edge_key e) (summary_of e) m)

abbrev pub edge_set : Workflow → Map EdgeSummary
edge_set w = fill_edge_set w.edges []

unfoldable pub added_edges : Map EdgeSummary → Map EdgeSummary → List EdgeSummary
added_edges a [] = []
added_edges a ((key, es) ∷ b) =
    let rest = added_edges a b in if is_absent (lookup key a) then es ∷ rest else rest

unfoldable pub insert_edge : EdgeSummary → List EdgeSummary → List EdgeSummary
insert_edge d [] = d ∷ []
insert_edge d (e ∷ es) =
    if str_le (d.from ++ d.to) (e.from ++ e.to) then d ∷ e ∷ es else e ∷ insert_edge d es

-- sort.Slice by the endpoints; it leaves the order of edges with the same endpoints open.
unfoldable pub sort_edges : List EdgeSummary → List EdgeSummary
sort_edges [] = []
sort_edges (e ∷ es) = insert_edge e (sort_edges es)

abbrev pub find_added_edges : Map EdgeSummary → Map EdgeSummary → List EdgeSummary
find_added_edges a b = sort_edges (added_edges a b)

unfoldable pub compare : Workflow → Workflow → Report
compare old new = record {
  nodes_added = find_added_ids (node_map old) (node_map new);
  nodes_removed = find_added_ids (node_map new) (node_map old);
  nodes_modified = find_modified_nodes (node_map old) (node_map new);
  edges_added = find_added_edges (edge_set old) (edge_set new);
  edges_removed = find_added_edges (edge_set new) (edge_set old);
}
