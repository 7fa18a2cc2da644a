-- ===== src/Simulate/State.antt =====
-- The simulator's state, options, events and errors. Time stamps are left out, and the run ID, which
-- the program takes from a counter, is an option.
use dippin_lang.Base.{Str, ℕ, List, [], ◌∷◌, ◌++◌, Bool, Option, Map, insert, bytes}
use dippin_lang.Condition.Ensure.{EnsureError}

pub record NodeEnter : Type 0 where
  pub node : Str
  pub kind : Str
  pub model : Str
  pub provider : Str
  pub prompt : Str
  pub command : Str
  pub mode : Str
  pub fidelity : Str
  pub label : Str

-- event/event.go
pub data Event : Type 0 where
  pipeline_start : Str → Str → Event
  pipeline_end : Str → ℕ → Event
  node_enter : NodeEnter → Event
  node_exit : Str → Str → Event
  edge_traverse : Str → Str → Str → Str → Bool → Event
  context_update : Str → Str → Event
  parallel_start : Str → List Str → Event
  parallel_end : Str → List Str → Event

-- What a scanner over the console's input yields at one prompt: its lines, and what its Err says once the
-- prompt has stopped to read, be it at a blank line or at the end.
pub record Reading : Type 0 where
  pub lines : List Str
  pub error : Option Str

-- `console` is there where the run is interactive and has an input; it is asked with the number of
-- events so far, which is different at each prompt. `scenario` stands in the order in which Go ranges
-- over the map, and `branch` is the set of the keys that it maps to true. A negative `MaxNodeVisits`
-- acts as 0.
pub record Options : Type 0 where
  pub run_id : Str
  pub scenario : Map Str
  pub max_node_visits : ℕ
  pub branch : List Str
  pub console : Option (ℕ → Reading)

-- `visited` is the set of IDs, `node_visits` counts them.
pub record Sim : Type 0 where
  pub ctx : Map Str
  pub visited : List Str
  pub node_visits : Map ℕ
  pub events : List Event
  pub path : List Str
  pub steps : ℕ

pub record Report : Type 0 where
  pub events : List Event
  pub nodes_visited : ℕ
  pub status : Str
  pub path : List Str

pub data SimError : Type 0 where
  no_start : SimError
  no_exit : SimError
  start_not_found : Str → SimError
  exit_not_found : Str → SimError
  bad_condition : EnsureError → SimError
  node_not_found : Str → SimError
  branch_node_not_found : Str → SimError
  branch_exceeded : SimError
  exceeded : SimError
  prompt_failed : Str → Str → SimError

pub data Outcome {ℓ} (A : Type ℓ) : Type ℓ where
  ok : A → Outcome A
  err : SimError → Outcome A

infixl 5 ◌>>=◌
abbrev pub ◌>>=◌ {ℓ κ} : {S : Type ℓ} {T : Type κ} → Outcome S → (S → Outcome T) → Outcome T
ok done >>= next = next done
err failure >>= next = err failure

abbrev pub status_success : Str
status_success = bytes "success"

abbrev pub status_dead_end : Str
status_dead_end = bytes "dead_end"

-- const maxSteps
unfoldable pub max_steps : ℕ
max_steps = 500

-- (s *simulator) emit
abbrev pub emit : Event → Sim → Sim
emit ev s = record s { events = s.events ++ ev ∷ [] }

-- (s *simulator) updateContext
unfoldable pub update_context : Str → Str → Sim → Sim
update_context key value s =
    emit (context_update key value) (record s { ctx = insert key value s.ctx })
