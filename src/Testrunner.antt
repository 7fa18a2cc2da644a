-- ===== src/Testrunner.antt =====
-- testrunner/runner.go, types.go and coverage.go: the scenario tests of a workflow. A failed assertion
-- is given by what its text mentions, and an index into the path by the part of the path from there.
pub mod Expected
pub mod Suite
use dippin_lang.Base.{
  Str, ℕ, zero, suc, ◌+◌, List, [], ◌∷◌, ◌++◌, Bool, true, false, Option, none, some, Map, contains,
  length, gather, if◌then◌else◌, bytes, ◌==◌,
}
use dippin_lang.Ir.{Workflow, Edge}
use dippin_lang.Condition.Ensure.{ensure_conditions_parsed}
use dippin_lang.Simulate.State.{Options, Report, Event, edge_traverse, SimError, Outcome, ok, err}
use dippin_lang.Simulate.Run.{run, validate_sim_input}

pub record Expectation : Type 0 where
  pub status : Str
  pub visited : List Str
  pub not_visited : List Str
  pub path_contains : List Str
  pub immediately_after : Map Str

pub record TestCase : Type 0 where
  pub name : Str
  pub scenario : Map Str
  pub branch : List Str
  pub expect : Expectation

pub data Failure : Type 0 where
  simulation_error : SimError → Failure
  wrong_status : Str → Str → Failure
  should_visit : Str → Failure
  should_not_visit : Str → Failure
  not_in_order : Str → Failure
  after_not_found : Str → Failure
  after_is_last : Str → Failure
  wrong_next : Str → Str → Str → Failure

pub record CaseResult : Type 0 where
  pub name : Str
  pub passed : Bool
  pub errors : List Failure
  pub path : List Str
  pub events : List Event

pub record SuiteResult : Type 0 where
  pub results : List CaseResult
  pub passed : ℕ
  pub failed : ℕ
  pub total : ℕ

abbrev pub default_max_node_visits : ℕ
default_max_node_visits = 3

abbrev pub is_empty : Str → Bool
is_empty [] = true
is_empty (c ∷ s) = false

unfoldable pub check_status : Report → Expectation → List Failure
check_status r e =
    if is_empty e.status
    then []
    else if r.status == e.status
    then []
    else wrong_status e.status r.status ∷ []

unfoldable pub check_visited : List Str → List Str → List Failure
check_visited path [] = []
check_visited path (x ∷ xs) =
    let rest = check_visited path xs in if contains path x then rest else should_visit x ∷ rest

unfoldable pub check_not_visited : List Str → List Str → List Failure
check_not_visited path [] = []
check_not_visited path (x ∷ xs) =
    let rest = check_not_visited path xs in
    if contains path x then should_not_visit x ∷ rest else rest

-- findInPath: what stands behind the first `target`, if one is there.
unfoldable pub find_in_path : List Str → Str → Option (List Str)
find_in_path [] target = none
find_in_path (x ∷ xs) target = if x == target then some xs else find_in_path xs target

unfoldable pub check_path_contains : List Str → List Str → List Failure
check_path_contains path [] = []
check_path_contains path (x ∷ xs) = elim (find_in_path path x) [
  | none ↦ not_in_order x ∷ check_path_contains path xs
  | some rest ↦ check_path_contains rest xs
]

abbrev pub next_is : Str → Str → List Str → List Failure
next_is from to [] = after_is_last from ∷ []
next_is from to (x ∷ xs) = if x == to then [] else wrong_next to from x ∷ []

unfoldable pub check_adjacent : List Str → Str → Str → List Failure
check_adjacent path from to = elim (find_in_path path from) [
  | none ↦ after_not_found from ∷ []
  | some rest ↦ next_is from to rest
]

unfoldable pub check_immediately_after : List Str → Map Str → List Failure
check_immediately_after path [] = []
check_immediately_after path ((from, to) ∷ rest) =
    check_adjacent path from to ++ check_immediately_after path rest

unfoldable pub check_expectations : Report → Expectation → List Failure
check_expectations r e =
    check_status r e
    ++ (check_visited r.path e.visited
        ++ (check_not_visited r.path e.not_visited
            ++ (check_path_contains r.path e.path_contains
                ++ check_immediately_after r.path e.immediately_after)))

abbrev pub is_none_left : List Failure → Bool
is_none_left [] = true
is_none_left (x ∷ xs) = false

abbrev pub case_result : TestCase → Outcome Report → CaseResult
case_result tc (err x) = record {
  name = tc.name;
  passed = false;
  errors = simulation_error x ∷ [];
  path = [];
  events = [];
}
case_result tc (ok r) = record {
  name = tc.name;
  passed = is_none_left (check_expectations r tc.expect);
  errors = check_expectations r tc.expect;
  path = r.path;
  events = r.events;
}

-- The options of RunCase, with the run ID that the counter gives.
abbrev pub case_options : Str → TestCase → Options
case_options run_id tc = record {
  run_id = run_id;
  scenario = tc.scenario;
  max_node_visits = default_max_node_visits;
  branch = tc.branch;
  console = none;
}

unfoldable pub run_case : Workflow → Str → TestCase → CaseResult
run_case w run_id tc = case_result tc (run w (case_options run_id tc))

-- What Run leaves of the workflow that it is given: it writes the parsed conditions into it.
unfoldable pub after_run : Workflow → Workflow
after_run w = elim (validate_sim_input w) [ some e ↦ w | none ↦ (ensure_conditions_parsed w).0 ]

abbrev pub count_case : CaseResult → SuiteResult → SuiteResult
count_case c sr =
    if c.passed
    then record sr { results = sr.results ++ c ∷ []; passed = sr.passed + 1 }
    else record sr { results = sr.results ++ c ∷ []; failed = sr.failed + 1 }

-- The loop of RunSuite over its cases with their run IDs; the cases share the workflow.
unfoldable pub run_cases : Workflow → List (Str × TestCase) → SuiteResult → SuiteResult
run_cases w [] sr = sr
run_cases w ((run_id, tc) ∷ rest) sr =
    run_cases (after_run w) rest (count_case (run_case w run_id tc) sr)

abbrev pub new_suite_result : ℕ → SuiteResult
new_suite_result n = record { results = []; passed = 0; failed = 0; total = n }

unfoldable pub run_suite : Workflow → List (Str × TestCase) → SuiteResult
run_suite w cases = run_cases w cases (new_suite_result (length cases))

-- `Percent`, a float, is left out.
pub record EdgeCoverage : Type 0 where
  pub total : ℕ
  pub covered : ℕ
  pub uncovered : List Str

abbrev pub arrow : Str
arrow = bytes " -> "

abbrev pub edge_key : Str → Str → Str
edge_key from to = from ++ (arrow ++ to)

abbrev pub traversed_by : Event → List Str
traversed_by (edge_traverse from to condition label restart) = edge_key from to ∷ []
traversed_by _ = []

unfoldable pub collect_traversed_edges : SuiteResult → List Str
collect_traversed_edges sr = gather (λ (c : CaseResult). gather traversed_by c.events) sr.results

unfoldable pub build_coverage : List Str → List Edge → EdgeCoverage → EdgeCoverage
build_coverage traversed [] cov = cov
build_coverage traversed (e ∷ es) cov = build_coverage traversed es (
    if contains traversed (edge_key e.from e.to)
    then record cov { covered = cov.covered + 1 }
    else record cov { uncovered = cov.uncovered ++ edge_key e.from e.to ∷ [] })

unfoldable pub compute_edge_coverage : Workflow → SuiteResult → EdgeCoverage
compute_edge_coverage w sr =
    build_coverage (collect_traversed_edges sr) w.edges
      (record { total = length w.edges; covered = 0; uncovered = [] })
