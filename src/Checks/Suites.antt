-- ===== src/Checks/Suites.antt =====
-- Scenario tests of the sample.
use dippin_lang.Base.{Str, List, [], ◌∷◌, ◌≡◌, ◌↔◌, ◌+◌, refl, bytes, true, length}
use dippin_lang.Simulate.State.{Report, ok}
use dippin_lang.Simulate.Run.{run}
use dippin_lang.Condition.Ensure.{ensure_conditions_parsed}
use dippin_lang.Condition.Twice.{ensure_conditions_parsed-twice}
use dippin_lang.Testrunner.{
  TestCase, case_options, run_case, run_suite, after_run, run_cases, check_status, check_visited,
  check_not_visited, find_in_path, check_path_contains, check_adjacent, check_immediately_after,
  check_expectations,
}
use dippin_lang.Testrunner.Expected.{Meets, run_case-passed_iff}
use dippin_lang.Testrunner.Suite.{run_each, passes, run_suite-run_each, run_suite-adds_up}
use dippin_lang.Checks.Runs.{simulator}
use dippin_lang.Checks.Samples.{sample}

abbrev passing : TestCase
passing = record {
  name = bytes "passes";
  scenario = [];
  branch = [];
  expect = record {
    status = bytes "success";
    visited = bytes "y" ∷ [];
    not_visited = bytes "z" ∷ [];
    path_contains = bytes "p" ∷ bytes "j" ∷ bytes "e" ∷ [];
    immediately_after = (bytes "a", bytes "p") ∷ [];
  };
}

abbrev failing : TestCase
failing = record passing {
  name = bytes "fails";
  expect = record passing.expect { not_visited = bytes "y" ∷ [] };
}

abbrev cases : List (Str × TestCase)
cases = (bytes "1", passing) ∷ (bytes "2", failing) ∷ []

suite_counts : ((run_suite sample cases).passed ≡ 1) × ((run_suite sample cases).failed ≡ 1)
unfolding simulator after_run run_case run_cases run_suite check_status check_visited
    check_not_visited find_in_path check_path_contains check_adjacent check_immediately_after
    check_expectations
suite_counts = (refl, refl)

ensure_conditions_parsed-twice_example :
    ensure_conditions_parsed (ensure_conditions_parsed sample).0 ≡ ensure_conditions_parsed sample
ensure_conditions_parsed-twice_example = ensure_conditions_parsed-twice sample

run_case-passed_iff_example : ((run_case sample (bytes "1") passing).passed ≡ true) ↔ (
    (r : Report) × (run sample (case_options (bytes "1") passing) ≡ ok r) × Meets r passing.expect)
run_case-passed_iff_example = run_case-passed_iff sample (bytes "1") passing

run_suite-run_each_example : (run_suite sample cases).results ≡ run_each sample cases
run_suite-run_each_example = run_suite-run_each sample cases

run_suite-adds_up_example :
    ((run_suite sample cases).passed ≡ passes (run_each sample cases))
    × ((run_suite sample cases).passed + (run_suite sample cases).failed
        ≡ (run_suite sample cases).total)
    × ((run_suite sample cases).total ≡ length cases)
run_suite-adds_up_example = run_suite-adds_up sample cases
