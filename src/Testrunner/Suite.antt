-- ===== src/Testrunner/Suite.antt =====
-- RunSuite: the cases of a suite share the workflow, and Run writes into it.
use dippin_lang.Base.{
  Str, ℕ, suc, ◌+◌, List, [], ◌∷◌, ◌++◌, ◌≡◌, inl, inr, refl, sym, ◌∙◌, ap, arith, Option, none,
  some, Option-cases, Bool-cases, Bool, true, false, length, length-append, contains, if◌then◌else◌,
  ◌==◌, ==_iff,
}
use mathlib.Core.List.{append-nil, append_assoc}
use dippin_lang.Ir.{Workflow, Node}
use dippin_lang.Ir.Arc.{ids}
use dippin_lang.Ir.Lookup.{node, find_node}
use dippin_lang.Condition.Ensure.{ensure_conditions_parsed, EnsureError}
use dippin_lang.Condition.Kept.{SameGraph, ensure_conditions_parsed-SameGraph}
use dippin_lang.Condition.Twice.{ensure_conditions_parsed-twice}
use dippin_lang.Simulate.State.{
  Options, SimError, bad_condition, no_start, no_exit, start_not_found, exit_not_found, Outcome,
  err, Report,
}
use dippin_lang.Simulate.Run.{run, run_parsed, validate_sim_input, is_empty}
use dippin_lang.Testrunner.{
  TestCase, CaseResult, SuiteResult, run_case, case_options, case_result, after_run, count_case,
  run_cases, run_suite, new_suite_result,
}

abbrev is_found : Option Node → Bool
is_found none = false
is_found (some n) = true

find_node-contains : (x : Str) (ns : List Node) → is_found (find_node x ns) ≡ contains (ids ns) x
unfolding find_node contains
find_node-contains x [] = refl
find_node-contains x (n ∷ ns) =
    ground (arith, find_node-contains x ns, ==_iff n.id x, ==_iff x n.id, Bool-cases (n.id == x))

abbrev check_exit : Str → Bool → Option SimError
check_exit exit found = if found then none else some (exit_not_found exit)

abbrev ends_error : Str → Str → Bool → Bool → Option SimError
ends_error start exit has_start has_exit =
    if is_empty start
    then some no_start
    else if is_empty exit
    then some no_exit
    else if has_start
    then check_exit exit has_exit
    else some (start_not_found start)

found_ends :
    (w : Workflow)
    → validate_sim_input w
      ≡ ends_error w.start w.exit (is_found (node w w.start)) (is_found (node w w.exit))
unfolding validate_sim_input
found_ends w = ground (arith, Option-cases (node w w.start), Option-cases (node w w.exit))

validate_sim_input-SameGraph :
    {w w' : Workflow} → SameGraph w w' → validate_sim_input w' ≡ validate_sim_input w
unfolding node
validate_sim_input-SameGraph {w} {w'} g =
    rw
      (
        found_ends w,
        found_ends w',
        g.start,
        g.exit,
        find_node-contains w.start w'.nodes,
        find_node-contains w.exit w'.nodes,
        find_node-contains w.start w.nodes,
        find_node-contains w.exit w.nodes,
        g.ids,
      )
      refl

abbrev run_ensured : Options → Workflow × Option EnsureError → Outcome Report
run_ensured opts p = elim p.1 [ some bad ↦ err (bad_condition bad) | none ↦ run_parsed p.0 opts ]

run-valid :
    (w : Workflow) (opts : Options)
    → validate_sim_input w ≡ none
    → run w opts ≡ run_ensured opts (ensure_conditions_parsed w)
unfolding run
run-valid w opts valid = rw (valid, run) refl

-- A run of what an earlier run left is a run of the workflow.
run-after_run : (w : Workflow) (opts : Options) → run (after_run w) opts ≡ run w opts
unfolding after_run
run-after_run w opts = elim (Option-cases (validate_sim_input w)) [
  | inl e ↦
      let w' = (ensure_conditions_parsed w).0 in
      let same = validate_sim_input-SameGraph (ensure_conditions_parsed-SameGraph w) in
      rw (e, after_run)
        (run-valid w' opts (same ∙ e)
          ∙ ap (run_ensured opts) (ensure_conditions_parsed-twice w)
          ∙ sym (run-valid w opts e))
  | inr (bad, e) ↦ rw (e, after_run) refl
]

run_case-after_run :
    (w : Workflow) (id : Str) (tc : TestCase) → run_case (after_run w) id tc ≡ run_case w id tc
unfolding run_case
run_case-after_run w id tc = ap (case_result tc) (run-after_run w (case_options id tc))

unfoldable pub run_each : Workflow → List (Str × TestCase) → List CaseResult
run_each w [] = []
run_each w ((id, tc) ∷ rest) = run_case w id tc ∷ run_each w rest

results-count_case :
    (c : CaseResult) (sr : SuiteResult) → (count_case c sr).results ≡ sr.results ++ c ∷ []
results-count_case c sr = ground (arith, Bool-cases c.passed)

-- `w'` is what earlier cases left of `w`.
run_cases-run_each :
    (w w' : Workflow) (cases : List (Str × TestCase)) (sr : SuiteResult)
    → ((id : Str) (tc : TestCase) → run_case w' id tc ≡ run_case w id tc)
    → (run_cases w' cases sr).results ≡ sr.results ++ run_each w cases
unfolding run_cases run_each
run_cases-run_each w w' [] sr same = sym (append-nil sr.results)
run_cases-run_each w w' ((id, tc) ∷ rest) sr same =
    let c = run_case w' id tc in
    run_cases-run_each w (after_run w') rest (count_case c sr)
      (λ id tc. run_case-after_run w' id tc ∙ same id tc)
    ∙ ap (λ rs. rs ++ run_each w rest) (results-count_case c sr)
    ∙ append_assoc sr.results (c ∷ []) (run_each w rest)
    ∙ ap (λ d. sr.results ++ d ∷ run_each w rest) (same id tc)

-- The results of a suite are those of its cases in their order, each as a run of that case on the
-- workflow as it was before the suite: the conditions that one case parses do not change another.
pub run_suite-run_each :
    (w : Workflow) (cases : List (Str × TestCase)) → (run_suite w cases).results ≡ run_each w cases
unfolding run_suite
run_suite-run_each w cases =
    run_cases-run_each w w cases (new_suite_result (length cases)) (λ id tc. refl)

unfoldable pub passes : List CaseResult → ℕ
passes [] = 0
passes (c ∷ cs) = let rest = passes cs in if c.passed then rest + 1 else rest

-- The counts of a suite that has run agree with its results.
pub record IsTallied (sr : SuiteResult) : Type 0 where
  pub passed : sr.passed ≡ passes sr.results
  pub all : sr.passed + sr.failed ≡ length sr.results

passes-append : (xs ys : List CaseResult) → passes (xs ++ ys) ≡ passes xs + passes ys
unfolding passes
passes-append [] ys = omega arith
passes-append (x ∷ xs) ys = ground (arith, passes-append xs ys, Bool-cases x.passed)

count_case-IsTallied :
    (c : CaseResult) (sr : SuiteResult) → IsTallied sr → IsTallied (count_case c sr)
unfolding passes
count_case-IsTallied c sr h =
    let last = c ∷ [] in
    record {
      passed = ground (arith, passes-append sr.results last, Bool-cases c.passed, h.passed);
      all = ground (arith, length-append sr.results last, Bool-cases c.passed, h.all);
    }

run_cases-IsTallied :
    (w : Workflow) (cases : List (Str × TestCase)) (sr : SuiteResult)
    → IsTallied sr
    → IsTallied (run_cases w cases sr)
unfolding run_cases
run_cases-IsTallied w [] sr h = h
run_cases-IsTallied w ((id, tc) ∷ rest) sr h =
    run_cases-IsTallied (after_run w) rest _ (count_case-IsTallied (run_case w id tc) sr h)

length-run_each :
    (w : Workflow) (cases : List (Str × TestCase)) → length (run_each w cases) ≡ length cases
unfolding run_each
length-run_each w [] = refl
length-run_each w ((id, tc) ∷ rest) = ap suc (length-run_each w rest)

run_cases-total :
    (w : Workflow) (cases : List (Str × TestCase)) (sr : SuiteResult)
    → (run_cases w cases sr).total ≡ sr.total
unfolding run_cases
run_cases-total w [] sr = refl
run_cases-total w ((id, tc) ∷ rest) sr =
    let c = run_case w id tc in
    let same = run_cases-total (after_run w) rest (count_case c sr) in
    elim (Bool-cases c.passed) [ inl e ↦ same ∙ rw e refl | inr e ↦ same ∙ rw e refl ]

-- The summary of a suite adds up: `passed` is the number of its cases that pass when each is run
-- alone, and `passed` and `failed` together are `total`, the number of cases.
pub run_suite-adds_up :
    (w : Workflow) (cases : List (Str × TestCase))
    → ((run_suite w cases).passed ≡ passes (run_each w cases))
      × ((run_suite w cases).passed + (run_suite w cases).failed ≡ (run_suite w cases).total)
      × ((run_suite w cases).total ≡ length cases)
unfolding run_suite passes
run_suite-adds_up w cases =
    let none_yet = new_suite_result (length cases) in
    let tallied = run_cases-IsTallied w cases none_yet (record { passed = refl; all = refl }) in
    let results = run_suite-run_each w cases in
    let total = run_cases-total w cases none_yet in
    (
      tallied.passed ∙ ap passes results,
      tallied.all ∙ ap length results ∙ length-run_each w cases ∙ sym total,
      total,
    )
