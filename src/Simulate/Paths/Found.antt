-- ===== src/Simulate/Paths/Found.antt =====
-- RunAllPaths as a whole: it parses the conditions, twice, and searches the workflow that this leaves.
use dippin_lang.Base.{
  Str, ℕ, ◌<◌, ◌≤◌, List, [], ◌∷◌, ◌≡◌, ◌↔◌, inl, inr, refl, sym, ap, subst, ◌∙◌, arith, none,
  Option-cases, length, In, All, In-of_All, Distinct, Map,
}
use dippin_lang.Base.Fallible.{ok, err, ok-injective, err-ne-ok}
use dippin_lang.Ir.{Workflow}
use dippin_lang.Ir.Arc.{HasUniqueIds}
use dippin_lang.Condition.Ensure.{ensure_conditions_parsed}
use dippin_lang.Condition.Kept.{SameGraph, ensure_conditions_parsed-SameGraph}
use dippin_lang.Condition.Twice.{ensure_conditions_parsed-twice}
use dippin_lang.Simulate.State.{Report}
use dippin_lang.Simulate.Run.{validate_sim_input}
use dippin_lang.Simulate.Paths.{
  max_results, explore_all, no_paths, some_found, enumerate, run_all_paths,
}
use dippin_lang.Simulate.Paths.Trails.{Trail, exits, ends, goes, IsFullPath, IsFullReport}
use dippin_lang.Simulate.Paths.Routes.{explore_all-IsFullPath}
use dippin_lang.Simulate.Paths.Growth.{IsFound}
use dippin_lang.Simulate.Paths.Complete.{explore_all-IsFound}

SameGraph-sym : {w w' : Workflow} → SameGraph w w' → SameGraph w' w
SameGraph-sym g = record {
  start = sym g.start;
  exit = sym g.exit;
  ids = sym g.ids;
  arcs = λ u v. ((g.arcs u v).1, (g.arcs u v).0);
}

Trail-SameGraph :
    {w w' : Workflow} {u status : Str} {path : List Str}
    → SameGraph w w'
    → Trail w' u path status
    → Trail w u path status
Trail-SameGraph {u = u} g (exits known there) = exits (subst (In u) g.ids known) (there ∙ g.exit)
Trail-SameGraph {u = u} g (ends known other last) =
    ends (subst (In u) g.ids known) (λ e. other (e ∙ sym g.exit))
      (λ v arc. last v ((g.arcs u v).1 arc))
Trail-SameGraph {u = u} g (goes {v = v} known other arc t) =
    goes (subst (In u) g.ids known) (λ e. other (e ∙ sym g.exit)) ((g.arcs u v).0 arc)
      (Trail-SameGraph g t)

IsFullPath-SameGraph :
    {w w' : Workflow} {status : Str} {path : List Str}
    → SameGraph w w'
    → IsFullPath w' path status
    → IsFullPath w path status
IsFullPath-SameGraph {w} {status = status} {path = path} g f = record {
  trail = subst (λ u. Trail w u path status) g.start (Trail-SameGraph g f.trail);
  few = f.few;
  short = f.short;
}

All-map :
    {A : Type 0} (P Q : A → Type 0) → ((x : A) → P x → Q x) → (xs : List A) → All P xs → All Q xs
All-map P Q f [] h = tt
All-map P Q f (x ∷ xs) h = (f x h.0, All-map P Q f xs h.1)

abbrev parsed : Workflow → Workflow
parsed w = (ensure_conditions_parsed w).0

-- The results where the input is valid and the conditions parse.
run_all_paths-valid :
    (path_id : ℕ → Str) (w : Workflow) (scenario : Map Str)
    → validate_sim_input w ≡ none
    → (ensure_conditions_parsed w).1 ≡ none
    → run_all_paths path_id w scenario ≡ some_found (explore_all path_id (parsed w) scenario)
unfolding run_all_paths
run_all_paths-valid path_id w scenario valid e =
    rw (valid, e, run_all_paths)
      (ap (enumerate path_id scenario) (ensure_conditions_parsed-twice w) ∙ rw e refl)

some_found-ok : (xs rs : List Report) → some_found xs ≡ ok rs → (xs ≡ rs) × (1 ≤ length rs)
some_found-ok [] rs h = absurd (err-ne-ok h)
some_found-ok (x ∷ xs) rs h = let same = ok-injective h in (same, omega (arith, ap length same))

run_all_paths-ok :
    (path_id : ℕ → Str) (w : Workflow) (scenario : Map Str) (rs : List Report)
    → run_all_paths path_id w scenario ≡ ok rs
    → (explore_all path_id (parsed w) scenario ≡ rs) × (1 ≤ length rs)
unfolding run_all_paths
run_all_paths-ok path_id w scenario rs h = elim (Option-cases (validate_sim_input w)) [
  | inl valid ↦ elim (Option-cases (ensure_conditions_parsed w).1) [
    | inl e ↦ some_found-ok _ rs (sym (run_all_paths-valid path_id w scenario valid e) ∙ h)
    | inr (bad, e) ↦ absurd (err-ne-ok (rw (valid, e, run_all_paths) at h))
  ]
  | inr (bad, e) ↦ absurd (err-ne-ok (rw (e, run_all_paths) at h))
]

parsed-HasUniqueIds : (w : Workflow) → HasUniqueIds w → HasUniqueIds (parsed w)
parsed-HasUniqueIds w unique =
    subst Distinct (sym (ensure_conditions_parsed-SameGraph w).ids) unique

IsFullPath-parsed_iff :
    (w : Workflow) (path : List Str) (status : Str)
    → IsFullPath (parsed w) path status ↔ IsFullPath w path status
IsFullPath-parsed_iff w path status =
    let graph = ensure_conditions_parsed-SameGraph w in
    (IsFullPath-SameGraph graph, IsFullPath-SameGraph (SameGraph-sym graph))

-- If RunAllPaths succeeds on a workflow with unique IDs, it yields between 1 and 100 paths, and each is a
-- walk along arcs from the start over known nodes, none of them visited more than twice and the exit
-- only at the end, which goes 200 arcs at most; its status is success where it ends at the exit,
-- and dead_end where it ends at a node that no arc leaves.
pub run_all_paths-IsFullReport :
    (path_id : ℕ → Str) (w : Workflow) (scenario : Map Str) (rs : List Report)
    → HasUniqueIds w
    → run_all_paths path_id w scenario ≡ ok rs
    → (1 ≤ length rs) × (length rs ≤ max_results) × All (IsFullReport w) rs
run_all_paths-IsFullReport path_id w scenario rs unique h =
    let (same, some_path) = run_all_paths-ok path_id w scenario rs h in
    let (room, full) =
      explore_all-IsFullPath path_id (parsed w) (parsed-HasUniqueIds w unique) scenario in
    (
      some_path,
      subst (λ (xs : List Report). length xs ≤ max_results) same room,
      All-map (IsFullReport (parsed w)) (IsFullReport w)
          (λ r. (IsFullPath-parsed_iff w r.path r.status).0) rs
          (subst (All (IsFullReport (parsed w))) same full),
    )

-- If RunAllPaths succeeds on a workflow with unique IDs with fewer than 100 paths, it has found exactly
-- the full ones, each with its status.
pub run_all_paths_iff :
    (path_id : ℕ → Str) (w : Workflow) (scenario : Map Str) (rs : List Report)
    → HasUniqueIds w
    → run_all_paths path_id w scenario ≡ ok rs
    → length rs < max_results
    → (path : List Str) (status : Str) → IsFound path status rs ↔ IsFullPath w path status
run_all_paths_iff path_id w scenario rs unique h few path status =
    let (same, some_path) = run_all_paths-ok path_id w scenario rs h in
    let (one, room, full) = run_all_paths-IsFullReport path_id w scenario rs unique h in
    (
      λ f.
          let there = In-of_All (IsFullReport w) rs f.report full f.among in
          subst (IsFullPath w path) f.status_eq
            (subst (λ p. IsFullPath w p f.report.status) f.path_eq there),
      λ f. subst (IsFound path status) same (
          explore_all-IsFound path_id (parsed w) (parsed-HasUniqueIds w unique) scenario path status
            ((IsFullPath-parsed_iff w path status).1 f)
            (subst (λ (xs : List Report). length xs < max_results) (sym same) few)),
    )

none_full :
    (w : Workflow) (rs : List Report)
    → All (IsFullReport w) rs
    → ((path : List Str) (status : Str) → ¬ IsFullPath w path status)
    → rs ≡ []
none_full w [] h no_path = refl
none_full w (r ∷ rs) h no_path = absurd (no_path r.path r.status h.0)

some_found-no_paths : (xs : List Report) → some_found xs ≡ err no_paths → xs ≡ []
some_found-no_paths [] h = refl
some_found-no_paths (x ∷ xs) h = absurd (err-ne-ok (sym h))

-- On a workflow with unique IDs whose input is valid and whose conditions parse, RunAllPaths fails, with
-- "no execution paths found", exactly if there is no full path.
pub run_all_paths-no_paths :
    (path_id : ℕ → Str) (w : Workflow) (scenario : Map Str)
    → HasUniqueIds w
    → validate_sim_input w ≡ none
    → (ensure_conditions_parsed w).1 ≡ none
    → (run_all_paths path_id w scenario ≡ err no_paths)
      ↔ ((path : List Str) (status : Str) → ¬ IsFullPath w path status)
run_all_paths-no_paths path_id w scenario unique valid e =
    let result = run_all_paths-valid path_id w scenario valid e in
    let apart = parsed-HasUniqueIds w unique in
    (
      λ h path status f.
          let none_found = some_found-no_paths _ (sym result ∙ h) in
          let found =
            explore_all-IsFound path_id (parsed w) apart scenario path status
              ((IsFullPath-parsed_iff w path status).1 f)
              (subst (λ (xs : List Report). length xs < max_results) (sym none_found)
                (omega arith)) in
          subst (In found.report) none_found found.among,
      λ no_path.
          let full = (explore_all-IsFullPath path_id (parsed w) apart scenario).1 in
          result
          ∙ ap some_found (
              none_full (parsed w) (explore_all path_id (parsed w) scenario) full
                (λ path status f. no_path path status ((IsFullPath-parsed_iff w path status).0 f))),
    )
