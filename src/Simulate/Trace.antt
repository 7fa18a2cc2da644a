-- ===== src/Simulate/Trace.antt =====
-- What a report of a finished run says: its path, its visited count, its status and its events.
use mathlib.Core.List.{append-nil}
use dippin_lang.Base.{
  Str, List, [], ◌∷◌, ◌++◌, ◌≡◌, ◌↔◌, refl, sym, ◌∙◌, ap, ◌⊎◌, inl, inr, arith, In, In-append, All,
  Distinct, add, contains_iff, length, All-of_In, Option-cases,
}
use dippin_lang.Ir.{Workflow, Node}
use dippin_lang.Simulate.State.{
  pipeline_end, Options, Sim, Report, ok, status_success, status_dead_end,
}
use dippin_lang.Simulate.Run.{
  select_branches, resolve_targets, finish_run, initial, run_parsed, run, validate_sim_input,
}
use dippin_lang.Condition.Ensure.{ensure_conditions_parsed}
use dippin_lang.Condition.Kept.{ensure_conditions_parsed-SameGraph}
use dippin_lang.Simulate.Frame.{entered, entered-append, Same}
use dippin_lang.Simulate.Rule.{Visited}
use dippin_lang.Simulate.Keeps.{Keeps, path-Ended, Ended, run_parsed_rule}

In-add : (a b : Str) (xs : List Str) → In a (add b xs) ↔ ((a ≡ b) ⊎ In a xs)
unfolding add
In-add a b xs = ground (arith, contains_iff xs b)

Distinct-add : (b : Str) (xs : List Str) → Distinct xs → Distinct (add b xs)
unfolding add
Distinct-add b xs d = ground (arith, contains_iff xs b)

-- The path, the visited set and the enter events tell of the same nodes.
record Agrees (s : Sim) : Type 0 where
  distinct : Distinct s.visited
  same_nodes : (x : Str) → In x s.visited ↔ In x s.path
  entries : entered s.events ≡ s.path

Any : Str → Type 0
Any id = Unit

All-Any : (xs : List Str) → All Any xs
unfolding Any
All-Any xs = All-of_In Any xs (λ x m. tt)

Agrees-Same : (s t : Sim) → Same s t → Agrees s → Agrees t
Agrees-Same s t h a = record {
  distinct = rw h.visited a.distinct;
  same_nodes = λ x. rw h.visited (rw h.path (a.same_nodes x));
  entries = h.entries ∙ a.entries ∙ sym h.path;
}

Agrees-Visited : (n : Node) (s t : Sim) → Visited n s t → Agrees s → Agrees t
Agrees-Visited n s t v a = record {
  distinct = rw v.visited (Distinct-add n.id s.visited a.distinct);
  same_nodes = λ x. rw v.visited (
      rw v.path
        (ground (arith, In-add x n.id s.visited, In-append x s.path (n.id ∷ []), a.same_nodes x)));
  entries = v.entries ∙ ap (λ (xs : List Str). xs ++ n.id ∷ []) a.entries ∙ sym v.path;
}

Agrees-Keeps : (w : Workflow) (opts : Options) → Keeps w opts Agrees Any
unfolding Any
Agrees-Keeps w opts = record {
  same = Agrees-Same;
  counts = λ s a. record { distinct = a.distinct; same_nodes = a.same_nodes; entries = a.entries };
  visits = λ n s t q v a. Agrees-Visited n s t v a;
  moves = λ id n s at q h. tt;
  fans = λ id n cfg at e q. All-Any (select_branches opts (resolve_targets cfg));
  joined = λ id n cfg at e q h. tt;
}

Agrees-initial : (w : Workflow) (opts : Options) → Agrees (initial w opts)
unfolding initial entered
Agrees-initial w opts = record {
  distinct = tt;
  same_nodes = λ x. ((λ h. h), λ h. h);
  entries = refl;
}

-- A run that ends ran the workflow with its conditions parsed.
pub run-eq_ok :
    (w : Workflow) (opts : Options) (r : Report)
    → run w opts ≡ ok r
    → run_parsed (ensure_conditions_parsed w).0 opts ≡ ok r
unfolding run
run-eq_ok w opts r h =
    ground (arith, Option-cases (validate_sim_input w), Option-cases (ensure_conditions_parsed w).1)

run-Ended :
    (w : Workflow) (opts : Options) (r : Report)
    → run w opts ≡ ok r
    → Ended (ensure_conditions_parsed w).0 Agrees r
run-Ended w opts r h =
    let w' = (ensure_conditions_parsed w).0 in
    run_parsed_rule w' opts Agrees Any (Agrees-Keeps w' opts) r (unfold Any in tt)
      (Agrees-initial w' opts) (run-eq_ok w opts r h)

entered-Ended : {w : Workflow} (r : Report) (e : Ended w Agrees r) → entered r.events ≡ e.final.path
unfolding finish_run entered
entered-Ended r e =
    let s = e.final in
    ap (λ (x : Report). entered x.events) e.report
    ∙ entered-append s.events (pipeline_end r.status (length s.visited) ∷ [])
    ∙ append-nil (entered s.events)
    ∙ e.keeps.entries

nodes_visited-Ended :
    {w : Workflow} (r : Report) (e : Ended w Agrees r) → r.nodes_visited ≡ length e.final.visited
unfolding finish_run
nodes_visited-Ended r e = ap (λ (x : Report). x.nodes_visited) e.report

-- If a run ends with a report, the report has one node_enter event for each entry of its path, in
-- the same order, and its count of visited nodes is that of the distinct nodes of the path: a list
-- that holds the nodes of the path, each once, has that length.
pub run_trace :
    (w : Workflow) (opts : Options) (r : Report)
    → run w opts ≡ ok r
    → (entered r.events ≡ r.path)
      × ((nodes : List Str) × Distinct nodes
          × ((x : Str) → In x nodes ↔ In x r.path)
          × (r.nodes_visited ≡ length nodes))
run_trace w opts r h =
    let e = run-Ended w opts r h in
    let path = path-Ended r e in
    (
      entered-Ended r e ∙ sym path,
      (
        e.final.visited,
        e.keeps.distinct,
        λ x. rw path (e.keeps.same_nodes x),
        nodes_visited-Ended r e,
      ),
    )

-- If a run ends with a report, its status is "success", and then the last node of its path is the
-- exit node, or its status is "dead_end".
pub run_status :
    (w : Workflow) (opts : Options) (r : Report)
    → run w opts ≡ ok r
    → ((r.status ≡ status_success) × (before : List Str) × (r.path ≡ before ++ w.exit ∷ []))
      ⊎ (r.status ≡ status_dead_end)
run_status w opts r h =
    let e = run-Ended w opts r h in
    elim e.status [
      | inl (success, before, last) ↦
          let exit = (ensure_conditions_parsed-SameGraph w).exit in
          inl (success, before, path-Ended r e ∙ last ∙ ap (λ (x : Str). before ++ x ∷ []) exit)
      | inr dead_end ↦ inr dead_end
    ]
