-- ===== src/Simulate/Keeps.antt =====
-- An induction rule for runs: what each visit and each choice of a next node keeps, a run keeps.
use dippin_lang.Base.{
  Str, ℕ, zero, suc, List, [], ◌∷◌, ◌++◌, ◌≡◌, refl, sym, ◌∙◌, ap, subst, ◌⊎◌, inl, inr, false,
  some, arith, Bool-cases, Option-cases, ==-cases, ◌==◌, ==_iff, ltb, All,
}
use dippin_lang.Ir.{Workflow, Node, NodeConfig, parallel, ParallelConfig}
use dippin_lang.Ir.Lookup.{node, find_node}
use dippin_lang.Simulate.State.{
  Options, Sim, Report, SimError, ok, err, status_success, status_dead_end, max_steps,
}
use dippin_lang.Simulate.Visit.{visit_node}
use dippin_lang.Simulate.Resolve.{resolve_next}
use dippin_lang.Simulate.Run.{
  is_empty, resolve_targets, select_branches, find_join_node, count_step, branch_node, main_node,
  walk_branch_step, branch_loop, walk_branch_to_join, walk_branches, Next, goto, finished,
  finish_run, goto_or_dead_end, walk_parallel_branches, advance_by, advance_to_next, step_node,
  run_loop, run_parsed, initial,
}
use dippin_lang.Simulate.Frame.Choice.{Same-resolve_next}
use dippin_lang.Simulate.Frame.{Same}
use dippin_lang.Simulate.Rule.{>>=-eq_ok, Visited, visit_node-Visited}

-- The node that the lookup finds has the ID that was asked for.
pub id-node : (w : Workflow) (id : Str) (n : Node) → node w id ≡ some n → n.id ≡ id
unfolding node find_node
id-node w id n h = go w.nodes h
  where
    go : (ns : List Node) → find_node id ns ≡ some n → n.id ≡ id
    go [] e = cc
    go (m ∷ ns) e = ground (arith, ==_iff m.id id, go ns)

-- A run keeps `P` of its state, and `Q` of each node ID at which it goes on.
pub record Keeps (w : Workflow) (opts : Options) (P : Sim → Type 0) (Q : Str → Type 0)
    : Type 0 where
  pub same : (s t : Sim) → Same s t → P s → P t
  pub counts : (s : Sim) → P s → P (count_step s)
  pub visits : (n : Node) (s t : Sim) → Q n.id → Visited n s t → P s → P t
  pub moves :
      (id : Str) (n : Node) (s : Sim)
      → node w id ≡ some n
      → Q id
      → is_empty (resolve_next w opts n s).0 ≡ false
      → Q (resolve_next w opts n s).0
  pub fans :
      (id : Str) (n : Node) (cfg : ParallelConfig)
      → node w id ≡ some n
      → n.config ≡ parallel cfg
      → Q id
      → All Q (select_branches opts (resolve_targets cfg))
  pub joined :
      (id : Str) (n : Node) (cfg : ParallelConfig)
      → node w id ≡ some n
      → n.config ≡ parallel cfg
      → Q id
      → is_empty (find_join_node w.nodes (resolve_targets cfg)) ≡ false
      → Q (find_join_node w.nodes (resolve_targets cfg))

-- A report, and the state that it was made of: at the exit node after success.
pub record Ended (w : Workflow) (P : Sim → Type 0) (r : Report) : Type 0 where
  pub final : Sim
  pub keeps : P final
  pub report : r ≡ finish_run r.status final
  pub status :
      ((r.status ≡ status_success) × (before : List Str) × (final.path ≡ before ++ w.exit ∷ []))
      ⊎ (r.status ≡ status_dead_end)

ok-injective : {A : Type 0} {a b : A} → ok a ≡ ok b → a ≡ b
ok-injective h = cc

err-ne-ok : {A : Type 0} {e : SimError} {a : A} → err e ≡ ok a → ⊥
err-ne-ok h = cc

pub path-Ended :
    {w : Workflow} {P : Sim → Type 0} (r : Report) (e : Ended w P r) → r.path ≡ e.final.path
unfolding finish_run
path-Ended r e = ap (λ (x : Report). x.path) e.report

success_Ended :
    {w : Workflow} {P : Sim → Type 0} (t : Sim) (before : List Str)
    → P t
    → t.path ≡ before ++ w.exit ∷ []
    → Ended w P (finish_run status_success t)
unfolding finish_run
success_Ended t before p e = record {
  final = t;
  keeps = p;
  report = refl;
  status = inl (refl, before, e);
}

module _ (w : Workflow) (opts : Options) (P : Sim → Type 0) (Q : Str → Type 0)
    (k : Keeps w opts P Q) where
  abbrev pub After : Next → Type 0
  After (goto next s) = Q next × P s
  After (finished r) = Ended w P r

  branch_node-eq_ok : (id : Str) (n : Node) → branch_node id (node w id) ≡ ok n → node w id ≡ some n
  branch_node-eq_ok id n h = ground (arith, Option-cases (node w id))

  visited_keeps :
      (id : Str) (n : Node) (s t : Sim)
      → node w id ≡ some n
      → Q id
      → P s
      → visit_node w opts n s ≡ ok t
      → P t
  visited_keeps id n s t at q p h =
      k.visits n s t (subst Q (sym (id-node w id n at)) q) (visit_node-Visited w opts n s t h) p

  walk_branch_step_rule :
      (current : Str) (s : Sim) (r : Str × Sim)
      → Q current
      → P s
      → walk_branch_step w opts current s ≡ ok r
      → P r.1 × (is_empty r.0 ≡ false → Q r.0)
  unfolding walk_branch_step
  walk_branch_step_rule current s r q p h =
      let (n, found_n, rest) = >>=-eq_ok (branch_node current (node w current)) _ h in
      let (t, visited, ends) = >>=-eq_ok (visit_node w opts n s) _ rest in
      let at = branch_node-eq_ok current n found_n in
      let kept = visited_keeps current n s t at q p visited in
      let same : resolve_next w opts n (count_step t) ≡ r = cc in
      subst (λ x. P x.1 × (is_empty x.0 ≡ false → Q x.0)) same
        (
          k.same (count_step t) _ (Same-resolve_next w opts n (count_step t)) (k.counts t kept),
          k.moves current n (count_step t) at q,
        )

  branch_loop_rule :
      (fuel : ℕ) (join current : Str) (s t : Sim)
      → Q current
      → P s
      → branch_loop fuel w opts join current s ≡ ok t
      → P t
  unfolding branch_loop
  branch_loop_rule zero join current s t q p h = cc
  branch_loop_rule (suc fuel) join current s t q p h = elim (Bool-cases (ltb s.steps max_steps)) [
    | inr over ↦ absurd (err-ne-ok (rw (over, branch_loop) at h))
    | inl more ↦ elim (Bool-cases (current == join)) [
      | inl there ↦ subst P (ok-injective (rw (more, there, branch_loop) at h)) p
      | inr away ↦
          let ((next, s'), stepped, rest) =
            >>=-eq_ok (walk_branch_step w opts current s) _ (rw (more, away, branch_loop) at h) in
          let (p', q') = walk_branch_step_rule current s (next, s') q p stepped in
          elim (Bool-cases (is_empty next)) [
            | inl stop ↦ subst P (ok-injective (rw stop at rest)) p'
            | inr on ↦ branch_loop_rule fuel join next s' t (q' on) p' (rw on at rest)
          ]
    ]
  ]

  walk_branches_rule :
      (ts : List Str) (join : Str) (s t : Sim)
      → All Q ts
      → P s
      → walk_branches w opts ts join s ≡ ok t
      → P t
  unfolding walk_branches walk_branch_to_join
  walk_branches_rule [] join s t q p h = subst P (ok-injective h) p
  walk_branches_rule (x ∷ ts) join s t q p h =
      let (s', walked, rest) = >>=-eq_ok (walk_branch_to_join w opts x join s) _ h in
      walk_branches_rule ts join s' t q.1 (branch_loop_rule _ join x s s' q.0 p walked) rest

  -- Where a step leads: to a node of `Q`, or to a dead end.
  After-goto_or_dead_end :
      (next : Str) (s : Sim)
      → P s
      → (is_empty next ≡ false → Q next)
      → After (goto_or_dead_end next s)
  unfolding finish_run
  After-goto_or_dead_end [] s p q = record {
    final = s;
    keeps = p;
    report = refl;
    status = inr refl;
  }
  After-goto_or_dead_end (c ∷ next) s p q = (q refl, p)

  advance_rule :
      (id : Str) (n : Node) (cfg : NodeConfig) (s : Sim) (r : Next)
      → node w id ≡ some n
      → n.config ≡ cfg
      → Q id
      → P s
      → advance_by w opts n cfg s ≡ ok r
      → After r
  unfolding walk_parallel_branches
  advance_rule id n (parallel cfg) s r at e q p h =
      let targets = resolve_targets cfg in
      let join = find_join_node w.nodes targets in
      let (t, walked, ends) =
        >>=-eq_ok (walk_branches w opts (select_branches opts targets) join s) _ h in
      let p' =
        walk_branches_rule (select_branches opts targets) join s t (k.fans id n cfg at e q) p
          walked in
      subst After (ok-injective ends) (After-goto_or_dead_end join t p' (k.joined id n cfg at e q))
  advance_rule id n cfg s r at e q p h = subst After (ok-injective h) (
      After-goto_or_dead_end _ _ (k.same s _ (Same-resolve_next w opts n s) p)
        (k.moves id n s at q))

  main_node-eq_ok : (id : Str) (n : Node) → main_node id (node w id) ≡ ok n → node w id ≡ some n
  main_node-eq_ok id n h = ground (arith, Option-cases (node w id))

  pub step_rule :
      (current : Str) (s : Sim) (r : Next)
      → Q current
      → P s
      → step_node w opts current s ≡ ok r
      → After r
  unfolding step_node advance_to_next
  step_rule current s r q p h =
      let (n, looked, rest) = >>=-eq_ok (main_node current (node w current)) _ h in
      let (t, visited, ends) = >>=-eq_ok (visit_node w opts n s) _ rest in
      let at = main_node-eq_ok current n looked in
      let p' = visited_keeps current n s t at q p visited in
      elim (==-cases current w.exit) [
        | inl (e, test) ↦
            let last : n.id ≡ w.exit = id-node w current n at ∙ e in
            let path =
              (visit_node-Visited w opts n s t visited).path
              ∙ ap (λ (x : Str). s.path ++ x ∷ []) last in
            subst After (ok-injective (rw test at ends)) (success_Ended t s.path p' path)
        | inr (e, test) ↦ advance_rule current n n.config t r at refl q p' (rw test at ends)
      ]

  resume :
      (fuel : ℕ) (r : Report) (next : Next)
      → ((id : Str) (t : Sim) → Q id → P t → run_loop fuel w opts id t ≡ ok r → Ended w P r)
      → After next
      → (elim next [ goto id t ↦ run_loop fuel w opts id (count_step t) | finished x ↦ ok x ])
        ≡ ok r
      → Ended w P r
  resume fuel r (goto id t) again (q, p) e = again id (count_step t) q (k.counts t p) e
  resume fuel r (finished x) again ended e = subst (Ended w P) (ok-injective e) ended

  run_loop_rule :
      (fuel : ℕ) (current : Str) (s : Sim) (r : Report)
      → Q current
      → P s
      → run_loop fuel w opts current s ≡ ok r
      → Ended w P r
  unfolding run_loop
  run_loop_rule zero current s r q p h = absurd (err-ne-ok h)
  run_loop_rule (suc fuel) current s r q p h = elim (Bool-cases (ltb s.steps max_steps)) [
    | inr over ↦ absurd (err-ne-ok (rw (over, run_loop) at h))
    | inl more ↦
        let (next, stepped, rest) =
          >>=-eq_ok (step_node w opts current s) _ (rw (more, run_loop) at h) in
        resume fuel r next (λ id t q' p' e. run_loop_rule fuel id t r q' p' e)
          (step_rule current s next q p stepped) rest
  ]

  -- The rule: the start state has `P`, and the start node `Q`.
  pub run_parsed_rule :
      (r : Report) → Q w.start → P (initial w opts) → run_parsed w opts ≡ ok r → Ended w P r
  unfolding run_parsed
  run_parsed_rule r q p h = run_loop_rule (suc max_steps) w.start (initial w opts) r q p h
