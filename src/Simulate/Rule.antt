-- ===== src/Simulate/Rule.antt =====
-- The effect of visitNode on the path, the visited set, the steps and the events.
use dippin_lang.Base.{Str, [], ◌∷◌, ◌++◌, ◌≡◌, refl, ◌∙◌, ap, add}
use dippin_lang.Ir.{Workflow, Node, NodeConfig, parallel, fan_in}
use dippin_lang.Simulate.State.{
  node_enter, node_exit, parallel_start, parallel_end, Options, Sim, Outcome, ok, err, ◌>>=◌, emit,
  status_success,
}
use dippin_lang.Simulate.Visit.{
  build_node_enter_event, populate_enter_fields, basic_enter, leave, mark_visit, enter_and_leave,
  visit_node, apply_node_defaults, handle_human_interaction,
}
use dippin_lang.Simulate.Frame.{
  found, entered, entered-append, Same, Same-trans, Same-emit, Same-apply_node_defaults,
  Same-interact,
}

pub >>=-eq_ok {ℓ κ} :
    {S : Type ℓ} {T : Type κ} (o : Outcome S) (next : S → Outcome T) {t : T}
    → (o >>= next) ≡ ok t
    → (s : S) × (o ≡ ok s) × (next s ≡ ok t)
>>=-eq_ok (ok s) next h = (s, refl, h)
>>=-eq_ok (err failure) next h = cc

-- The effect of a visit on what the frame lemmas follow.
pub record Visited (n : Node) (s t : Sim) : Type 0 where
  pub path : t.path ≡ s.path ++ n.id ∷ []
  pub visited : t.visited ≡ add n.id s.visited
  pub steps : t.steps ≡ s.steps
  pub entries : entered t.events ≡ entered s.events ++ n.id ∷ []

node-build_node_enter_event : (n : Node) (w : Workflow) → (build_node_enter_event n w).node ≡ n.id
unfolding build_node_enter_event populate_enter_fields
node-build_node_enter_event n w = go n.config
  where
    go : (cfg : NodeConfig) → (populate_enter_fields (basic_enter n) w.defaults cfg).node ≡ n.id
    go (parallel cfg) = refl
    go _ = refl

-- The state after the enter event of a node that has been marked.
abbrev entering : Workflow → Node → Sim → Sim
entering w n s = emit (node_enter (build_node_enter_event n w)) (mark_visit n s)

Visited-entering : (w : Workflow) (n : Node) (s : Sim) → Visited n s (entering w n s)
unfolding mark_visit entered
Visited-entering w n s = record {
  path = refl;
  visited = refl;
  steps = refl;
  entries =
      entered-append s.events (node_enter (build_node_enter_event n w) ∷ [])
      ∙ ap (λ (x : Str). entered s.events ++ x ∷ []) (node-build_node_enter_event n w);
}

Visited-Same : {n : Node} {s t u : Sim} → Visited n s t → Same t u → Visited n s u
Visited-Same v h = record {
  path = h.path ∙ v.path;
  visited = h.visited ∙ v.visited;
  steps = h.steps ∙ v.steps;
  entries = h.entries ∙ v.entries;
}

ok-Visited : {n : Node} {s t u : Sim} → found t ≡ found u → Visited n s t → Visited n s u
ok-Visited {t} {u} e v = let same : t ≡ u = cc in rw (← same) v

Same-leave : (n : Node) (s : Sim) → Same s (leave n s)
Same-leave n s = Same-emit (node_exit n.id status_success) s refl

enter_and_leave-Visited :
    (w : Workflow) (opts : Options) (n : Node) (cfg : NodeConfig) (s t : Sim)
    → enter_and_leave w opts n cfg (mark_visit n s) ≡ ok t
    → Visited n s t
unfolding enter_and_leave handle_human_interaction
enter_and_leave-Visited w opts n (parallel cfg) s t h =
    let entry = entering w n s in
    let fan = Same-emit (parallel_start n.id cfg.targets) entry refl in
    ok-Visited h (Visited-Same (Visited-entering w n s) (Same-trans fan (Same-leave n _)))
enter_and_leave-Visited w opts n (fan_in cfg) s t h =
    let entry = entering w n s in
    let fan = Same-emit (parallel_end n.id cfg.sources) entry refl in
    ok-Visited h (Visited-Same (Visited-entering w n s) (Same-trans fan (Same-leave n _)))
enter_and_leave-Visited w opts n _ s t h =
    let entry = entering w n s in
    let ready = apply_node_defaults opts n entry in
    let (met, asked, left) =
      >>=-eq_ok (handle_human_interaction opts n ready) (λ x. ok (leave n x)) h in
    let kept =
      Same-trans (Same-apply_node_defaults opts n entry)
        (Same-interact opts.console n n.config ready met asked) in
    ok-Visited left (Visited-Same (Visited-entering w n s) (Same-trans kept (Same-leave n met)))

pub visit_node-Visited :
    (w : Workflow) (opts : Options) (n : Node) (s t : Sim)
    → visit_node w opts n s ≡ ok t
    → Visited n s t
unfolding visit_node
visit_node-Visited w opts n s t h = enter_and_leave-Visited w opts n n.config s t h
