-- ===== src/Simulate/Frame.antt =====
-- What applyNodeDefaults, the prompts and each emitted event leave alone in the simulator.
pub mod Choice
use mathlib.Core.List.{append-nil, append_assoc}
use dippin_lang.Base.{
  Str, ℕ, List, [], ◌∷◌, ◌++◌, ◌≡◌, refl, sym, ◌∙◌, inl, inr, Bool, true, false, Option, none, some,
  Map, if◌then◌else◌, Bool-cases, Option-cases, has_prefix, trim_prefix, bytes, length, ◌==◌,
  insert, delete,
}
use dippin_lang.Ir.{Workflow, Node, NodeConfig, agent, human, tool, Edge, HumanConfig}
use dippin_lang.Ir.Lookup.{edges_from}
use dippin_lang.Simulate.State.{
  Event, node_enter, context_update, Options, Sim, SimError, Outcome, ok, err, ◌>>=◌, emit,
  update_context, Reading,
}
use dippin_lang.Simulate.Visit.{
  override, apply_node_scenario, set_context_default_for_node, config_defaults, until_blank,
  first_line, apply_node_defaults, handle_interview_mode, handle_choice_freeform, interact,
}

abbrev entered_by : Event → List Str
entered_by (node_enter e) = e.node ∷ []
entered_by _ = []

-- The nodes of the node_enter events, in their order.
unfoldable pub entered : List Event → List Str
entered [] = []
entered (ev ∷ evs) = entered_by ev ++ entered evs

pub entered-append : (xs ys : List Event) → entered (xs ++ ys) ≡ entered xs ++ entered ys
unfolding entered
entered-append [] ys = refl
entered-append (x ∷ xs) ys =
    rw (entered-append xs ys) (sym (append_assoc (entered_by x) (entered xs) (entered ys)))

abbrev pub found : Sim → Outcome Sim
found s = ok s

abbrev failed : SimError → Outcome Sim
failed e = err e

pub record Same (s t : Sim) : Type 0 where
  pub path : t.path ≡ s.path
  pub visited : t.visited ≡ s.visited
  pub steps : t.steps ≡ s.steps
  pub entries : entered t.events ≡ entered s.events

pub Same-refl : (s : Sim) → Same s s
Same-refl s = record { path = refl; visited = refl; steps = refl; entries = refl }

pub Same-trans : {s t u : Sim} → Same s t → Same t u → Same s u
Same-trans h k = record {
  path = k.path ∙ h.path;
  visited = k.visited ∙ h.visited;
  steps = k.steps ∙ h.steps;
  entries = k.entries ∙ h.entries;
}

-- An event that enters no node.
pub Same-emit : (ev : Event) (s : Sim) → entered_by ev ≡ [] → Same s (emit ev s)
unfolding entered
Same-emit ev s h = record {
  path = refl;
  visited = refl;
  steps = refl;
  entries = entered-append s.events (ev ∷ []) ∙ rw h (append-nil (entered s.events));
}

pub ok-Same : {s t u : Sim} → found t ≡ found u → Same s t → Same s u
ok-Same {s} {t} {u} h k = let same : t ≡ u = cc in rw (← same) k

err-ne-ok : {e : SimError} {t : Sim} → failed e ≡ found t → ⊥
err-ne-ok h = cc

pub Same-ctx : (s : Sim) (ctx : Map Str) → Same s (record s { ctx = ctx })
Same-ctx s ctx = record { path = refl; visited = refl; steps = refl; entries = refl }

Same-update_context : (k v : Str) (s : Sim) → Same s (update_context k v s)
unfolding update_context
Same-update_context k v s =
    let s' = record s { ctx = insert k v s.ctx } in
    Same-trans (Same-ctx s (insert k v s.ctx)) (Same-emit (context_update k v) s' refl)

Same-if : (b : Bool) (s t u : Sim) → Same s t → Same s u → Same s (if b then t else u)
Same-if true s t u h k = h
Same-if false s t u h k = k

Same-override : (k v : Str) (s : Sim) → Same s (override k v s)
Same-override k [] s = Same-ctx s (delete k s.ctx)
Same-override k (c ∷ v) s = Same-update_context k (c ∷ v) s

Same-apply_node_scenario :
    (id : Str) (scenario : Map Str) (s : Sim) → Same s (apply_node_scenario id scenario s)
unfolding apply_node_scenario
Same-apply_node_scenario id [] s = Same-refl s
Same-apply_node_scenario id ((k, v) ∷ rest) s =
    let prefix = id ++ bytes "." in
    let s' = if has_prefix k prefix then override (trim_prefix k prefix) v s else s in
    Same-trans
      (Same-if (has_prefix k prefix) s _ s (Same-override (trim_prefix k prefix) v s) (Same-refl s))
      (Same-apply_node_scenario id rest s')

Same-default :
    (opts : Options) (k v id : Str) (s : Sim) → Same s (set_context_default_for_node opts k v id s)
unfolding set_context_default_for_node
Same-default opts k v id s = Same-if _ s s _ (Same-refl s) (Same-update_context k v s)

Same-config_defaults :
    (opts : Options) (id : Str) (cfg : NodeConfig) (s : Sim)
    → Same s (config_defaults opts id cfg s)
Same-config_defaults opts id (agent cfg) s =
    Same-if cfg.auto_status s _ s (Same-default opts _ _ id s) (Same-refl s)
Same-config_defaults opts id (tool cfg) s =
    Same-trans (Same-default opts _ _ id s) (Same-default opts _ _ id _)
Same-config_defaults opts id _ s = Same-refl s

pub Same-apply_node_defaults :
    (opts : Options) (n : Node) (s : Sim) → Same s (apply_node_defaults opts n s)
unfolding apply_node_defaults
Same-apply_node_defaults opts n s =
    Same-trans (Same-apply_node_scenario n.id opts.scenario s)
      (Same-config_defaults opts n.id n.config (apply_node_scenario n.id opts.scenario s))

-- A prompt that does not fail updates the context alone.
Same-interview :
    (n : Node) (cfg : HumanConfig) (r : Reading) (s t : Sim)
    → handle_interview_mode n cfg r s ≡ ok t
    → Same s t
unfolding handle_interview_mode
Same-interview n cfg r s t h = elim (Option-cases r.error) [
  | inl e ↦
      ok-Same (rw (e, handle_interview_mode) at h)
        (Same-trans (Same-update_context _ _ s) (Same-update_context _ _ _))
  | inr (x, e) ↦ absurd (err-ne-ok (rw (e, handle_interview_mode) at h))
]

Same-choice :
    (n : Node) (cfg : HumanConfig) (r : Reading) (s t : Sim)
    → handle_choice_freeform n cfg r s ≡ ok t
    → Same s t
unfolding handle_choice_freeform
Same-choice n cfg r s t h = first (first_line cfg n.id r.lines r.error) h
  where
    first :
        (o : Outcome Str)
        → (o >>= λ x. ok (update_context (bytes "human_response") x s)) ≡ ok t
        → Same s t
    first (ok x) e = ok-Same e (Same-update_context _ _ s)
    first (err x) e = absurd (err-ne-ok e)

pub Same-interact :
    (console : Option (ℕ → Reading)) (n : Node) (cfg : NodeConfig) (s t : Sim)
    → interact console n cfg s ≡ ok t
    → Same s t
Same-interact (some console) n (human cfg) s t h =
    elim (Bool-cases (cfg.mode == bytes "interview")) [
      | inl e ↦ Same-interview n cfg (console (length s.events)) s t (rw e at h)
      | inr e ↦ Same-choice n cfg (console (length s.events)) s t (rw e at h)
    ]
Same-interact (some console) n _ s t h = ok-Same h (Same-refl s)
Same-interact none n _ s t h = ok-Same h (Same-refl s)
