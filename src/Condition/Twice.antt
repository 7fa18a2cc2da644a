-- ===== src/Condition/Twice.antt =====
-- EnsureConditionsParsed on what it left: the second call against the first.
use dippin_lang.Base.{
  Str, List, [], ◌∷◌, ◌≡◌, ◌⊎◌, inl, inr, refl, sym, ◌∙◌, ap, arith, Option, none, some,
  Option-cases, Bool-cases, bytes,
}
use dippin_lang.Ir.{
  Workflow, Node, Edge, Condition, ConditionExpr, NodeConfig, manager_loop, ManagerLoopConfig,
}
use dippin_lang.Condition.Parse.{ParseError, Result, ok, err, parse_condition, is_end}
use dippin_lang.Condition.Ensure.{
  EnsureError, settle, parse_raw, ensure_condition, ensure_optional, raw_of,
  ensure_edge_condition_parsed, node_error, ensure_steer, ensure_config,
  ensure_node_conditions_parsed, ensure_all, ensure_conditions_parsed,
}

-- The three cases of a condition.
ensure_condition-cases :
    (c : Condition)
    → (ensure_condition c ≡ (c, none)) ⊎ (ensure_condition c ≡ settle c (parse_condition c.raw))
unfolding ensure_condition
ensure_condition-cases c = ground (arith, Option-cases c.parsed, Bool-cases (is_end c.raw))

settle-twice :
    (c : Condition) (r : Result ConditionExpr)
    → ensure_condition c ≡ settle c r
    → ensure_condition (settle c r).0 ≡ settle c r
unfolding ensure_condition
settle-twice c (ok e) h = refl
settle-twice c (err x) h = h

ensure_condition-twice :
    (c : Condition) → ensure_condition (ensure_condition c).0 ≡ ensure_condition c
ensure_condition-twice c = elim (ensure_condition-cases c) [
  | inl same ↦ rw same same
  | inr settled ↦ rw settled (settle-twice c (parse_condition c.raw) settled)
]

ensure_condition-raw : (c : Condition) → (ensure_condition c).0.raw ≡ c.raw
unfolding ensure_condition
ensure_condition-raw c = go (parse_condition c.raw) refl
  where
    go :
        (r : Result ConditionExpr)
        → parse_condition c.raw ≡ r
        → (parse_raw c c.parsed).0.raw ≡ c.raw
    go (ok e) p = ground (arith, p, Option-cases c.parsed, Bool-cases (is_end c.raw))
    go (err x) p = ground (arith, p, Option-cases c.parsed, Bool-cases (is_end c.raw))

ensure_optional-twice :
    (o : Option Condition) → ensure_optional (ensure_optional o).0 ≡ ensure_optional o
ensure_optional-twice none = refl
ensure_optional-twice (some c) =
    ap (λ (p : Condition × Option ParseError). (some p.0, p.1)) (ensure_condition-twice c)

ensure_optional-raw : (o : Option Condition) → raw_of (ensure_optional o).0 ≡ raw_of o
ensure_optional-raw none = refl
ensure_optional-raw (some c) = ensure_condition-raw c

ensure_edge-twice :
    (e : Edge)
    → ensure_edge_condition_parsed (ensure_edge_condition_parsed e).0
      ≡ ensure_edge_condition_parsed e
unfolding ensure_edge_condition_parsed
ensure_edge-twice e = rw (ensure_optional-twice e.condition, ensure_optional-raw e.condition) refl

-- The stop condition has been read before: `s` is what was left of it.
steer-twice :
    (n : Node) (cfg : ManagerLoopConfig) (s : Option Condition) (raw : Str) (x : Option ParseError)
    → ensure_optional s ≡ (s, x)
    → raw_of s ≡ raw
    → ensure_config
        (ensure_steer n
          (record cfg { stop_condition = s })
          (node_error n.id (bytes "stop_condition") raw x)).0
        (ensure_steer n
          (record cfg { stop_condition = s })
          (node_error n.id (bytes "stop_condition") raw x)).0.config
      ≡ ensure_steer n
          (record cfg { stop_condition = s })
          (node_error n.id (bytes "stop_condition") raw x)
steer-twice n cfg s raw (some e) h r = rw (h, r) refl
steer-twice n cfg s raw none h r =
    rw (h, ensure_optional-twice cfg.steer_condition, ensure_optional-raw cfg.steer_condition) refl

config-twice :
    (n : Node) (cfg : NodeConfig)
    → n.config ≡ cfg
    → ensure_config (ensure_config n cfg).0 (ensure_config n cfg).0.config ≡ ensure_config n cfg
config-twice n (manager_loop cfg) h =
    let stop = cfg.stop_condition in
    steer-twice n cfg (ensure_optional stop).0 (raw_of stop) (ensure_optional stop).1
      (ensure_optional-twice stop) (ensure_optional-raw stop)
config-twice n _ h = ap (ensure_config n) h

ensure_node-twice :
    (n : Node)
    → ensure_node_conditions_parsed (ensure_node_conditions_parsed n).0
      ≡ ensure_node_conditions_parsed n
unfolding ensure_node_conditions_parsed
ensure_node-twice n = config-twice n n.config refl

ensure_all-ok :
    {A : Type 0} (f : A → A × Option EnsureError) (x : A) (xs : List A)
    → (f x).1 ≡ none
    → ensure_all f (x ∷ xs) ≡ ((f x).0 ∷ (ensure_all f xs).0, (ensure_all f xs).1)
unfolding ensure_all
ensure_all-ok f x xs e = rw (e, ensure_all) refl

ensure_all-bad :
    {A : Type 0} (f : A → A × Option EnsureError) (x : A) (xs : List A) {bad : EnsureError}
    → (f x).1 ≡ some bad
    → ensure_all f (x ∷ xs) ≡ ((f x).0 ∷ xs, some bad)
unfolding ensure_all
ensure_all-bad f x xs e = rw (e, ensure_all) refl

ensure_all-twice :
    {A : Type 0} (f : A → A × Option EnsureError)
    → ((x : A) → f (f x).0 ≡ f x)
    → (xs : List A) → ensure_all f (ensure_all f xs).0 ≡ ensure_all f xs
unfolding ensure_all
ensure_all-twice f twice [] = refl
ensure_all-twice f twice (x ∷ xs) = elim (Option-cases (f x).1) [
  | inl e ↦
      let y = (f x).0 in
      let ys = (ensure_all f xs).0 in
      let again = ensure_all-ok f y ys (ap (λ p. p.1) (twice x) ∙ e) in
      ap (λ p. ensure_all f p.0) (ensure_all-ok f x xs e)
      ∙ again
      ∙ ap (λ p. (p.0 ∷ (ensure_all f ys).0, (ensure_all f ys).1)) (twice x)
      ∙ ap (λ p. (y ∷ p.0, p.1)) (ensure_all-twice f twice xs)
      ∙ sym (ensure_all-ok f x xs e)
  | inr (bad, e) ↦
      ap (λ p. ensure_all f p.0) (ensure_all-bad f x xs e)
      ∙ ensure_all-bad f (f x).0 xs (ap (λ p. p.1) (twice x) ∙ e)
      ∙ ap (λ p. (p.0 ∷ xs, some bad)) (twice x)
      ∙ sym (ensure_all-bad f x xs e)
]

abbrev ensured_edges : Workflow → List Edge × Option EnsureError
ensured_edges w = ensure_all ensure_edge_condition_parsed w.edges

abbrev ensured_nodes : Workflow → List Node × Option EnsureError
ensured_nodes w = ensure_all ensure_node_conditions_parsed w.nodes

ensure_conditions_parsed-ok :
    (w : Workflow)
    → (ensured_edges w).1 ≡ none
    → ensure_conditions_parsed w
      ≡ (record w { edges = (ensured_edges w).0; nodes = (ensured_nodes w).0 }, (ensured_nodes w).1)
unfolding ensure_conditions_parsed
ensure_conditions_parsed-ok w e = rw (e, ensure_conditions_parsed) refl

ensure_conditions_parsed-bad :
    (w : Workflow) {bad : EnsureError}
    → (ensured_edges w).1 ≡ some bad
    → ensure_conditions_parsed w ≡ (record w { edges = (ensured_edges w).0 }, some bad)
unfolding ensure_conditions_parsed
ensure_conditions_parsed-bad w e = rw (e, ensure_conditions_parsed) refl

-- Parsing the conditions of a workflow again, of what the first time left, even when that stopped at
-- an error, changes nothing more and answers the same.
pub ensure_conditions_parsed-twice :
    (w : Workflow)
    → ensure_conditions_parsed (ensure_conditions_parsed w).0 ≡ ensure_conditions_parsed w
ensure_conditions_parsed-twice w =
    let edges = ensure_all-twice ensure_edge_condition_parsed ensure_edge-twice w.edges in
    let nodes = ensure_all-twice ensure_node_conditions_parsed ensure_node-twice w.nodes in
    elim (Option-cases (ensured_edges w).1) [
      | inl e ↦
          let w' = record w { edges = (ensured_edges w).0; nodes = (ensured_nodes w).0 } in
          ap (λ p. ensure_conditions_parsed p.0) (ensure_conditions_parsed-ok w e)
          ∙ ensure_conditions_parsed-ok w' (ap (λ p. p.1) edges ∙ e)
          ∙ ap (λ p. (record w { edges = p.0; nodes = (ensured_nodes w').0 }, (ensured_nodes w').1))
              edges
          ∙ ap (λ p. (record w { edges = (ensured_edges w).0; nodes = p.0 }, p.1)) nodes
          ∙ sym (ensure_conditions_parsed-ok w e)
      | inr (bad, e) ↦
          ap (λ p. ensure_conditions_parsed p.0) (ensure_conditions_parsed-bad w e)
          ∙ ensure_conditions_parsed-bad (record w { edges = (ensured_edges w).0 })
              (ap (λ p. p.1) edges ∙ e)
          ∙ ap (λ p. (record w { edges = p.0 }, some bad)) edges
          ∙ sym (ensure_conditions_parsed-bad w e)
    ]
