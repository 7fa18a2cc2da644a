-- ===== src/Flatten/Closed.antt =====
-- The endpoints of a flattened workflow's edges, its start and its exit, against its nodes.
use mathlib.Core.List.{append-nil, append_assoc}
use dippin_lang.Base.{
  Str, ℕ, zero, suc, List, [], ◌∷◌, ◌++◌, ◌≡◌, ◌↔◌, ◌⊎◌, inl, inr, refl, ap, subst, Bool-cases,
  some, Option-cases, Map, arith, In, contains, ℤ, lookup, lookup-insert, ==-cases, bytes,
}
use dippin_lang.Base.Fallible.{ok, >>=-eq_ok, ok-injective, err-ne-ok}
use dippin_lang.Ir.{Workflow, Node, Edge}
use dippin_lang.Ir.Arc.{ids, HasEdge, HasEdge-append}
use dippin_lang.Flatten.{
  Resolver, Resolved, found, failed, Answer, is_empty, ref_of, has_subgraph_refs, Rewire, Pieces,
  prefixed_nodes, prefixed_edges, append_prefixed, resolve_and_validate, checked, splice,
  inline_subgraph, process_node, process_nodes, start_of, exit_of, rewire_parent_edges, assemble,
  no_pieces, flatten_recursive, depth_limit, levels_of, flatten,
}

-- The explicit edges join nodes of the workflow, and its start and exit are nodes.
pub record IsClosed (w : Workflow) : Type 0 where
  pub start : In w.start (ids w.nodes)
  pub exit : In w.exit (ids w.nodes)
  pub edges : (u v : Str) → HasEdge w.edges u v → In u (ids w.nodes) × In v (ids w.nodes)

abbrev pub ResolvesClosed : Resolver → Type 0
ResolvesClosed resolve =
    (ref origin : Str) (child : Workflow) → resolve ref origin ≡ found child → IsClosed child

In-ids-append :
    (x : Str) (ns ms : List Node) → In x (ids (ns ++ ms)) ↔ (In x (ids ns) ⊎ In x (ids ms))
In-ids-append x [] ms = ground arith
In-ids-append x (n ∷ ns) ms = ground (arith, In-ids-append x ns ms)

In-ids-prefixed :
    (prefix x : Str) (ns : List Node)
    → In x (ids ns)
    → In (prefix ++ x) (ids (prefixed_nodes prefix ns))
unfolding prefixed_nodes
In-ids-prefixed prefix x [] i = absurd i
In-ids-prefixed prefix x (n ∷ ns) (inl e) = inl (ap (λ y. prefix ++ y) e)
In-ids-prefixed prefix x (n ∷ ns) (inr i) = inr (In-ids-prefixed prefix x ns i)

HasEdge-prefixed :
    (prefix : Str) (es : List Edge) (u v : Str)
    → HasEdge (prefixed_edges prefix es) u v
    → (a : Str) × (b : Str) × HasEdge es a b × (prefix ++ a ≡ u) × (prefix ++ b ≡ v)
unfolding prefixed_edges
HasEdge-prefixed prefix [] u v h = absurd h
HasEdge-prefixed prefix (e ∷ es) u v (inl (p, q)) = (e.from, e.to, inl (refl, refl), p, q)
HasEdge-prefixed prefix (e ∷ es) u v (inr h) =
    let (a, b, m, p, q) = HasEdge-prefixed prefix es u v h in (a, b, inr m, p, q)

HasEdge-rewired :
    (m : Map Rewire) (es : List Edge) (u v : Str)
    → HasEdge (rewire_parent_edges m es) u v
    → (a : Str) × (b : Str) × HasEdge es a b
      × (exit_of (lookup a m) a ≡ u)
      × (start_of (lookup b m) b ≡ v)
unfolding rewire_parent_edges
HasEdge-rewired m [] u v h = absurd h
HasEdge-rewired m (e ∷ es) u v (inl (p, q)) = (e.from, e.to, inl (refl, refl), p, q)
HasEdge-rewired m (e ∷ es) u v (inr h) =
    let (a, b, i, p, q) = HasEdge-rewired m es u v h in (a, b, inr i, p, q)

-- The invariant of the loop, after the nodes `seen`.
record Joined (seen : List Node) (p : Pieces) : Type 0 where
  inner : (u v : Str) → HasEdge p.edges u v → In u (ids p.nodes) × In v (ids p.nodes)
  wired :
      (x : Str) (r : Rewire)
      → lookup x p.rewires ≡ some r
      → In r.start (ids p.nodes) × In r.exit (ids p.nodes)
  covers :
      (x : Str)
      → In x (ids seen)
      → In x (ids p.nodes) ⊎ ((r : Rewire) × (lookup x p.rewires ≡ some r))

module _ (seen : List Node) (p : Pieces) (j : Joined seen p) where
  grown : (ms : List Node) (x : Str) → In x (ids p.nodes) → In x (ids (p.nodes ++ ms))
  grown ms x i = (In-ids-append x p.nodes ms).1 (inl i)

  Joined-plain : (n : Node) → Joined (seen ++ n ∷ []) (record p { nodes = p.nodes ++ n ∷ [] })
  Joined-plain n = record {
    inner = λ u v h. let (i, k) = j.inner u v h in (grown (n ∷ []) u i, grown (n ∷ []) v k);
    wired =
        λ x r e. let (i, k) = j.wired x r e in (grown (n ∷ []) r.start i, grown (n ∷ []) r.exit k);
    covers = λ x i. elim ((In-ids-append x seen (n ∷ [])).0 i) [
      | inl old ↦ elim (j.covers x old) [ inl k ↦ inl (grown (n ∷ []) x k) | inr k ↦ inr k ]
      | inr new ↦ inl ((In-ids-append x p.nodes (n ∷ [])).1 (inr new))
    ];
  }

  Joined-splice :
      (n : Node) (child : Workflow) → IsClosed child → Joined (seen ++ n ∷ []) (splice n child p)
  unfolding splice append_prefixed
  Joined-splice n child c =
      let prefix = n.id ++ bytes "_" in
      let fresh = prefixed_nodes prefix child.nodes in
      let put = λ (x : Str) (i : In x (ids child.nodes)).
        (In-ids-append (prefix ++ x) p.nodes fresh).1
          (inr (In-ids-prefixed prefix x child.nodes i)) in
      let made : Rewire = record { start = prefix ++ child.start; exit = prefix ++ child.exit } in
      record {
        inner = λ u v h.
            elim ((HasEdge-append p.edges (prefixed_edges prefix child.edges) u v).0 h) [
              | inl old ↦ let (i, k) = j.inner u v old in (grown fresh u i, grown fresh v k)
              | inr new ↦
                  let (a, b, m, e, f) = HasEdge-prefixed prefix child.edges u v new in
                  let (i, k) = c.edges a b m in
                  (
                    subst (λ y. In y (ids (p.nodes ++ fresh))) e (put a i),
                    subst (λ y. In y (ids (p.nodes ++ fresh))) f (put b k),
                  )
            ];
        wired = λ x r e. elim (==-cases x n.id) [
          | inl (same, t) ↦
              let is_made : made ≡ r = ground (arith, lookup-insert n.id x made p.rewires) in
              subst
                (λ (y : Rewire).
                  In y.start (ids (p.nodes ++ fresh)) × In y.exit (ids (p.nodes ++ fresh)))
                is_made (put child.start c.start, put child.exit c.exit)
          | inr (other, t) ↦
              let (i, k) = j.wired x r (ground (arith, lookup-insert n.id x made p.rewires)) in
              (grown fresh r.start i, grown fresh r.exit k)
        ];
        covers = λ x i. elim (==-cases x n.id) [
          | inl (same, t) ↦ inr (made, ground (arith, lookup-insert n.id x made p.rewires))
          | inr (other, t) ↦ elim ((In-ids-append x seen (n ∷ [])).0 i) [
            | inl old ↦ elim (j.covers x old) [
              | inl k ↦ inl (grown fresh x k)
              | inr (r, e) ↦ inr (r, ground (arith, lookup-insert n.id x made p.rewires))
            ]
            | inr (inl same) ↦ absurd (other same)
            | inr (inr nothing) ↦ absurd nothing
          ]
        ];
      }

abbrev KeepsClosed : (List Str → Workflow → Answer Workflow) → Type 0
KeepsClosed f =
    (seen : List Str) (child flat : Workflow)
    → IsClosed child
    → f seen child ≡ ok flat
    → IsClosed flat

resolve_and_validate-found :
    (resolve : Resolver) (n : Node) (ref : Str) (child : Workflow)
    → resolve_and_validate resolve n ref ≡ ok child
    → resolve ref n.source.file ≡ found child
unfolding resolve_and_validate
resolve_and_validate-found resolve n ref child h = go (resolve ref n.source.file) refl h
  where
    go :
        (r : Resolved)
        → resolve ref n.source.file ≡ r
        → checked n ref r ≡ ok child
        → resolve ref n.source.file ≡ found child
    go (failed e) s k = absurd (err-ne-ok k)
    go (found w) s k =
        ground (arith, s, Bool-cases (is_empty w.start), Bool-cases (is_empty w.exit))

module _ (resolve : Resolver) (closed : ResolvesClosed resolve)
    (f : List Str → Workflow → Answer Workflow) (keeps : KeepsClosed f) (path : List Str) where
  process_node-Joined :
      (seen : List Node) (n : Node) (p q : Pieces)
      → Joined seen p
      → process_node f resolve path n p ≡ ok q
      → Joined (seen ++ n ∷ []) q
  unfolding process_node inline_subgraph
  process_node-Joined seen n p q j h = elim (Bool-cases (is_empty (ref_of n.config))) [
    | inl plain ↦
        subst (Joined (seen ++ n ∷ [])) (ok-injective (rw (plain, process_node) at h))
          (Joined-plain seen p j n)
    | inr ref ↦ elim (Bool-cases (contains path (ref_of n.config))) [
      | inl again ↦ absurd (err-ne-ok (rw (ref, again, process_node) at h))
      | inr new ↦
          let (child, resolved, rest) =
            >>=-eq_ok (resolve_and_validate resolve n (ref_of n.config)) _
              (rw (ref, new, process_node) at h) in
          let (inner, flattened, ends) =
            >>=-eq_ok (f (path ++ ref_of n.config ∷ []) child) _ rest in
          let origin = resolve_and_validate-found resolve n (ref_of n.config) child resolved in
          subst (Joined (seen ++ n ∷ [])) (ok-injective ends) (
            Joined-splice seen p j n inner
              (keeps _ child inner (closed (ref_of n.config) n.source.file child origin) flattened))
    ]
  ]

  process_nodes-Joined :
      (seen ns : List Node) (p q : Pieces)
      → Joined seen p
      → process_nodes f resolve path ns p ≡ ok q
      → Joined (seen ++ ns) q
  unfolding process_nodes
  process_nodes-Joined seen [] p q j h =
      rw (append-nil seen) (subst (Joined seen) (ok-injective h) j)
  process_nodes-Joined seen (n ∷ ns) p q j h =
      let (p', first, rest) = >>=-eq_ok (process_node f resolve path n p) _ h in
      rw (← append_assoc seen (n ∷ []) ns) (
        process_nodes-Joined (seen ++ n ∷ []) ns p' q (process_node-Joined seen n p p' j first)
          rest)

-- The parent's edges are rewired to the nodes that took the place of their ends.
module _ (w : Workflow) (p : Pieces) (j : Joined w.nodes p) where
  start_there : (x : Str) → In x (ids w.nodes) → In (start_of (lookup x p.rewires) x) (ids p.nodes)
  start_there x i = elim (Option-cases (lookup x p.rewires)) [
    | inl e ↦ rw e (elim (j.covers x i) [ inl k ↦ k | inr (r, e') ↦ absurd (cc) ])
    | inr (r, e) ↦ rw e (j.wired x r e).0
  ]

  exit_there : (x : Str) → In x (ids w.nodes) → In (exit_of (lookup x p.rewires) x) (ids p.nodes)
  exit_there x i = elim (Option-cases (lookup x p.rewires)) [
    | inl e ↦ rw e (elim (j.covers x i) [ inl k ↦ k | inr (r, e') ↦ absurd (cc) ])
    | inr (r, e) ↦ rw e (j.wired x r e).1
  ]

  assemble-IsClosed : IsClosed w → IsClosed (assemble w p)
  unfolding assemble
  assemble-IsClosed c = record {
    start = start_there w.start c.start;
    exit = exit_there w.exit c.exit;
    edges = λ u v h.
        elim ((HasEdge-append p.edges (rewire_parent_edges p.rewires w.edges) u v).0 h) [
          | inl old ↦ j.inner u v old
          | inr new ↦
              let (a, b, m, e, f) = HasEdge-rewired p.rewires w.edges u v new in
              let (i, k) = c.edges a b m in
              (
                subst (λ y. In y (ids p.nodes)) e (exit_there a i),
                subst (λ y. In y (ids p.nodes)) f (start_there b k),
              )
        ];
  }

Joined-new : Joined [] no_pieces
unfolding lookup
Joined-new = record { inner = λ u v h. absurd h; wired = λ x r e. cc; covers = λ x i. absurd i }

flatten_recursive-IsClosed :
    (levels : ℕ) (max_depth : ℤ) (resolve : Resolver)
    → ResolvesClosed resolve
    → KeepsClosed (flatten_recursive levels max_depth resolve)
unfolding flatten_recursive
flatten_recursive-IsClosed zero max_depth resolve closed seen w flat c h = absurd (err-ne-ok h)
flatten_recursive-IsClosed (suc levels) max_depth resolve closed seen w flat c h =
    let inner = flatten_recursive levels max_depth resolve in
    let (p, walked, ends) = >>=-eq_ok (process_nodes inner resolve seen w.nodes no_pieces) _ h in
    let j =
      process_nodes-Joined resolve closed inner
        (flatten_recursive-IsClosed levels max_depth resolve closed) seen [] w.nodes no_pieces p
        Joined-new walked in
    subst IsClosed (ok-injective ends) (assemble-IsClosed w p j c)

-- If the explicit edges of a workflow and of every workflow that the resolver finds join nodes that are there,
-- and their starts and exits are nodes, then this holds of the flattened workflow too, again of its explicit
-- edges: the edges that fan-outs and joins imply are left out.
pub flatten-IsClosed :
    (w flat : Workflow) (resolve : Resolver) (max_depth : ℤ)
    → ResolvesClosed resolve
    → IsClosed w
    → flatten w (some resolve) max_depth ≡ ok flat
    → IsClosed flat
unfolding flatten
flatten-IsClosed w flat resolve max_depth closed c h =
    elim (Bool-cases (has_subgraph_refs w.nodes)) [
      | inl refs ↦
          flatten_recursive-IsClosed (levels_of (depth_limit max_depth)) (depth_limit max_depth)
            resolve closed [] w flat c (rw (refs, flatten) at h)
      | inr plain ↦ subst IsClosed (ok-injective (rw (plain, flatten) at h)) c
    ]
