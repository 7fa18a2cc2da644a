-- ===== src/Flatten/Refs.antt =====
-- Which references a flattened workflow has left.
use dippin_lang.Base.{
  Str, ℕ, zero, suc, List, [], ◌∷◌, ◌++◌, ◌≡◌, inl, inr, refl, subst, false, Bool-cases, Option,
  none, some, arith, contains, ℤ, In, List-cases, sym, ap, ◌∙◌,
}
use dippin_lang.Base.Fallible.{ok, >>=-eq_ok, ok-injective, err-ne-ok}
use dippin_lang.Ir.{Workflow, Node, SubgraphConfig, subgraph}
use dippin_lang.Flatten.{
  Resolver, Answer, is_empty, ref_of, has_subgraph_refs, Pieces, prefixed_nodes, append_prefixed,
  resolve_and_validate, splice, inline_subgraph, process_node, process_nodes, assemble, no_pieces,
  flatten_recursive, depth_limit, levels_of, flatten,
}

abbrev IsFlat : List Node → Type 0
IsFlat ns = has_subgraph_refs ns ≡ false

IsFlat-append : (xs ys : List Node) → IsFlat xs → IsFlat ys → IsFlat (xs ++ ys)
unfolding has_subgraph_refs
IsFlat-append [] ys h k = k
IsFlat-append (x ∷ xs) ys h k = ground (arith, IsFlat-append xs ys)

prefixed_nodes-IsFlat :
    (prefix : Str) (ns : List Node) → IsFlat ns → IsFlat (prefixed_nodes prefix ns)
unfolding has_subgraph_refs prefixed_nodes
prefixed_nodes-IsFlat prefix [] h = h
prefixed_nodes-IsFlat prefix (n ∷ ns) h = ground (arith, prefixed_nodes-IsFlat prefix ns)

abbrev KeepsFlat : (List Str → Workflow → Answer Workflow) → Type 0
KeepsFlat f = (seen : List Str) (child flat : Workflow) → f seen child ≡ ok flat → IsFlat flat.nodes

process_node-IsFlat :
    (f : List Str → Workflow → Answer Workflow)
    → KeepsFlat f
    → (resolve : Resolver) (seen : List Str) (n : Node) (p q : Pieces)
    → process_node f resolve seen n p ≡ ok q
    → IsFlat p.nodes
    → IsFlat q.nodes
unfolding process_node inline_subgraph splice append_prefixed
process_node-IsFlat f keeps resolve seen n p q h flat =
    elim (Bool-cases (is_empty (ref_of n.config))) [
      | inl plain ↦
          subst (λ (x : Pieces). IsFlat x.nodes) (ok-injective (rw (plain, process_node) at h))
            (IsFlat-append p.nodes (n ∷ []) flat (unfold has_subgraph_refs in ground arith))
      | inr ref ↦ elim (Bool-cases (contains seen (ref_of n.config))) [
        | inl again ↦ absurd (err-ne-ok (rw (ref, again, process_node) at h))
        | inr new ↦
            let (child, resolved, rest) =
              >>=-eq_ok (resolve_and_validate resolve n (ref_of n.config)) _
                (rw (ref, new, process_node) at h) in
            let (inner, flattened, ends) =
              >>=-eq_ok (f (seen ++ ref_of n.config ∷ []) child) _ rest in
            subst (λ (x : Pieces). IsFlat x.nodes) (ok-injective ends)
              (IsFlat-append p.nodes _ flat
                (prefixed_nodes-IsFlat _ inner.nodes (keeps _ child inner flattened)))
      ]
    ]

process_nodes-IsFlat :
    (f : List Str → Workflow → Answer Workflow)
    → KeepsFlat f
    → (resolve : Resolver) (seen : List Str) (ns : List Node) (p q : Pieces)
    → process_nodes f resolve seen ns p ≡ ok q
    → IsFlat p.nodes
    → IsFlat q.nodes
unfolding process_nodes
process_nodes-IsFlat f keeps resolve seen [] p q h flat =
    subst (λ (x : Pieces). IsFlat x.nodes) (ok-injective h) flat
process_nodes-IsFlat f keeps resolve seen (n ∷ ns) p q h flat =
    let (p', first, rest) = >>=-eq_ok (process_node f resolve seen n p) _ h in
    process_nodes-IsFlat f keeps resolve seen ns p' q rest
      (process_node-IsFlat f keeps resolve seen n p p' first flat)

flatten_recursive-IsFlat :
    (levels : ℕ) (max_depth : ℤ) (resolve : Resolver)
    → KeepsFlat (flatten_recursive levels max_depth resolve)
unfolding flatten_recursive assemble
flatten_recursive-IsFlat zero max_depth resolve seen w flat h = absurd (err-ne-ok h)
flatten_recursive-IsFlat (suc levels) max_depth resolve seen w flat h =
    let (p, done, ends) =
      >>=-eq_ok
        (process_nodes (flatten_recursive levels max_depth resolve) resolve seen w.nodes no_pieces)
        _ h in
    subst (λ (x : Workflow). IsFlat x.nodes) (ok-injective ends)
      (process_nodes-IsFlat (flatten_recursive levels max_depth resolve)
        (flatten_recursive-IsFlat levels max_depth resolve) resolve seen w.nodes no_pieces p done
        (unfold has_subgraph_refs in refl))

flatten-IsFlat_nodes :
    (w flat : Workflow) (resolver : Option Resolver) (max_depth : ℤ)
    → flatten w resolver max_depth ≡ ok flat
    → IsFlat flat.nodes
unfolding flatten
flatten-IsFlat_nodes w flat none max_depth h = elim (Bool-cases (has_subgraph_refs w.nodes)) [
  | inl refs ↦ absurd (err-ne-ok (rw (refs, flatten) at h))
  | inr plain ↦
      subst (λ (x : Workflow). IsFlat x.nodes) (ok-injective (rw (plain, flatten) at h)) plain
]
flatten-IsFlat_nodes w flat (some resolve) max_depth h =
    elim (Bool-cases (has_subgraph_refs w.nodes)) [
      | inl refs ↦
          flatten_recursive-IsFlat (levels_of (depth_limit max_depth)) (depth_limit max_depth)
            resolve [] w flat (rw (refs, flatten) at h)
      | inr plain ↦
          subst (λ (x : Workflow). IsFlat x.nodes) (ok-injective (rw (plain, flatten) at h)) plain
    ]

IsFlat-no_ref : (ns : List Node) (n : Node) → IsFlat ns → In n ns → ref_of n.config ≡ []
unfolding has_subgraph_refs
IsFlat-no_ref [] n flat i = absurd i
IsFlat-no_ref (k ∷ ns) n flat i = elim (List-cases (ref_of k.config)) [
  | inl none_there ↦ elim i [
    | inl e ↦ ap (λ (x : Node). ref_of x.config) e ∙ none_there
    | inr j ↦ IsFlat-no_ref ns n (rw none_there at flat) j
  ]
  | inr (c, rest, some_there) ↦ absurd (ground (arith, rw some_there at flat))
]

-- If flattening succeeds, every node of the result that is a subgraph has an empty reference, and to flatten
-- the result gives it back.
pub flatten-IsFlat :
    (w flat : Workflow) (resolver : Option Resolver) (max_depth : ℤ)
    → flatten w resolver max_depth ≡ ok flat
    → ((n : Node) (cfg : SubgraphConfig) → In n flat.nodes → n.config ≡ subgraph cfg → cfg.ref ≡ [])
      × (flatten flat resolver max_depth ≡ ok flat)
unfolding flatten
flatten-IsFlat w flat resolver max_depth h =
    let plain = flatten-IsFlat_nodes w flat resolver max_depth h in
    (λ n cfg i e. sym (ap ref_of e) ∙ IsFlat-no_ref flat.nodes n plain i, rw (plain, flatten) refl)
