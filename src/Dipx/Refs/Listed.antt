-- ===== src/Dipx/Refs/Listed.antt =====
-- Where the references pass, each of them resolves to a file of the manifest, and none lead in a circle.
use dippin_lang.Base.{
  Str, List, [], ◌∷◌, ◌≡◌, inl, inr, refl, sym, ap, subst, ◌∙◌, arith, Map, contains, contains_iff,
  In, ◌==◌, if◌then◌else◌, some, lookup, ==-cases, Bool-cases,
}
use dippin_lang.Base.Fallible.{ok, >>=-eq_ok, ok-injective, err-ne-ok}
use dippin_lang.Ir.{Workflow, Node}
use dippin_lang.Search.{Adjacency, successors}
use dippin_lang.Search.Correct.{Walk, here, step}
use dippin_lang.Dipx.Paths.{resolve_lexically}
use dippin_lang.Dipx.Shape.{Manifest, listed_paths}
use dippin_lang.Dipx.Refs.{
  ref_from_node, refs_for_workflow, build_ref_graph, verify_targets, verify_refs_listed, walk_refs,
}
use dippin_lang.Dipx.Refs.Acyclic.{detect_cycles_all-no_cycle}

successors-at :
    (r : Str) (out : List Str) (g : Adjacency) (p : Str)
    → successors ((r, out) ∷ g) p ≡ (if p == r then out else successors g p)
unfolding successors lookup
successors-at r out g p = ground arith

module _ (nfc : Str → Str) where
  -- A node of the workflow at `p` has a reference, which resolves to `q`.
  abbrev pub Names : Map Workflow → Str → Node → Type 0
  Names parsed p n =
      (wf : Workflow) × (lookup p parsed ≡ some wf)
      × In n wf.nodes
      × (¬ ref_from_node n.config ≡ [])

  abbrev pub Resolves : Str → Node → Str → Type 0
  Resolves p n q = resolve_lexically nfc (ref_from_node n.config) p ≡ ok q

  -- A chain of references from one workflow to another.
  pub data Leads (parsed : Map Workflow) (p : Str) : Str → Type 0 where
    stay : Leads parsed p p
    follow :
        {u v : Str} (n : Node)
        → Leads parsed p u
        → Names parsed u n
        → Resolves u n v
        → Leads parsed p v

  abbrev pub IsCircular : Map Workflow → Str → Type 0
  IsCircular parsed x =
      (u : Str) × (n : Node) × Leads parsed x u × Names parsed u n × Resolves u n x

  refs_for_workflow-each :
      (ns : List Node) (p : Str) (out : List Str) (n : Node)
      → refs_for_workflow nfc ns p ≡ ok out
      → In n ns
      → ¬ ref_from_node n.config ≡ []
      → (q : Str) × Resolves p n q × In q out
  unfolding refs_for_workflow
  refs_for_workflow-each [] p out n h i named = absurd i
  refs_for_workflow-each (k ∷ ns) p out n h i named = elim (==-cases (ref_from_node k.config) []) [
    | inl (e, t) ↦
        let rest = rw (t, refs_for_workflow) at h in
        elim i [
          | inl same ↦ absurd (named (ap (λ (x : Node). ref_from_node x.config) same ∙ e))
          | inr j ↦ refs_for_workflow-each ns p out n rest j named
        ]
    | inr (e, t) ↦
        let (r, resolved, h1) =
          >>=-eq_ok (resolve_lexically nfc (ref_from_node k.config) p) _
            (rw (t, refs_for_workflow) at h) in
        let (others, found, whole) = >>=-eq_ok (refs_for_workflow nfc ns p) _ h1 in
        let joined : r ∷ others ≡ out = ok-injective whole in
        elim i [
          | inl same ↦ (
            r,
            subst (λ (x : Node). Resolves p x r) (sym same) resolved,
            subst (λ o. In r o) joined (inl refl),
          )
          | inr j ↦
              let (q, at_q, in_q) = refs_for_workflow-each ns p others n found j named in
              (q, at_q, subst (λ o. In q o) joined (inr in_q))
        ]
  ]

  build_ref_graph-each :
      (parsed : Map Workflow) (graph : Adjacency) (p : Str) (n : Node)
      → build_ref_graph nfc parsed ≡ ok graph
      → Names parsed p n
      → (q : Str) × Resolves p n q × In q (successors graph p)
  unfolding build_ref_graph lookup successors
  build_ref_graph-each [] graph p n h (wf, found, i, named) = ground arith
  build_ref_graph-each ((r, w) ∷ parsed) graph p n h (wf, found, i, named) =
      let (out, refs, h1) = >>=-eq_ok (refs_for_workflow nfc w.nodes r) _ h in
      let (g, rest, whole) = >>=-eq_ok (build_ref_graph nfc parsed) _ h1 in
      let joined : (r, out) ∷ g ≡ graph = ok-injective whole in
      elim (==-cases p r) [
        | inl (e, t) ↦
            let same : w ≡ wf = ground (arith, rw t at found) in
            let (q, at_q, in_q) =
              refs_for_workflow-each w.nodes r out n refs
                (subst (λ (x : Workflow). In n x.nodes) (sym same) i) named in
            let first : successors ((r, out) ∷ g) p ≡ out = (rw t at (successors-at r out g p)) in
            (
              q,
              subst (λ y. Resolves y n q) (sym e) at_q,
              subst (λ g'. In q (successors g' p)) joined (subst (λ xs. In q xs) (sym first) in_q),
            )
        | inr (e, t) ↦
            let (q, at_q, in_q) =
              build_ref_graph-each parsed g p n rest (wf, rw t at found, i, named) in
            let later : successors ((r, out) ∷ g) p ≡ successors g p =
              (rw t at (successors-at r out g p)) in
            (
              q,
              at_q,
              subst (λ g'. In q (successors g' p)) joined (subst (λ xs. In q xs) (sym later) in_q),
            )
      ]

verify_targets-In :
    (listed : List Str) (from : Str) (tos : List Str) (q : Str)
    → verify_targets listed from tos ≡ ok tt
    → In q tos
    → In q listed
unfolding verify_targets
verify_targets-In listed from [] q h i = absurd i
verify_targets-In listed from (to ∷ tos) q h i = elim (Bool-cases (contains listed to)) [
  | inr e ↦ absurd (err-ne-ok (rw (e, verify_targets) at h))
  | inl e ↦ elim i [
    | inl same ↦ subst (λ x. In x listed) (sym same) ((contains_iff listed to).0 e)
    | inr j ↦ verify_targets-In listed from tos q (rw (e, verify_targets) at h) j
  ]
]

verify_refs_listed-In :
    (graph : Adjacency) (listed : List Str) (p q : Str)
    → verify_refs_listed graph listed ≡ ok tt
    → In q (successors graph p)
    → In q listed
unfolding verify_refs_listed successors lookup
verify_refs_listed-In [] listed p q h i = absurd i
verify_refs_listed-In ((from, tos) ∷ graph) listed p q h i =
    let (u, first, rest) = >>=-eq_ok (verify_targets listed from tos) _ h in
    elim (==-cases p from) [
      | inl (e, t) ↦
          verify_targets-In listed from tos q first
            (subst (λ xs. In q xs) (rw t at (successors-at from tos graph p)) i)
      | inr (e, t) ↦
          verify_refs_listed-In graph listed p q rest
            (subst (λ xs. In q xs) (rw t at (successors-at from tos graph p)) i)
    ]

Leads-Walk :
    (nfc : Str → Str) (parsed : Map Workflow) (graph : Adjacency) (p : Str) {x : Str}
    → build_ref_graph nfc parsed ≡ ok graph
    → Leads nfc parsed p x
    → Walk graph p x
Leads-Walk nfc parsed graph p h stay = here
Leads-Walk nfc parsed graph p h (follow {u} {v} n l named resolved) =
    let (q, at_q, in_q) = build_ref_graph-each nfc parsed graph u n h named in
    step (Leads-Walk nfc parsed graph p h l)
      (subst (λ y. In y (successors graph u)) (ok-injective (sym at_q ∙ resolved)) in_q)

-- Where walkRefs returns no error, each reference of a workflow resolves to a path that the manifest lists,
-- and no chain of references leads from a listed path to a workflow that refers, directly or not, to itself.
pub walk_refs-acyclic :
    (nfc : Str → Str) (parsed : Map Workflow) (m : Manifest)
    → walk_refs nfc parsed m ≡ ok tt
    → ((p : Str) (n : Node)
        → Names nfc parsed p n
        → (q : Str) × Resolves nfc p n q × In q (listed_paths m.files))
      × ((p x : Str)
          → In p (listed_paths m.files)
          → Leads nfc parsed p x
          → ¬ IsCircular nfc parsed x)
unfolding walk_refs
walk_refs-acyclic nfc parsed m h =
    let (graph, built, h1) = >>=-eq_ok (build_ref_graph nfc parsed) _ h in
    let (u, listed, acyclic) = >>=-eq_ok (verify_refs_listed graph (listed_paths m.files)) _ h1 in
    (
      λ p n named.
          let (q, at_q, in_q) = build_ref_graph-each nfc parsed graph p n built named in
          (q, at_q, verify_refs_listed-In graph (listed_paths m.files) p q listed in_q),
      λ p x i l (u, n, back, named, resolved).
          let (q, at_q, in_q) = build_ref_graph-each nfc parsed graph u n built named in
          let closes =
            subst (λ y. In y (successors graph u)) (ok-injective (sym at_q ∙ resolved)) in_q in
          detect_cycles_all-no_cycle graph (listed_paths m.files) p x 64 acyclic i
            (Leads-Walk nfc parsed graph p built l)
            (u, Leads-Walk nfc parsed graph x built back, closes),
    )
