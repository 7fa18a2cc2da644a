-- ===== src/Dipx/Refs/Acyclic.antt =====
-- Where the references pass, none of them lead in a circle or out of the bundle.
use dippin_lang.Base.{
  Str, ℕ, zero, suc, ◌+◌, List, [], ◌∷◌, ◌≡◌, inl, inr, refl, sym, subst, arith, In, lookup,
}
use dippin_lang.Base.Fallible.{ok, >>=-eq_ok, ok-injective, err-ne-ok}
use dippin_lang.Search.{Adjacency, successors}
use dippin_lang.Search.Correct.{Walk}
use dippin_lang.Search.Colors.{
  white, color_of, Color-cases, IsOnCycle, IsOrdered-no_cycle, IsOrdered-Walk, Done, Finished,
  finished_refl, finished_trans, Done-gray, finished_black,
}
use dippin_lang.Dipx.Errors.{Bundled}
use dippin_lang.Dipx.Refs.{
  RefSearch, dfs_visit_edge, dfs_visit_edges, push_node, dfs_visit, detect_cycles,
  detect_cycles_all,
}

module _ (graph : Adjacency) where
  -- A visit of a white node that succeeds blackens it, and with it all that is behind it.
  abbrev Visits : (Str → RefSearch → Bundled RefSearch) → Type 0
  Visits visit =
      (node : Str) (s t : RefSearch) (done : List Str)
      → Done graph done s.color
      → color_of node s.color ≡ white
      → visit node s ≡ ok t
      → (f : Finished graph done s.color t.color) × In node f.order

  edge_Finished :
      (visit : Str → RefSearch → Bundled RefSearch)
      → Visits visit
      → (next : Str) (s t : RefSearch) (done : List Str) → Done graph done s.color
      → dfs_visit_edge visit next s ≡ ok t
      → (f : Finished graph done s.color t.color) × In next f.order
  unfolding dfs_visit_edge
  edge_Finished visit visits next s t done d h = elim (Color-cases (color_of next s.color)) [
    | inl e ↦ visits next s t done d e (rw (e, dfs_visit_edge) at h)
    | inr (inl e) ↦ absurd (err-ne-ok (rw (e, dfs_visit_edge) at h))
    | inr (inr e) ↦
        let same : s ≡ t = ok-injective (rw (e, dfs_visit_edge) at h) in
        subst (λ (u : RefSearch). (f : Finished graph done s.color u.color) × In next f.order) same
          (finished_refl d, (d.blackened next).0 e)
  ]

  edges_Finished :
      (visit : Str → RefSearch → Bundled RefSearch)
      → Visits visit
      → (rest : List Str) (s t : RefSearch) (done : List Str) → Done graph done s.color
      → dfs_visit_edges visit rest s ≡ ok t
      → (f : Finished graph done s.color t.color) × ((x : Str) → In x rest → In x f.order)
  unfolding dfs_visit_edges
  edges_Finished visit visits [] s t done d h =
      subst
        (λ (u : RefSearch).
          (f : Finished graph done s.color u.color) × ((x : Str) → ⊥ → In x f.order))
        (ok-injective h) (finished_refl d, λ x i. absurd i)
  edges_Finished visit visits (next ∷ rest) s t done d h =
      let (u, first, later) = >>=-eq_ok (dfs_visit_edge visit next s) _ h in
      let (f, m) = edge_Finished visit visits next s u done d first in
      let (g, all) = edges_Finished visit visits rest u t f.order f.is_done later in
      (
        finished_trans f g,
        λ x i. elim i [ inl e ↦ g.grows x (subst (λ y. In y f.order) (sym e) m) | inr j ↦ all x j ],
      )

  visit_Finished : (room : ℕ) → Visits (dfs_visit room graph)
  unfolding dfs_visit
  visit_Finished zero node s t done d e h = absurd (err-ne-ok h)
  visit_Finished (suc room) node s t done d e h =
      let (u, visited, left) =
        >>=-eq_ok
          (dfs_visit_edges (dfs_visit room graph) (successors graph node) (push_node node s)) _ h in
      let (f, all) =
        edges_Finished (dfs_visit room graph) (visit_Finished room) (successors graph node)
          (push_node node s) u done (Done-gray node e d) visited in
      subst (λ (v : RefSearch). (f : Finished graph done s.color v.color) × In node f.order)
        (ok-injective left) (finished_black node e f all, inl refl)

  new_Done : Done graph [] []
  unfolding color_of lookup
  new_Done = record { ordered = tt; blackened = λ x. ground arith }

  new_white : (x : Str) → color_of x [] ≡ white
  unfolding color_of lookup
  new_white x = refl

  -- Nothing behind the start is on a cycle.
  detect_cycles-no_cycle :
      (start x : Str) (max_depth : ℕ)
      → detect_cycles graph start max_depth ≡ ok tt
      → Walk graph start x
      → ¬ IsOnCycle graph x
  unfolding detect_cycles
  detect_cycles-no_cycle start x max_depth h walk =
      let (t, visited, rest) = >>=-eq_ok (dfs_visit (max_depth + 1) graph start _) _ h in
      let (f, m) = visit_Finished (max_depth + 1) start _ t [] new_Done (new_white start) visited in
      let o = f.is_done.ordered in
      IsOrdered-no_cycle graph f.order x o (IsOrdered-Walk graph f.order o m walk)

  pub detect_cycles_all-no_cycle :
      (ps : List Str) (p x : Str) (max_depth : ℕ)
      → detect_cycles_all graph ps max_depth ≡ ok tt
      → In p ps
      → Walk graph p x
      → ¬ IsOnCycle graph x
  unfolding detect_cycles_all
  detect_cycles_all-no_cycle [] p x max_depth h i walk = absurd i
  detect_cycles_all-no_cycle (r ∷ ps) p x max_depth h i walk =
      let (u, first, rest) = >>=-eq_ok (detect_cycles graph r max_depth) _ h in
      elim i [
        | inl e ↦ detect_cycles-no_cycle r x max_depth first (subst (λ y. Walk graph y x) e walk)
        | inr j ↦ detect_cycles_all-no_cycle ps p x max_depth rest j walk
      ]
