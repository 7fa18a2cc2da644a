-- ===== src/Simulate/Paths/Complete.antt =====
-- Which paths RunAllPaths finds as long as its bound on the results is not met.
use mathlib.Core.List.{append_assoc}
use dippin_lang.Base.{
  Str, ℕ, zero, suc, ◌+◌, ◌<◌, ◌≤◌, List, [], ◌∷◌, ◌++◌, ◌≡◌, inl, inr, refl, sym, ap, subst, arith,
  true, false, Bool-cases, some, length, length-append, ◌==◌, ==_iff, ==-refl, In, Map,
}
use dippin_lang.Ir.{Workflow, Node, Edge}
use dippin_lang.Ir.Arc.{Arc, HasEdge, HasUniqueIds, ids}
use dippin_lang.Ir.Lookup.{node, find_node, edges_from}
use dippin_lang.Ir.Lookup.Outgoing.{edges_from-Arc, edges_from_sound}
use dippin_lang.Simulate.State.{status_success, status_dead_end}
use dippin_lang.Simulate.Paths.{
  Enumerator, PathState, should_explore, enter, max_depth, max_results, follow, explore_edges,
  explore_node, explore, root, no_results, explore_all,
}
use dippin_lang.Simulate.Paths.Trails.{count, count-append, Trail, exits, ends, goes, IsFullPath}
use dippin_lang.Simulate.Paths.Routes.{
  IsTracked, IsEntered, enter-IsEntered, follow-IsTracked, root-IsTracked,
}
use dippin_lang.Simulate.Paths.Growth.{
  Search, IsFound, GrowsAlways, explore-Grows, length-Grows, explore_edges-IsFound,
  branch_out-edges, record_path-IsFound,
}

Trail-first :
    {w : Workflow} {u status : Str} {path : List Str}
    → Trail w u path status
    → (rest : List Str) × (path ≡ u ∷ rest)
Trail-first (exits known there) = ([], refl)
Trail-first (ends known other last) = ([], refl)
Trail-first (goes {path = path} known other arc t) = (path, refl)

Trail-In :
    {w : Workflow} {u status : Str} {path : List Str} → Trail w u path status → In u (ids w.nodes)
Trail-In (exits known there) = known
Trail-In (ends known other last) = known
Trail-In (goes known other arc t) = known

In-found : (x : Str) (ns : List Node) → In x (ids ns) → (n : Node) × (find_node x ns ≡ some n)
unfolding find_node
In-found x [] i = absurd i
In-found x (n ∷ ns) i = elim (Bool-cases (n.id == x)) [
  | inl here ↦ (n, rw (here, find_node) refl)
  | inr other ↦
      let (m, found) = In-found x ns (ground (arith, i, other, ==_iff n.id x)) in
      (m, rw (other, find_node) found)
]

node-found : (w : Workflow) (x : Str) → In x (ids w.nodes) → (n : Node) × (node w x ≡ some n)
unfolding node
node-found w x i = In-found x w.nodes i

no_edges : (es : List Edge) → ((a v : Str) → ¬ HasEdge es a v) → es ≡ []
no_edges [] h = refl
no_edges (e ∷ es) h = absurd (h e.from e.to (inl (refl, refl)))

==-eq_false : (x y : Str) → ¬ (x ≡ y) → (x == y) ≡ false
==-eq_false x y h = ground (arith, h, ==_iff x y)

-- The bounds of a path.
record IsBounded (path : List Str) : Type 0 where
  few : (x : Str) → count x path ≤ 2
  short : length path ≤ max_depth + 1

should_explore-IsBounded :
    (w : Workflow) (s : PathState) (e : Enumerator) (rest : List Str)
    → IsTracked w s
    → IsBounded (s.path ++ s.node_id ∷ rest)
    → length e.results < max_results
    → should_explore e s ≡ true
unfolding should_explore count
should_explore-IsBounded w s e rest t b room =
    let u = s.node_id in
    ground (
      arith,
      room,
      t.counts u,
      t.short,
      b.few u,
      b.short,
      count-append u s.path (u ∷ rest),
      ==-refl u,
      length-append s.path (u ∷ rest),
    )

explore-passed :
    (fuel : ℕ) (path_id : ℕ → Str) (w : Workflow) (s : PathState) (e : Enumerator) {n : Node}
    → should_explore e s ≡ true
    → node w s.node_id ≡ some n
    → explore (suc fuel) path_id w s e
      ≡ explore_node path_id (explore fuel path_id w) w (enter w n s) e
unfolding explore
explore-passed fuel path_id w s e passed found = rw (passed, found, explore) refl

abbrev Finds : Workflow → Search → List Str → Type 0
Finds w f path =
    (s : PathState) (e : Enumerator) (status : Str)
    → Trail w s.node_id path status
    → IsTracked w s
    → IsBounded (s.path ++ path)
    → length (f s e).results < max_results
    → IsFound (s.path ++ path) status (f s e).results

module _ (path_id : ℕ → Str) (w : Workflow) (unique : HasUniqueIds w) (f : Search)
    (grows : GrowsAlways f) (n : Node) (s : PathState) (e : Enumerator)
    (entered : IsEntered w (enter w n s)) where
  explore_node-IsFound :
      (path : List Str) (status : Str)
      → Trail w s.node_id path status
      → ((rest : List Str) → path ≡ s.node_id ∷ rest → Finds w f rest)
      → IsBounded (s.path ++ path)
      → length (explore_node path_id f w (enter w n s) e).results < max_results
      → IsFound (s.path ++ path) status (explore_node path_id f w (enter w n s) e).results
  unfolding enter explore_node
  explore_node-IsFound _ _ (exits known there) finds b room =
      rw ((==_iff s.node_id w.exit).1 there, explore_node)
        (record_path-IsFound path_id status_success (enter w n s) e)
  explore_node-IsFound _ _ (ends known other last) finds b room =
      let stuck =
        no_edges (edges_from w s.node_id)
          (λ a v i. last v (edges_from_sound w s.node_id a v i).1) in
      rw (==-eq_false s.node_id w.exit other, stuck, explore_node)
        (record_path-IsFound path_id status_dead_end (enter w n s) e)
  explore_node-IsFound _ status (goes {v = v} {path = path} known other arc trail) finds b room =
      let u = s.node_id in
      let t = enter w n s in
      let at_v = (edges_from-Arc w u u v unique).1 (refl, arc) in
      let assoc = append_assoc s.path (u ∷ []) path in
      let same : explore_node path_id f w t e ≡ explore_edges f (edges_from w u) t e =
        rw (==-eq_false u w.exit other, explore_node)
          (branch_out-edges path_id f u v (edges_from w u) t e at_v) in
      let bounded = subst IsBounded (sym assoc) b in
      subst (λ (d : Enumerator). IsFound (s.path ++ u ∷ path) status d.results) (sym same)
        (explore_edges-IsFound f grows u v (edges_from w u) t e at_v
          (λ edge d to room'.
            subst (λ p. IsFound p status (f (follow edge t) d).results) assoc
              (finds path refl (follow edge t) d status
                (subst (λ x. Trail w x path status) (sym to) trail)
                (follow-IsTracked w edge t entered other (subst (Arc w u) (sym to) arc)) bounded
                room'))
          (subst (λ (d : Enumerator). length d.results < max_results) same room))

module _ (path_id : ℕ → Str) (w : Workflow) (unique : HasUniqueIds w) where
  explore-Finds :
      (fuel : ℕ) (path : List Str) → length path ≤ fuel → Finds w (explore fuel path_id w) path
  unfolding explore
  explore-Finds zero path small s e status trail t b room =
      let (rest, eq) = Trail-first trail in
      let none_left : ⊥ = omega (arith, small, ap length eq) in absurd none_left
  explore-Finds (suc fuel) path small s e status trail t b room =
      let f = explore fuel path_id w in
      let (rest, eq) = Trail-first trail in
      let space = length-Grows (explore-Grows (suc fuel) path_id w s e) room in
      let passed =
        should_explore-IsBounded w s e rest t (subst (λ p. IsBounded (s.path ++ p)) eq b) space in
      let known = Trail-In trail in
      let (n, found) = node-found w s.node_id known in
      let same = explore-passed fuel path_id w s e passed found in
      subst (λ (d : Enumerator). IsFound (s.path ++ path) status d.results) (sym same)
        (explore_node-IsFound path_id w unique f (explore-Grows fuel path_id w) n s e
          (enter-IsEntered w n s e known t passed) path status trail
          (λ tail starts. explore-Finds fuel tail (omega (arith, small, ap length starts))) b
          (subst (λ (d : Enumerator). length d.results < max_results) same room))

  pub explore_all-IsFound :
      (scenario : Map Str) (path : List Str) (status : Str)
      → IsFullPath w path status
      → length (explore_all path_id w scenario) < max_results
      → IsFound path status (explore_all path_id w scenario)
  unfolding explore_all root
  explore_all-IsFound scenario path status full room =
      explore-Finds (max_depth + 2) path (omega (arith, full.short)) (root w scenario) no_results
        status full.trail (root-IsTracked path_id w unique scenario)
        (record { few = full.few; short = full.short }) room
