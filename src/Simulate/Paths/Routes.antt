-- ===== src/Simulate/Paths/Routes.antt =====
-- What RunAllPaths finds: routes through the graph from the start.
use dippin_lang.Base.{
  Str, ℕ, zero, suc, ◌+◌, ◌<◌, ◌≤◌, List, [], ◌∷◌, ◌++◌, ◌≡◌, inl, inr, refl, sym, subst, arith,
  true, Bool-cases, Option, none, some, length, length-append, ◌==◌, ==_iff, All, In, Map, lookup,
  lookup-insert,
}
use dippin_lang.Ir.{Workflow, Node, Edge}
use dippin_lang.Ir.Arc.{Arc, HasEdge, HasUniqueIds, ids}
use dippin_lang.Ir.Lookup.{node, edges_from}
use dippin_lang.Ir.Lookup.Outgoing.{edges_from-Arc}
use dippin_lang.Simulate.State.{status_success, status_dead_end}
use dippin_lang.Simulate.Paths.{
  Enumerator, PathState, visits_at, should_explore, enter, record_path, max_depth, max_results,
  follow, explore_edges, branch_out, explore_node, at_node, explore, root, no_results, explore_all,
}
use dippin_lang.Simulate.Paths.Trails.{
  count, count-last, Route, begin, on, Trail, exits, ends, IsFullReport, Route-Trail, node-In,
}

-- A snapshot before its node is visited, and after.
pub record IsTracked (w : Workflow) (s : PathState) : Type 0 where
  pub route : Route w s.path s.node_id
  pub counts : (x : Str) → visits_at x s.visited ≡ count x s.path
  pub few : (x : Str) → count x s.path ≤ 2
  pub short : length s.path ≡ s.depth

pub record IsEntered (w : Workflow) (s : PathState) : Type 0 where
  pub known : In s.node_id (ids w.nodes)
  pub before : List Str
  pub split : s.path ≡ before ++ s.node_id ∷ []
  pub route : Route w before s.node_id
  pub counts : (x : Str) → visits_at x s.visited ≡ count x s.path
  pub few : (x : Str) → count x s.path ≤ 2
  pub short : length s.path ≡ s.depth + 1
  pub shallow : s.depth ≤ max_depth

record IsFilled (w : Workflow) (e : Enumerator) : Type 0 where
  paths : All (IsFullReport w) e.results
  room : length e.results ≤ max_results

All-snoc :
    {A : Type 0} (P : A → Type 0) (xs : List A) (x : A) → All P xs → P x → All P (xs ++ x ∷ [])
All-snoc P [] x h p = (p, tt)
All-snoc P (y ∷ ys) x h p = (h.0, All-snoc P ys x h.1 p)

length_snoc : {A : Type 0} (xs : List A) (x : A) {k : ℕ} → length xs < k → length (xs ++ x ∷ []) ≤ k
length_snoc xs x h = omega (arith, length-append xs (x ∷ []), h)

pub enter-IsEntered :
    (w : Workflow) (n : Node) (s : PathState) (e : Enumerator)
    → In s.node_id (ids w.nodes)
    → IsTracked w s
    → should_explore e s ≡ true
    → IsEntered w (enter w n s)
unfolding enter should_explore
enter-IsEntered w n s e known t passed = record {
  known = known;
  before = s.path;
  split = refl;
  route = t.route;
  counts = λ x. ground (
    arith,
    lookup-insert s.node_id x (suc (visits_at s.node_id s.visited)) s.visited,
    t.counts x,
    t.counts s.node_id,
    count-last x s.node_id s.path,
    ==_iff x s.node_id,
  );
  few = λ x. ground (
    arith,
    passed,
    t.few x,
    t.counts s.node_id,
    count-last x s.node_id s.path,
    ==_iff x s.node_id,
  );
  short = ground (arith, length-append s.path (s.node_id ∷ []), t.short);
  shallow = ground (arith, passed);
}

pub follow-IsTracked :
    (w : Workflow) (edge : Edge) (s : PathState)
    → IsEntered w s
    → ¬ (s.node_id ≡ w.exit)
    → Arc w s.node_id edge.to
    → IsTracked w (follow edge s)
follow-IsTracked w edge s t other arc = record {
  route = subst (λ p. Route w p edge.to) (sym t.split) (on t.route t.known other arc);
  counts = t.counts;
  few = t.few;
  short = t.short;
}

record_path-IsFilled :
    (path_id : ℕ → Str) (w : Workflow) (status : Str) (s : PathState) (e : Enumerator)
    → IsEntered w s
    → IsFilled w e
    → length e.results < max_results
    → Trail w s.node_id (s.node_id ∷ []) status
    → IsFilled w (record_path path_id status s e)
unfolding record_path
record_path-IsFilled path_id w status s e t f room ending = record {
  paths = All-snoc (IsFullReport w) e.results _ f.paths (record {
    trail = subst (λ p. Trail w w.start p status) (sym t.split) (Route-Trail t.route ending);
    few = t.few;
    short = omega (arith, t.short, t.shallow);
  });
  room = length_snoc e.results _ room;
}

arcs_to :
    (w : Workflow) (u : Str) (es : List Edge)
    → ((a v : Str) → HasEdge es a v → Arc w u v)
    → All (λ (e : Edge). Arc w u e.to) es
arcs_to w u [] h = tt
arcs_to w u (e ∷ es) h = (h e.from e.to (inl (refl, refl)), arcs_to w u es (λ a v i. h a v (inr i)))

abbrev Keeps : Workflow → (PathState → Enumerator → Enumerator) → Type 0
Keeps w f = (s : PathState) (e : Enumerator) → IsTracked w s → IsFilled w e → IsFilled w (f s e)

module _ (path_id : ℕ → Str) (w : Workflow) (unique : HasUniqueIds w) where
  explore_edges-IsFilled :
      (f : PathState → Enumerator → Enumerator)
      → Keeps w f
      → (es : List Edge) (s : PathState) (e : Enumerator)
      → All (λ (edge : Edge). Arc w s.node_id edge.to) es
      → ¬ (s.node_id ≡ w.exit)
      → IsEntered w s
      → IsFilled w e
      → IsFilled w (explore_edges f es s e)
  unfolding explore_edges
  explore_edges-IsFilled f keeps [] s e arcs other t h = h
  explore_edges-IsFilled f keeps (edge ∷ es) s e (arc, arcs) other t h =
      explore_edges-IsFilled f keeps es s (f (follow edge s) e) arcs other t
        (keeps (follow edge s) e (follow-IsTracked w edge s t other arc) h)

  branch_out-IsFilled :
      (f : PathState → Enumerator → Enumerator)
      → Keeps w f
      → (es : List Edge) (s : PathState) (e : Enumerator) → edges_from w s.node_id ≡ es
      → ¬ (s.node_id ≡ w.exit)
      → IsEntered w s
      → IsFilled w e
      → length e.results < max_results
      → IsFilled w (branch_out path_id f es s e)
  branch_out-IsFilled f keeps [] s e same other t h room =
      record_path-IsFilled path_id w status_dead_end s e t h room (
        ends t.known other (λ v arc.
          subst (λ es. HasEdge es s.node_id v) same
            ((edges_from-Arc w s.node_id s.node_id v unique).1 (refl, arc))))
  branch_out-IsFilled f keeps (edge ∷ es) s e same other t h room =
      explore_edges-IsFilled f keeps (edge ∷ es) s e
        (arcs_to w s.node_id (edge ∷ es) (λ a v i.
          ((edges_from-Arc w s.node_id a v unique).0
            (subst (λ es. HasEdge es a v) (sym same) i)).1))
        other t h

  explore_node-IsFilled :
      (f : PathState → Enumerator → Enumerator)
      → Keeps w f
      → (s : PathState) (e : Enumerator) → IsEntered w s
      → IsFilled w e
      → length e.results < max_results
      → IsFilled w (explore_node path_id f w s e)
  unfolding explore_node
  explore_node-IsFilled f keeps s e t h room = elim (Bool-cases (s.node_id == w.exit)) [
    | inl there ↦
        rw (there, explore_node)
          (record_path-IsFilled path_id w status_success s e t h room
            (exits t.known ((==_iff s.node_id w.exit).0 there)))
    | inr other ↦
        rw (other, explore_node)
          (branch_out-IsFilled f keeps (edges_from w s.node_id) s e refl
            (λ same. ground (arith, same, other, ==_iff s.node_id w.exit)) t h room)
  ]

  explore-IsFilled : (fuel : ℕ) → Keeps w (explore fuel path_id w)
  unfolding explore enter should_explore
  explore-IsFilled zero s e t h = h
  explore-IsFilled (suc fuel) s e t h = elim (Bool-cases (should_explore e s)) [
    | inl passed ↦ rw (passed, explore) (go (explore-IsFilled fuel) (node w s.node_id) refl passed)
    | inr shut ↦ rw (shut, explore) h
  ]
    where
      go :
          Keeps w (explore fuel path_id w)
          → (o : Option Node) → node w s.node_id ≡ o
          → should_explore e s ≡ true
          → IsFilled w (at_node path_id (explore fuel path_id w) w s o e)
      go keeps none found passed = h
      go keeps (some n) found passed =
          explore_node-IsFilled (explore fuel path_id w) keeps (enter w n s) e
            (enter-IsEntered w n s e (node-In w s.node_id n found) t passed) h
            (ground (arith, passed))

  pub root-IsTracked : (scenario : Map Str) → IsTracked w (root w scenario)
  unfolding root count lookup
  root-IsTracked scenario = record {
    route = begin;
    counts = λ x. refl;
    few = λ x. omega arith;
    short = refl;
  }

  pub explore_all-IsFullPath :
      (scenario : Map Str)
      → (length (explore_all path_id w scenario) ≤ max_results)
        × All (IsFullReport w) (explore_all path_id w scenario)
  unfolding explore_all
  explore_all-IsFullPath scenario =
      let none_yet : IsFilled w no_results = record { paths = tt; room = omega arith } in
      let filled =
        explore-IsFilled (max_depth + 2) (root w scenario) no_results (root-IsTracked scenario)
          none_yet in
      (filled.room, filled.paths)
