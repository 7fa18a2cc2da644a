-- ===== src/Simulate/Paths/Growth.antt =====
-- The results of the enumerator's search only grow; what is found at one edge stays found.
use mathlib.Core.List.{append-nil, append_assoc}
use dippin_lang.Base.{
  Str, ℕ, zero, suc, ◌<◌, List, [], ◌∷◌, ◌++◌, ◌≡◌, inl, inr, refl, sym, ap, subst, ◌∙◌, arith,
  Bool-cases, Option, none, some, length, length-append, ◌==◌, In, In-append,
}
use dippin_lang.Ir.{Workflow, Node, Edge}
use dippin_lang.Ir.Arc.{HasEdge}
use dippin_lang.Ir.Lookup.{node, edges_from}
use dippin_lang.Simulate.State.{Report, status_success, status_dead_end}
use dippin_lang.Simulate.Paths.{
  Enumerator, PathState, should_explore, enter, record_path, max_results, follow, explore_edges,
  branch_out, explore_node, at_node, explore,
}

abbrev pub Search : Type 0
Search = PathState → Enumerator → Enumerator

pub record IsFound (path : List Str) (status : Str) (rs : List Report) : Type 0 where
  pub report : Report
  pub among : In report rs
  pub path_eq : report.path ≡ path
  pub status_eq : report.status ≡ status

pub record Grows (e d : Enumerator) : Type 0 where
  more : List Report
  same : d.results ≡ e.results ++ more

abbrev grows_refl : (e : Enumerator) → Grows e e
grows_refl e = record { more = []; same = sym (append-nil e.results) }

abbrev grows_trans : {a b c : Enumerator} → Grows a b → Grows b c → Grows a c
grows_trans {a} g h = record {
  more = g.more ++ h.more;
  same = h.same ∙ ap (λ rs. rs ++ h.more) g.same ∙ append_assoc a.results g.more h.more;
}

IsFound-Grows :
    {path : List Str} {status : Str} {e d : Enumerator}
    → Grows e d
    → IsFound path status e.results
    → IsFound path status d.results
IsFound-Grows {path} {status} {e} {d} g f = record {
  report = f.report;
  among = subst (In f.report) (sym g.same) ((In-append f.report e.results g.more).1 (inl f.among));
  path_eq = f.path_eq;
  status_eq = f.status_eq;
}

pub length-Grows :
    {e d : Enumerator} {k : ℕ} → Grows e d → length d.results < k → length e.results < k
length-Grows {e} {d} g h = omega (arith, h, ap length g.same, length-append e.results g.more)

abbrev pub GrowsAlways : Search → Type 0
GrowsAlways f = (s : PathState) (e : Enumerator) → Grows e (f s e)

record_path-Grows :
    (path_id : ℕ → Str) (status : Str) (s : PathState) (e : Enumerator)
    → Grows e (record_path path_id status s e)
unfolding record_path
record_path-Grows path_id status s e = record { more = _; same = refl }

explore_edges-Grows :
    (f : Search)
    → GrowsAlways f
    → (es : List Edge) (s : PathState) (e : Enumerator) → Grows e (explore_edges f es s e)
unfolding explore_edges
explore_edges-Grows f grows [] s e = grows_refl e
explore_edges-Grows f grows (edge ∷ es) s e =
    grows_trans (grows (follow edge s) e) (explore_edges-Grows f grows es s (f (follow edge s) e))

branch_out-Grows :
    (path_id : ℕ → Str) (f : Search)
    → GrowsAlways f
    → (es : List Edge) (s : PathState) (e : Enumerator) → Grows e (branch_out path_id f es s e)
branch_out-Grows path_id f grows [] s e = record_path-Grows path_id status_dead_end s e
branch_out-Grows path_id f grows (edge ∷ es) s e = explore_edges-Grows f grows (edge ∷ es) s e

pub at_node-Grows :
    (path_id : ℕ → Str) (f : Search)
    → GrowsAlways f
    → (w : Workflow) (s : PathState) (o : Option Node) (e : Enumerator)
    → Grows e (at_node path_id f w s o e)
unfolding explore_node
at_node-Grows path_id f grows w s none e = grows_refl e
at_node-Grows path_id f grows w s (some n) e = elim (Bool-cases ((enter w n s).node_id == w.exit)) [
  | inl there ↦ rw (there, explore_node) (record_path-Grows path_id status_success (enter w n s) e)
  | inr other ↦
      rw (other, explore_node)
        (branch_out-Grows path_id f grows (edges_from w (enter w n s).node_id) (enter w n s) e)
]

pub explore-Grows :
    (fuel : ℕ) (path_id : ℕ → Str) (w : Workflow) → GrowsAlways (explore fuel path_id w)
unfolding explore
explore-Grows zero path_id w s e = grows_refl e
explore-Grows (suc fuel) path_id w s e = elim (Bool-cases (should_explore e s)) [
  | inl passed ↦
      rw (passed, explore)
        (at_node-Grows path_id (explore fuel path_id w) (explore-Grows fuel path_id w) w s
          (node w s.node_id) e)
  | inr shut ↦ rw (shut, explore) (grows_refl e)
]

-- The search finds what it finds at one of the edges.
pub explore_edges-IsFound :
    (f : Search)
    → GrowsAlways f
    → (a v : Str) (es : List Edge) (s : PathState) (e : Enumerator) {path : List Str} {status : Str}
    → HasEdge es a v
    → ((edge : Edge) (d : Enumerator)
        → edge.to ≡ v
        → length (f (follow edge s) d).results < max_results
        → IsFound path status (f (follow edge s) d).results)
    → length (explore_edges f es s e).results < max_results
    → IsFound path status (explore_edges f es s e).results
unfolding explore_edges
explore_edges-IsFound f grows a v [] s e i finds room = absurd i
explore_edges-IsFound f grows a v (edge ∷ es) s e (inl (from, to)) finds room =
    let later = explore_edges-Grows f grows es s (f (follow edge s) e) in
    IsFound-Grows later (finds edge e to (length-Grows later room))
explore_edges-IsFound f grows a v (edge ∷ es) s e (inr i) finds room =
    explore_edges-IsFound f grows a v es s (f (follow edge s) e) i finds room

pub branch_out-edges :
    (path_id : ℕ → Str) (f : Search) (a v : Str) (es : List Edge) (s : PathState) (e : Enumerator)
    → HasEdge es a v
    → branch_out path_id f es s e ≡ explore_edges f es s e
branch_out-edges path_id f a v [] s e i = absurd i
branch_out-edges path_id f a v (edge ∷ es) s e i = refl

pub record_path-IsFound :
    (path_id : ℕ → Str) (status : Str) (s : PathState) (e : Enumerator)
    → IsFound s.path status (record_path path_id status s e).results
unfolding record_path
record_path-IsFound path_id status s e = record {
  report = _;
  among = (In-append _ e.results _).1 (inr (inl refl));
  path_eq = refl;
  status_eq = refl;
}
