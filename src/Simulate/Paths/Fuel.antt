-- ===== src/Simulate/Paths/Fuel.antt =====
-- The depth of the enumerator's search: maxDepth ends it, not the fuel.
use dippin_lang.Base.{
  Str, ℕ, zero, suc, ◌+◌, ◌<◌, List, [], ◌∷◌, ◌≡◌, refl, sym, ap, ◌∙◌, arith, false, Option, none,
  some, Map,
}
use dippin_lang.Ir.{Workflow, Node, Edge}
use dippin_lang.Ir.Lookup.{node, edges_from}
use dippin_lang.Simulate.Paths.{
  Enumerator, PathState, should_explore, enter, max_depth, follow, explore_edges, branch_out,
  explore_node, at_node, explore, root, no_results, explore_all,
}

abbrev Search : Type 0
Search = PathState → Enumerator → Enumerator

shut_below : (e : Enumerator) (s : PathState) → max_depth < s.depth → should_explore e s ≡ false
unfolding should_explore
shut_below e s h = ground (arith, h)

explore_edges_same :
    (f g : Search) (es : List Edge) (s : PathState) (e : Enumerator)
    → ((t : PathState) (d : Enumerator) → t.depth ≡ s.depth + 1 → f t d ≡ g t d)
    → explore_edges f es s e ≡ explore_edges g es s e
unfolding explore_edges
explore_edges_same f g [] s e same = refl
explore_edges_same f g (edge ∷ es) s e same =
    ap (explore_edges f es s) (same (follow edge s) e refl)
    ∙ explore_edges_same f g es s (g (follow edge s) e) same

module _ (path_id : ℕ → Str) (f g : Search) where
  branch_out_same :
      (es : List Edge) (s : PathState) (e : Enumerator)
      → ((t : PathState) (d : Enumerator) → t.depth ≡ s.depth + 1 → f t d ≡ g t d)
      → branch_out path_id f es s e ≡ branch_out path_id g es s e
  branch_out_same [] s e same = refl
  branch_out_same (edge ∷ es) s e same = explore_edges_same f g (edge ∷ es) s e same

  explore_node_same :
      (w : Workflow) (s : PathState) (e : Enumerator)
      → ((t : PathState) (d : Enumerator) → t.depth ≡ s.depth + 1 → f t d ≡ g t d)
      → explore_node path_id f w s e ≡ explore_node path_id g w s e
  unfolding explore_node
  explore_node_same w s e same = rw (branch_out_same (edges_from w s.node_id) s e same) refl

  at_node_same :
      (w : Workflow) (s : PathState) (o : Option Node) (e : Enumerator)
      → ((t : PathState) (d : Enumerator) → t.depth ≡ s.depth + 1 → f t d ≡ g t d)
      → at_node path_id f w s o e ≡ at_node path_id g w s o e
  unfolding enter
  at_node_same w s none e same = refl
  at_node_same w s (some n) e same = explore_node_same w (enter w n s) e same

explore-shut :
    (fuel : ℕ) (path_id : ℕ → Str) (w : Workflow) (s : PathState) (e : Enumerator)
    → should_explore e s ≡ false
    → explore fuel path_id w s e ≡ e
unfolding explore
explore-shut zero path_id w s e h = refl
explore-shut (suc fuel) path_id w s e h = rw (h, explore) refl

-- The search from a snapshot ends the same for all amounts of fuel above the depth that is left to it.
pub explore-fuel :
    (fuel k : ℕ) (path_id : ℕ → Str) (w : Workflow) (s : PathState) (e : Enumerator)
    → max_depth < fuel + s.depth
    → max_depth < k + s.depth
    → explore fuel path_id w s e ≡ explore k path_id w s e
unfolding explore
explore-fuel zero k path_id w s e h j =
    sym (explore-shut k path_id w s e (shut_below e s (omega (arith, h))))
explore-fuel (suc fuel) zero path_id w s e h j =
    explore-shut (suc fuel) path_id w s e (shut_below e s (omega (arith, j)))
explore-fuel (suc fuel) (suc k) path_id w s e h j =
    rw
      (at_node_same path_id (explore fuel path_id w) (explore k path_id w) w s (node w s.node_id) e
        (λ t d deeper.
          explore-fuel fuel k path_id w t d (omega (arith, h, deeper)) (omega (arith, j, deeper))))
      refl

-- RunAllPaths finds the same paths for any fuel above 200 levels: the depth bound of the code ends the
-- search, not the fuel.
pub explore_all-fuel :
    (fuel : ℕ) (path_id : ℕ → Str) (w : Workflow) (scenario : Map Str)
    → max_depth < fuel
    → (explore fuel path_id w (root w scenario) no_results).results ≡ explore_all path_id w scenario
unfolding explore_all root
explore_all-fuel fuel path_id w scenario h =
    ap (λ (e : Enumerator). e.results)
      (explore-fuel fuel (max_depth + 2) path_id w (root w scenario) no_results (omega (arith, h))
        (omega arith))
