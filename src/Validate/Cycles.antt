-- ===== src/Validate/Cycles.antt =====
-- checkNoCycles of validator/validate.go (DIP005): the coloured depth-first search along the edges
-- that are not marked restart.
pub mod Silent
pub mod Ordered
pub mod Quiet
pub mod Exact
use mathlib.Core.List.{reverse}
use dippin_lang.Base.{
  Str, ℕ, zero, suc, ◌+◌, List, [], ◌∷◌, ◌++◌, Bool, true, false, ◌||◌, Map, insert, value_at,
  contains, length, ◌==◌, if◌then◌else◌,
}
use dippin_lang.Ir.{Workflow, Node, Edge}
use dippin_lang.Ir.Lookup.{node}
use dippin_lang.Search.{Adjacency, successors, append_at, size}
use dippin_lang.Search.Colors.{Color, white, gray, black, color_of, paint}
use dippin_lang.Validate.Defs.{Diagnostic, cycle, is_empty, is_missing}

unfoldable pub non_restart : List Edge → Adjacency → Adjacency
non_restart [] adj = adj
non_restart (e ∷ es) adj =
    non_restart es (if e.restart then adj else append_at e.from (e.to ∷ []) adj)

unfoldable pub build_non_restart_adjacency : Workflow → Adjacency
build_non_restart_adjacency w = non_restart w.edges []

-- cycleDetector; the map is an argument of the functions.
pub record Detector : Type 0 where
  pub color : Map Color
  pub parent : Map Str
  pub reported : List Str
  pub diags : List Diagnostic

-- The loop of reconstructCycle, while canWalk.
unfoldable pub walk_back : ℕ → Map Str → Str → Str → List Str → List Str → List Str
walk_back zero parent to curr seen path = path
walk_back (suc max_steps) parent to curr seen path =
    let rest =
      walk_back max_steps parent to (value_at curr parent) (curr ∷ seen) (path ++ curr ∷ []) in
    if (curr == to) || (is_empty curr || contains seen curr) then path else rest

unfoldable pub reconstruct_cycle : Map Str → Str → Str → List Str
reconstruct_cycle parent from to =
    reverse (walk_back (length parent + 2) parent to from (to ∷ []) (to ∷ []) ++ to ∷ [])

-- The first part of processNeighbor.
unfoldable pub report_back_edge : Str → Str → Detector → Detector
report_back_edge node next s = elim (color_of next s.color) [
  | gray ↦ if contains s.reported next then s else record s {
    reported = next ∷ s.reported;
    diags = s.diags ++ cycle (reconstruct_cycle s.parent node next) ∷ [];
  }
  | _ ↦ s
]

unfoldable pub process_neighbor : (Str → Detector → Detector) → Str → Str → Detector → Detector
process_neighbor visit node next s =
    let s' = report_back_edge node next s in
    elim (color_of next s'.color) [
      | white ↦ visit next (record s' { parent = insert next node s'.parent })
      | _ ↦ s'
    ]

unfoldable pub process_all : (Str → Detector → Detector) → Str → List Str → Detector → Detector
process_all visit node [] s = s
process_all visit node (next ∷ rest) s =
    process_all visit node rest (process_neighbor visit node next s)

abbrev pub set_color : Str → Color → Detector → Detector
set_color node c s = record s { color = paint node c s.color }

-- visit, on fuel: the depth of the recursion.
unfoldable pub visit : ℕ → Adjacency → Str → Detector → Detector
visit zero adj node s = s
visit (suc room) adj node s =
    set_color node black
      (process_all (visit room adj) node (successors adj node) (set_color node gray s))

-- Each node that is still white is visited.
unfoldable pub visit_nodes : Adjacency → List Node → Detector → Detector
visit_nodes adj [] s = s
visit_nodes adj (n ∷ ns) s = elim (color_of n.id s.color) [
  | white ↦ visit_nodes adj ns (visit (size adj + 1) adj n.id s)
  | _ ↦ visit_nodes adj ns s
]

abbrev pub new_detector : Detector
new_detector = record { color = []; parent = []; reported = []; diags = [] }

unfoldable pub detect_cycles_dfs : Workflow → Adjacency → List Diagnostic
detect_cycles_dfs w adj = (visit_nodes adj w.nodes new_detector).diags

unfoldable pub check_no_cycles : Workflow → List Diagnostic
check_no_cycles w =
    if is_empty w.start || is_missing (node w w.start)
    then []
    else detect_cycles_dfs w (build_non_restart_adjacency w)
