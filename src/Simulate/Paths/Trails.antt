-- ===== src/Simulate/Paths/Trails.antt =====
-- Walks from the start to the exit or to a dead end, independent of the search for them.
use dippin_lang.Base.{
  Str, ℕ, ◌+◌, ◌≤◌, List, [], ◌∷◌, ◌++◌, ◌≡◌, sym, subst, arith, Bool-cases, some, length,
  if◌then◌else◌, ◌==◌, ==_iff, In,
}
use dippin_lang.Ir.{Workflow, Node}
use mathlib.Core.List.{append_assoc}
use dippin_lang.Ir.Arc.{Arc, ids}
use dippin_lang.Ir.Lookup.{node, find_node}
use dippin_lang.Simulate.State.{Report, status_success, status_dead_end}
use dippin_lang.Simulate.Paths.{max_depth}

unfoldable pub count : Str → List Str → ℕ
count x [] = 0
count x (y ∷ ys) = let rest = count x ys in if x == y then rest + 1 else rest

pub count-append : (x : Str) (xs ys : List Str) → count x (xs ++ ys) ≡ count x xs + count x ys
unfolding count
count-append x [] ys = omega arith
count-append x (y ∷ xs) ys = ground (arith, count-append x xs ys, Bool-cases (x == y))

pub count-last :
    (x u : Str) (xs : List Str)
    → count x (xs ++ u ∷ []) ≡ (if x == u then count x xs + 1 else count x xs)
unfolding count
count-last x u xs = ground (arith, count-append x xs (u ∷ []), Bool-cases (x == u))

-- A walk along arcs from the start: the nodes that it has passed, none the exit, and the next one.
pub data Route (w : Workflow) : List Str → Str → Type 0 where
  begin : Route w [] w.start
  on :
      {path : List Str} {u v : Str}
      → Route w path u
      → In u (ids w.nodes)
      → ¬ (u ≡ w.exit)
      → Arc w u v
      → Route w (path ++ u ∷ []) v

-- A walk along arcs from a node, to the exit or to a node that no arc leaves, with its status.
pub data Trail (w : Workflow) : Str → List Str → Str → Type 0 where
  exits : {u : Str} → In u (ids w.nodes) → u ≡ w.exit → Trail w u (u ∷ []) status_success
  ends :
      {u : Str}
      → In u (ids w.nodes)
      → ¬ (u ≡ w.exit)
      → ((v : Str) → ¬ Arc w u v)
      → Trail w u (u ∷ []) status_dead_end
  goes :
      {u v : Str} {path : List Str} {status : Str}
      → In u (ids w.nodes)
      → ¬ (u ≡ w.exit)
      → Arc w u v
      → Trail w v path status
      → Trail w u (u ∷ path) status

-- Such a walk from the start that visits no node more than twice and goes 200 arcs at most.
pub record IsFullPath (w : Workflow) (path : List Str) (status : Str) : Type 0 where
  pub trail : Trail w w.start path status
  pub few : (x : Str) → count x path ≤ 2
  pub short : length path ≤ max_depth + 1

pub Route-Trail :
    {w : Workflow} {before path : List Str} {u status : Str}
    → Route w before u
    → Trail w u path status
    → Trail w w.start (before ++ path) status
Route-Trail begin t = t
Route-Trail {w} {path = path} {status = status} (on {path = before} {u = u} r known other arc) t =
    subst (λ p. Trail w w.start p status) (sym (append_assoc before (u ∷ []) path))
      (Route-Trail r (goes known other arc t))

abbrev pub IsFullReport : Workflow → Report → Type 0
IsFullReport w r = IsFullPath w r.path r.status

find_node-In : (x : Str) (ns : List Node) (n : Node) → find_node x ns ≡ some n → In x (ids ns)
unfolding find_node
find_node-In x [] n h = ground (arith, h)
find_node-In x (m ∷ ns) n h = ground (arith, h, ==_iff m.id x, find_node-In x ns n)

pub node-In : (w : Workflow) (x : Str) (n : Node) → node w x ≡ some n → In x (ids w.nodes)
unfolding node
node-In w x n h = find_node-In x w.nodes n h
