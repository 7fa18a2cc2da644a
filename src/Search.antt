-- ===== src/Search.antt =====
-- Adjacency maps and the breadth-first search that coverage/coverage.go (bfsFrom) and
-- validator/validate.go (bfsReachable) both contain, word for word.
pub mod Correct
pub mod Colors
pub mod Whites
use dippin_lang.Base.{
  Str, ℕ, zero, suc, ◌+◌, List, [], ◌∷◌, ◌++◌, Option, none, some, Map, lookup, insert, contains,
  length, if◌then◌else◌,
}

abbrev pub Adjacency : Type 0
Adjacency = Map (List Str)

-- adj[u], which is nil where the key is missing
unfoldable pub successors : Adjacency → Str → List Str
unfolding lookup
successors adj u = elim (lookup u adj) [ none ↦ [] | some vs ↦ vs ]

-- adj[u] = append(adj[u], vs...)
unfoldable pub append_at : Str → List Str → Adjacency → Adjacency
unfolding insert successors
append_at u vs adj = insert u (successors adj u ++ vs) adj

-- The number of entries in all the lists, by which the search's fuel is chosen.
abbrev pub size : Adjacency → ℕ
size [] = 0
size ((u, vs) ∷ adj) = length vs + size adj

pub record Frontier : Type 0 where
  pub visited : List Str
  pub queue : List Str

-- The inner loop: each neighbour not yet visited is marked and queued.
unfoldable pub enqueue : List Str → Frontier → Frontier
unfolding contains
enqueue [] s = s
enqueue (next ∷ rest) s = enqueue rest (
    if contains s.visited next
    then s
    else record { visited = next ∷ s.visited; queue = s.queue ++ next ∷ [] })

-- `for len(queue) > 0`, on fuel.
unfoldable pub bfs_loop : ℕ → Adjacency → Frontier → List Str
unfolding enqueue
bfs_loop zero adj s = s.visited
bfs_loop (suc fuel) adj s = elim s.queue [
  | [] ↦ s.visited
  | curr ∷ rest ↦
      bfs_loop fuel adj
        (enqueue (successors adj curr) (record { visited = s.visited; queue = rest }))
]

unfoldable pub bfs : Str → Adjacency → List Str
unfolding bfs_loop
bfs start adj = bfs_loop (size adj + 2) adj (record { visited = start ∷ []; queue = start ∷ [] })
