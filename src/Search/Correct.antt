-- ===== src/Search/Correct.antt =====
-- The search of bfsFrom and bfsReachable against walks along the adjacency map.
use dippin_lang.Base.{
  Str, ℕ, zero, suc, ◌+◌, ◌≤◌, ◌<◌, List, [], ◌∷◌, ◌++◌, ◌≡◌, ◌↔◌, ◌⊎◌, inl, inr, In, In-append,
  Distinct, All, arith, false, ==_iff, contains_iff, contains, if◌then◌else◌, length, length-append,
  refl, List-cases, All-self, ap, subst,
}
use dippin_lang.Search.{Adjacency, successors, size, Frontier, enqueue, bfs_loop, bfs}

-- The walks from `src` along the map.
pub data Walk (adj : Adjacency) (src : Str) : Str → Type 0 where
  here : Walk adj src src
  step : {u v : Str} → Walk adj src u → In v (successors adj u) → Walk adj src v

-- The entries of all lists that are not yet visited, as often as they stand.
abbrev unvisited_in : List Str → List Str → ℕ
unvisited_in seen [] = 0
unvisited_in seen (v ∷ vs) =
    if contains seen v then unvisited_in seen vs else suc (unvisited_in seen vs)

abbrev unvisited : List Str → Adjacency → ℕ
unvisited seen [] = 0
unvisited seen ((u, vs) ∷ adj) = unvisited_in seen vs + unvisited seen adj

unvisited_in-le : (x : Str) (seen vs : List Str) → unvisited_in (x ∷ seen) vs ≤ unvisited_in seen vs
unvisited_in-le x seen [] = omega arith
unvisited_in-le x seen (v ∷ vs) =
    ground (arith, unvisited_in-le x seen vs, contains_iff (x ∷ seen) v, contains_iff seen v)

unvisited_in-lt :
    (x : Str) (seen vs : List Str)
    → In x vs
    → contains seen x ≡ false
    → unvisited_in (x ∷ seen) vs < unvisited_in seen vs
unvisited_in-lt x seen [] m h = absurd m
unvisited_in-lt x seen (v ∷ vs) m h = ground (
  arith,
  unvisited_in-lt x seen vs,
  unvisited_in-le x seen vs,
  contains_iff (x ∷ seen) v,
  contains_iff seen v,
)

unvisited-le :
    (x : Str) (seen : List Str) (adj : Adjacency) → unvisited (x ∷ seen) adj ≤ unvisited seen adj
unvisited-le x seen [] = omega arith
unvisited-le x seen ((u, vs) ∷ adj) =
    omega (arith, unvisited_in-le x seen vs, unvisited-le x seen adj)

unvisited-lt :
    (x u : Str) (seen : List Str) (adj : Adjacency)
    → In x (successors adj u)
    → contains seen x ≡ false
    → unvisited (x ∷ seen) adj < unvisited seen adj
unfolding successors
unvisited-lt x u seen [] m h = absurd m
unvisited-lt x u seen ((j, vs) ∷ adj) m h = ground (
  arith,
  unvisited-lt x u seen adj,
  unvisited_in-lt x seen vs,
  unvisited_in-le x seen vs,
  unvisited-le x seen adj,
)

unvisited_in-size : (seen vs : List Str) → unvisited_in seen vs ≤ length vs
unvisited_in-size seen [] = omega arith
unvisited_in-size seen (v ∷ vs) = ground (arith, unvisited_in-size seen vs)

unvisited-size : (seen : List Str) (adj : Adjacency) → unvisited seen adj ≤ size adj
unvisited-size seen [] = omega arith
unvisited-size seen ((u, vs) ∷ adj) =
    omega (arith, unvisited_in-size seen vs, unvisited-size seen adj)

-- What the inner loop does to the marks, the queue and the measure.
In-visited-enqueue :
    (vs : List Str) (s : Frontier) (x : Str)
    → In x (enqueue vs s).visited ↔ (In x s.visited ⊎ In x vs)
unfolding enqueue
In-visited-enqueue [] s x = ground arith
In-visited-enqueue (v ∷ vs) s x = ground (
  arith,
  In-visited-enqueue vs s x,
  In-visited-enqueue vs (record { visited = v ∷ s.visited; queue = s.queue ++ v ∷ [] }) x,
  contains_iff s.visited v,
)

In-queue-enqueue :
    (vs : List Str) (s : Frontier) (x : Str)
    → In x (enqueue vs s).queue ↔ (In x s.queue ⊎ (In x vs × (¬ In x s.visited)))
unfolding enqueue
In-queue-enqueue [] s x = ground arith
In-queue-enqueue (v ∷ vs) s x = ground (
  arith,
  In-queue-enqueue vs s x,
  In-queue-enqueue vs (record { visited = v ∷ s.visited; queue = s.queue ++ v ∷ [] }) x,
  contains_iff s.visited v,
  contains_iff s.visited x,
  ==_iff x v,
  In-append x s.queue (v ∷ []),
)

Distinct-enqueue :
    (vs : List Str) (s : Frontier) → Distinct s.visited → Distinct (enqueue vs s).visited
unfolding enqueue
Distinct-enqueue [] s d = d
Distinct-enqueue (v ∷ vs) s d = ground (
  arith,
  Distinct-enqueue vs s,
  Distinct-enqueue vs (record { visited = v ∷ s.visited; queue = s.queue ++ v ∷ [] }),
  contains_iff s.visited v,
)

module _ (adj : Adjacency) where
  -- Each entry of the queue and each entry still to be visited costs a round.
  abbrev work : Frontier → ℕ
  work s = unvisited s.visited adj + length s.queue

  work-enqueue :
      (u : Str) (vs : List Str) (s : Frontier)
      → All (λ v. In v (successors adj u)) vs
      → work (enqueue vs s) ≤ work s
  unfolding enqueue
  work-enqueue u [] s h = omega arith
  work-enqueue u (v ∷ vs) s h = ground (
    arith,
    work-enqueue u vs s h.1,
    work-enqueue u vs (record { visited = v ∷ s.visited; queue = s.queue ++ v ∷ [] }) h.1,
    unvisited-lt v u s.visited adj h.0,
    length-append s.queue (v ∷ []),
  )

  module _ (src : Str) where
    record Inv (s : Frontier) : Type 0 where
      source : In src s.visited
      queued : (x : Str) → In x s.queue → In x s.visited
      sound : (x : Str) → In x s.visited → Walk adj src x
      closed :
          (u v : Str) → In u s.visited → In v (successors adj u) → In u s.queue ⊎ In v s.visited
      distinct : Distinct s.visited

    Inv-expand :
        (s : Frontier) (u : Str) (rest : List Str)
        → s.queue ≡ u ∷ rest
        → Inv s
        → Inv (enqueue (successors adj u) (record { visited = s.visited; queue = rest }))
    Inv-expand s u rest e h =
        let s' : Frontier = record { visited = s.visited; queue = rest } in
        let vs = successors adj u in
        let marks = λ (x : Str). In-visited-enqueue vs s' x in
        let waits = λ (x : Str). In-queue-enqueue vs s' x in
        let front : In u s.queue = rw e (inl refl) in
        record {
          source = (marks src).1 (inl h.source);
          queued = λ x q. ground (arith, marks x, waits x, h.queued x, e);
          sound = λ x m. elim ((marks x).0 m) [
            | inl old ↦ h.sound x old
            | inr new ↦ step (h.sound u (h.queued u front)) new
          ];
          closed = λ x v m edge.
              ground (arith, marks x, marks v, waits x, h.closed x v, contains_iff s.visited x, e);
          distinct = Distinct-enqueue vs s' h.distinct;
        }

    Inv-start : Inv (record { visited = src ∷ []; queue = src ∷ [] })
    Inv-start = record {
      source = inl refl;
      queued = λ x q. q;
      sound = λ x m. elim m [ inl e ↦ rw e here | inr f ↦ absurd f ];
      closed = λ u v m edge. inl m;
      distinct = (λ f. f, tt);
    }

    -- With an empty queue the visited set is closed under the map.
    complete : (s : Frontier) → Inv s → s.queue ≡ [] → {x : Str} → Walk adj src x → In x s.visited
    complete s h e here = h.source
    complete s h e (step {u} {v} p edge) = elim (h.closed u v (complete s h e p) edge) [
      | inl waiting ↦ absurd (subst (In u) e waiting)
      | inr m ↦ m
    ]

    -- The loop stops at an empty queue, with the marks of a frontier that keeps the invariant.
    bfs_loop_ends :
        (fuel : ℕ) (s : Frontier)
        → work s < fuel
        → Inv s
        → (t : Frontier) × (bfs_loop fuel adj s ≡ t.visited) × Inv t × (t.queue ≡ [])
    unfolding bfs_loop
    bfs_loop_ends zero s w h = absurd (omega arith)
    bfs_loop_ends (suc fuel) s w h = elim (List-cases s.queue) [
      | inl empty ↦ (s, rw (empty, bfs_loop) refl, h, empty)
      | inr (u, rest, e) ↦
          let s' : Frontier = record { visited = s.visited; queue = rest } in
          let vs = successors adj u in
          let less : work (enqueue vs s') < fuel =
            omega (arith, work-enqueue u vs s' (All-self vs), ap length e) in
          let (t, ends, inv, empty) =
            bfs_loop_ends fuel (enqueue vs s') less (Inv-expand s u rest e h) in
          (t, rw (e, bfs_loop) ends, inv, empty)
    ]

    bfs_ends : (t : Frontier) × (bfs src adj ≡ t.visited) × Inv t × (t.queue ≡ [])
    unfolding bfs
    bfs_ends =
        bfs_loop_ends (size adj + 2) (record { visited = src ∷ []; queue = src ∷ [] })
          (omega (arith, unvisited-size (src ∷ []) adj)) Inv-start

  -- The search from `src` visits a node exactly if the map has a walk to it from `src`.
  pub bfs_iff_Walk : (src x : Str) → In x (bfs src adj) ↔ Walk adj src x
  bfs_iff_Walk src x =
      let (t, e, inv, empty) = bfs_ends src in
      (λ m. inv.sound x (subst (In x) e m), λ p. rw e (complete src t inv empty p))

  pub bfs-Distinct : (src : Str) → Distinct (bfs src adj)
  bfs-Distinct src = let (t, e, inv, empty) = bfs_ends src in rw e inv.distinct
