-- ===== src/Search/Whites.antt =====
-- How many entries of an adjacency map are white: the measure of a depth-first search.
use dippin_lang.Base.{
  Str, ℕ, suc, ◌+◌, ◌≤◌, ◌<◌, List, [], ◌∷◌, ◌≡◌, arith, In, Map, lookup, length, ==_iff,
}
use dippin_lang.Search.{Adjacency, successors, size}
use dippin_lang.Search.Colors.{Color, white, color_of}

abbrev whites_in : Map Color → List Str → ℕ
whites_in m [] = 0
whites_in m (v ∷ vs) = elim (color_of v m) [ white ↦ suc (whites_in m vs) | _ ↦ whites_in m vs ]

abbrev pub whites : Map Color → Adjacency → ℕ
whites m [] = 0
whites m ((u, vs) ∷ adj) = whites_in m vs + whites m adj

whites_in-le_length : (m : Map Color) (vs : List Str) → whites_in m vs ≤ length vs
whites_in-le_length m [] = omega arith
whites_in-le_length m (v ∷ vs) = ground (arith, whites_in-le_length m vs)

pub whites-le-size : (m : Map Color) (adj : Adjacency) → whites m adj ≤ size adj
whites-le-size m [] = omega arith
whites-le-size m ((u, vs) ∷ adj) = omega (arith, whites_in-le_length m vs, whites-le-size m adj)

-- No node becomes white.
module _ (m k : Map Color) (keeps : (x : Str) → color_of x k ≡ white → color_of x m ≡ white) where
  whites_in_mono : (vs : List Str) → whites_in k vs ≤ whites_in m vs
  whites_in_mono [] = omega arith
  whites_in_mono (v ∷ vs) = ground (arith, whites_in_mono vs, keeps v)

  pub whites_mono : (adj : Adjacency) → whites k adj ≤ whites m adj
  whites_mono [] = omega arith
  whites_mono ((u, vs) ∷ adj) = omega (arith, whites_in_mono vs, whites_mono adj)

  -- A node that stands in a list is white no more.
  module _ (x : Str) (before : color_of x m ≡ white) (after : ¬ (color_of x k ≡ white)) where
    whites_in_drop : (vs : List Str) → In x vs → whites_in k vs < whites_in m vs
    whites_in_drop [] i = absurd i
    whites_in_drop (v ∷ vs) i = ground (arith, whites_in_drop vs, whites_in_mono vs, keeps v)

    pub whites_drop :
        (u : Str) (adj : Adjacency) → In x (successors adj u) → whites k adj < whites m adj
    unfolding successors lookup
    whites_drop u [] i = absurd i
    whites_drop u ((v, vs) ∷ adj) i = ground (
      arith,
      whites_in_drop vs,
      whites_in_mono vs,
      whites_mono adj,
      whites_drop u adj,
      ==_iff u v,
    )
