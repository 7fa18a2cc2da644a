-- ===== src/Search/Colors.antt =====
-- The three colours of a depth-first search, as validator/validate.go and dipx/resolve.go keep them in
-- a map, and the orders in which such a search blackens the nodes.
use dippin_lang.Base.{
  Str, List, [], ◌∷◌, ◌≡◌, ◌↔◌, ◌⊎◌, inl, inr, refl, subst, arith, In, Map, lookup, insert,
  lookup-insert, ◌==◌, ==_iff, Option, none, some, if◌then◌else◌,
}
use dippin_lang.Search.{Adjacency, successors}
use dippin_lang.Search.Correct.{Walk, here, step}

pub data Color : Type 0 where
  white gray black : Color

pub Color-cases : (c : Color) → (c ≡ white) ⊎ ((c ≡ gray) ⊎ (c ≡ black))
Color-cases white = inl refl
Color-cases gray = inr (inl refl)
Color-cases black = inr (inr refl)

abbrev pub color_or_white : Option Color → Color
color_or_white none = white
color_or_white (some c) = c

-- color[node]: white where the key is missing
unfoldable pub color_of : Str → Map Color → Color
color_of node m = color_or_white (lookup node m)

-- color[node] = c
unfoldable pub paint : Str → Color → Map Color → Map Color
paint node c m = insert node c m

pub color_of-paint :
    (node x : Str) (c : Color) (m : Map Color)
    → color_of x (paint node c m) ≡ (if x == node then c else color_of x m)
unfolding color_of paint
color_of-paint node x c m = rw (lookup-insert node x c m) (ground arith)

-- A way from `v` back to `v`, along one edge or more.
abbrev pub IsOnCycle : Adjacency → Str → Type 0
IsOnCycle adj v = (u : Str) × Walk adj v u × In v (successors adj u)

-- Every successor of a node stands behind it.
abbrev pub IsOrdered : Adjacency → List Str → Type 0
IsOrdered adj [] = Unit
IsOrdered adj (v ∷ done) =
    (¬ In v done) × ((x : Str) → In x (successors adj v) → In x done) × IsOrdered adj done

module _ (adj : Adjacency) where
  IsOrdered-closed :
      (done : List Str) (v x : Str)
      → IsOrdered adj done
      → In v done
      → In x (successors adj v)
      → In x done
  IsOrdered-closed [] v x o m s = absurd m
  IsOrdered-closed (d ∷ done) v x o (inl e) s =
      inr (o.1 x (subst (λ y. In x (successors adj y)) e s))
  IsOrdered-closed (d ∷ done) v x o (inr m) s = inr (IsOrdered-closed done v x o.2 m s)

  pub IsOrdered-Walk :
      (done : List Str) {v x : Str} → IsOrdered adj done → In v done → Walk adj v x → In x done
  IsOrdered-Walk done o m here = m
  IsOrdered-Walk done o m (step {u} {v} p s) =
      IsOrdered-closed done u v o (IsOrdered-Walk done o m p) s

  -- From the head of an order, a walk stays there or leads behind it.
  behind :
      (done : List Str) (a : Str) {x : Str}
      → IsOrdered adj (a ∷ done)
      → Walk adj a x
      → (x ≡ a) ⊎ In x done
  behind done a o here = inl refl
  behind done a o (step {u} {v} p s) = elim (behind done a o p) [
    | inl e ↦ inr (o.1 v (subst (λ y. In v (successors adj y)) e s))
    | inr m ↦ inr (IsOrdered-closed done u v o.2 m s)
  ]

  pub IsOrdered-no_cycle :
      (done : List Str) (v : Str) → IsOrdered adj done → In v done → ¬ IsOnCycle adj v
  IsOrdered-no_cycle [] v o m c = m
  IsOrdered-no_cycle (d ∷ done) v o (inr m) c = IsOrdered-no_cycle done v o.2 m c
  IsOrdered-no_cycle (d ∷ done) v o (inl e) (u, p, s) =
      o.0 (elim (behind done d o (subst (λ y. Walk adj y u) e p)) [
        | inl same ↦
            o.1 d
              (subst (λ y. In d (successors adj y)) same (subst (λ y. In y (successors adj u)) e s))
        | inr m ↦ IsOrdered-closed done u d o.2 m (subst (λ y. In y (successors adj u)) e s)
      ])

-- The black nodes are those of an order.
pub record Done (adj : Adjacency) (done : List Str) (m : Map Color) : Type 0 where
  pub ordered : IsOrdered adj done
  pub blackened : (x : Str) → (color_of x m ≡ black) ↔ In x done

-- From the colours `m` to `k`: the gray nodes are the same, and the black ones are more.
pub record Finished (adj : Adjacency) (done : List Str) (m k : Map Color) : Type 0 where
  pub order : List Str
  pub is_done : Done adj order k
  pub grows : (x : Str) → In x done → In x order
  pub grays : (x : Str) → (color_of x k ≡ gray) ↔ (color_of x m ≡ gray)

abbrev pub finished_refl :
    {adj : Adjacency} {done : List Str} {m : Map Color} → Done adj done m → Finished adj done m m
finished_refl {done} d = record {
  order = done;
  is_done = d;
  grows = λ x h. h;
  grays = λ x. (λ h. h, λ h. h);
}

abbrev pub finished_trans :
    {adj : Adjacency} {done : List Str} {m k l : Map Color} (f : Finished adj done m k)
    → Finished adj f.order k l
    → Finished adj done m l
finished_trans f g = record {
  order = g.order;
  is_done = g.is_done;
  grows = λ x h. g.grows x (f.grows x h);
  grays = λ x. (λ h. (f.grays x).0 ((g.grays x).0 h), λ h. (g.grays x).1 ((f.grays x).1 h));
}

-- A white node is painted gray.
pub Done-gray :
    {adj : Adjacency} {done : List Str} {m : Map Color} (node : Str)
    → color_of node m ≡ white
    → Done adj done m
    → Done adj done (paint node gray m)
Done-gray {m = m} node h d = record {
  ordered = d.ordered;
  blackened = λ x.
      ground (arith, color_of-paint node x gray m, ==_iff x node, d.blackened x, d.blackened node);
}

-- Its successors are black: it is painted black too.
abbrev pub finished_black :
    {adj : Adjacency} {done : List Str} {m k : Map Color} (node : Str)
    → color_of node m ≡ white
    → (f : Finished adj done (paint node gray m) k)
    → ((x : Str) → In x (successors adj node) → In x f.order)
    → Finished adj done m (paint node black k)
finished_black {adj} {m = m} {k = k} node h f all = record {
  order = node ∷ f.order;
  is_done = record {
    ordered = (
      ground (
        arith,
        f.is_done.blackened node,
        f.grays node,
        color_of-paint node node gray m,
        ==_iff node node,
      ),
      all,
      f.is_done.ordered,
    );
    blackened =
        λ x. ground (arith, color_of-paint node x black k, ==_iff x node, f.is_done.blackened x);
  };
  grows = λ x i. inr (f.grows x i);
  grays = λ x. ground (
    arith,
    color_of-paint node x black k,
    color_of-paint node x gray m,
    ==_iff x node,
    f.grays x,
  );
}

-- What is white at the end was white before.
pub Finished-white :
    {adj : Adjacency} {done : List Str} {m k : Map Color} (x : Str)
    → Done adj done m
    → Finished adj done m k
    → color_of x k ≡ white
    → color_of x m ≡ white
Finished-white {m = m} {k = k} x d f e =
    ground (
      arith,
      Color-cases (color_of x m),
      d.blackened x,
      f.grows x,
      f.is_done.blackened x,
      f.grays x,
    )
