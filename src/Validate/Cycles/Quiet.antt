-- ===== src/Validate/Cycles/Quiet.antt =====
-- The cycle search of DIP005 where no cycle can be reached: its gray nodes lead to the current one.
use dippin_lang.Base.{
  Str, ℕ, zero, suc, ◌+◌, List, [], ◌∷◌, ◌≡◌, ◌↔◌, ◌⊎◌, inl, inr, refl, sym, subst, arith, In,
  ==_iff, insert, lookup,
}
use dippin_lang.Ir.{Node}
use dippin_lang.Ir.Arc.{ids}
use dippin_lang.Search.{Adjacency, successors, size}
use dippin_lang.Search.Correct.{Walk, here, step}
use dippin_lang.Search.Colors.{white, gray, black, color_of, color_of-paint, Color-cases, IsOnCycle}
use dippin_lang.Validate.Cycles.{
  Detector, process_neighbor, process_all, set_color, visit, visit_nodes, new_detector,
}
use dippin_lang.Validate.Cycles.Silent.{
  IsSilent, process_neighbor-white, process_neighbor-black, process_neighbor-gray,
  report_back_edge-color,
}

abbrev pub IsGray : Detector → Str → Type 0
IsGray s x = color_of x s.color ≡ gray

-- The gray nodes are the same before and after.
abbrev SameGray : Detector → Detector → Type 0
SameGray s t = (x : Str) → IsGray t x ↔ IsGray s x

-- A visit of a white node ends with the gray nodes that it began with.
abbrev KeepsGray : (Str → Detector → Detector) → Type 0
KeepsGray f = (node : Str) (s : Detector) → color_of node s.color ≡ white → SameGray s (f node s)

process_neighbor-SameGray :
    (f : Str → Detector → Detector)
    → KeepsGray f
    → (node next : Str) (s : Detector) → SameGray s (process_neighbor f node next s)
process_neighbor-SameGray f k node next s x = elim (Color-cases (color_of next s.color)) [
  | inl e ↦
      rw (process_neighbor-white f node next s e)
        (k next (record s { parent = insert next node s.parent }) e x)
  | inr (inl e) ↦
      rw (process_neighbor-gray f node next s e)
        (rw (report_back_edge-color node next s) (λ h. h, λ h. h))
  | inr (inr e) ↦ rw (process_neighbor-black f node next s e) (λ h. h, λ h. h)
]

process_all-SameGray :
    (f : Str → Detector → Detector)
    → KeepsGray f
    → (node : Str) (rest : List Str) (s : Detector) → SameGray s (process_all f node rest s)
unfolding process_all
process_all-SameGray f k node [] s x = (λ h. h, λ h. h)
process_all-SameGray f k node (next ∷ rest) s x =
    let t = process_neighbor f node next s in
    let (to, of) = process_all-SameGray f k node rest t x in
    let (to', of') = process_neighbor-SameGray f k node next s x in
    (λ h. to' (to h), λ h. of (of' h))

visit-KeepsGray : (room : ℕ) (adj : Adjacency) → KeepsGray (visit room adj)
unfolding visit
visit-KeepsGray zero adj node s e x = (λ h. h, λ h. h)
visit-KeepsGray (suc room) adj node s e x =
    let t = process_all (visit room adj) node (successors adj node) (set_color node gray s) in
    let kept =
      process_all-SameGray (visit room adj) (visit-KeepsGray room adj) node (successors adj node)
        (set_color node gray s) x in
    ground (
      arith,
      kept,
      color_of-paint node x gray s.color,
      color_of-paint node x black t.color,
      ==_iff x node,
      e,
    )

module _ (adj : Adjacency) (Rooted : Str → Type 0)
    (spreads : (u v : Str) → Rooted u → In v (successors adj u) → Rooted v)
    (none_there : (v : Str) → Rooted v → ¬ IsOnCycle adj v) where
  -- Each gray node has a walk to the current one.
  abbrev Leads : Detector → Str → Type 0
  Leads s node = (x : Str) → IsGray s x → Walk adj x node

  abbrev KeepsSilent : (Str → Detector → Detector) → Type 0
  KeepsSilent f =
      (node : Str) (s : Detector)
      → Rooted node
      → color_of node s.color ≡ white
      → Leads s node
      → IsSilent s
      → IsSilent (f node s)

  process_neighbor_quiet :
      (f : Str → Detector → Detector)
      → KeepsSilent f
      → (node next : Str) (s : Detector) → Rooted node
      → In next (successors adj node)
      → Leads s node
      → IsSilent s
      → IsSilent (process_neighbor f node next s)
  process_neighbor_quiet f k node next s r i lead h = elim (Color-cases (color_of next s.color)) [
    | inl e ↦ rw (process_neighbor-white f node next s e) (
        k next (record s { parent = insert next node s.parent }) (spreads node next r i) e
          (λ x g. step (lead x g) i) h)
    | inr (inl e) ↦ absurd (none_there next (spreads node next r i) (node, lead next e, i))
    | inr (inr e) ↦ rw (process_neighbor-black f node next s e) h
  ]

  process_all_quiet :
      (f : Str → Detector → Detector)
      → KeepsSilent f
      → KeepsGray f
      → (node : Str) (rest : List Str) (s : Detector) → Rooted node
      → ((x : Str) → In x rest → In x (successors adj node))
      → Leads s node
      → IsSilent s
      → IsSilent (process_all f node rest s)
  unfolding process_all
  process_all_quiet f k keeps node [] s r sub lead h = h
  process_all_quiet f k keeps node (next ∷ rest) s r sub lead h =
      process_all_quiet f k keeps node rest (process_neighbor f node next s) r
        (λ x i. sub x (inr i))
        (λ x g. lead x ((process_neighbor-SameGray f keeps node next s x).0 g))
        (process_neighbor_quiet f k node next s r (sub next (inl refl)) lead h)

  visit_quiet : (room : ℕ) → KeepsSilent (visit room adj)
  unfolding visit
  visit_quiet zero node s r e lead h = h
  visit_quiet (suc room) node s r e lead h =
      process_all_quiet (visit room adj) (visit_quiet room) (visit-KeepsGray room adj) node
        (successors adj node) (set_color node gray s) r (λ x i. i) leads_now h
    where
      leads_now : (x : Str) → IsGray (set_color node gray s) x → Walk adj x node
      leads_now x g = elim (now x g) [
        | inl e' ↦ subst (λ y. Walk adj y node) (sym e') here
        | inr g' ↦ lead x g'
      ]
        where
          now : (x : Str) → IsGray (set_color node gray s) x → (x ≡ node) ⊎ IsGray s x
          now x g = ground (arith, color_of-paint node x gray s.color, ==_iff x node, g)

  pub visit_nodes_quiet :
      (ns : List Node) (s : Detector)
      → ((x : Str) → In x (ids ns) → Rooted x)
      → ((x : Str) → ¬ IsGray s x)
      → IsSilent s
      → IsSilent (visit_nodes adj ns s)
  unfolding visit_nodes
  visit_nodes_quiet [] s roots none_gray h = h
  visit_nodes_quiet (n ∷ ns) s roots none_gray h = elim (Color-cases (color_of n.id s.color)) [
    | inl e ↦
        rw (e, visit_nodes)
          (visit_nodes_quiet ns (visit (size adj + 1) adj n.id s) (λ x i. roots x (inr i))
            (λ x g. none_gray x ((visit-KeepsGray (size adj + 1) adj n.id s e x).0 g))
            (visit_quiet (size adj + 1) n.id s (roots n.id (inl refl)) e
              (λ x g. absurd (none_gray x g)) h))
    | inr (inl e) ↦ absurd (none_gray n.id e)
    | inr (inr e) ↦
        rw (e, visit_nodes) (visit_nodes_quiet ns s (λ x i. roots x (inr i)) none_gray h)
  ]

-- Nothing is gray at the start.
pub new-IsGray : (x : Str) → ¬ IsGray new_detector x
unfolding color_of lookup
new-IsGray x h = ground arith
