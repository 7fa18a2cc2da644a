-- ===== src/Validate/Cycles/Ordered.antt =====
-- Where the cycle search reports nothing, it puts the nodes in an order.
use dippin_lang.Base.{
  Str, ℕ, zero, suc, ◌+◌, ◌≤◌, ◌<◌, List, [], ◌∷◌, ◌≡◌, inl, inr, refl, sym, subst, lookup, arith,
  In, Map, ==_iff, insert,
}
use dippin_lang.Search.{Adjacency, successors, size}
use dippin_lang.Search.Colors.{
  Color, white, gray, color_of, paint, color_of-paint, Color-cases, Done, Finished, finished_refl,
  finished_trans, Done-gray, finished_black, Finished-white,
}
use dippin_lang.Search.Whites.{whites, whites_mono, whites_drop}
use dippin_lang.Validate.Cycles.{Detector, process_neighbor, process_all, set_color, visit}
use dippin_lang.Ir.{Node}
use dippin_lang.Ir.Arc.{ids}
use dippin_lang.Search.Colors.{IsOnCycle, IsOrdered-no_cycle, IsOrdered-Walk}
use dippin_lang.Search.Correct.{Walk}
use dippin_lang.Search.Whites.{whites-le-size}
use dippin_lang.Validate.Cycles.{visit_nodes, new_detector}
use dippin_lang.Validate.Cycles.Quiet.{new-IsGray}
use dippin_lang.Validate.Cycles.Silent.{
  IsSilent, Keeps, visit-IsSilent, report_back_edge-gray, process_all-IsSilent,
  process_neighbor-white, process_neighbor-black, process_neighbor-gray,
}

-- A part of the search that reports nothing, from the colours that it starts at.
record Passed (adj : Adjacency) (done : List Str) (m : Map Color) (t : Detector) : Type 0 where
  reported : t.reported ≡ []
  finished : Finished adj done m t.color

abbrev passed_trans :
    {adj : Adjacency} {done : List Str} {m : Map Color} {t u : Detector} (p : Passed adj done m t)
    → Passed adj p.finished.order t.color u
    → Passed adj done m u
passed_trans p q = record { reported = q.reported; finished = finished_trans p.finished q.finished }

module _ (adj : Adjacency) where
  -- What a visit of a white node does, with the measure that it may need.
  abbrev Visits : ℕ → (Str → Detector → Detector) → Type 0
  Visits room f =
      (node : Str) (s : Detector) (done : List Str)
      → Done adj done s.color
      → s.reported ≡ []
      → color_of node s.color ≡ white
      → whites (paint node gray s.color) adj < room
      → IsSilent (f node s)
      → (p : Passed adj done s.color (f node s)) × In node p.finished.order

  paint_keeps :
      (node x : Str) (c : Color) (m : Map Color)
      → ¬ (c ≡ white)
      → color_of x (paint node c m) ≡ white
      → color_of x m ≡ white
  paint_keeps node x c m h e = ground (arith, color_of-paint node x c m, h)

  neighbor_Passed :
      (room : ℕ) (f : Str → Detector → Detector)
      → Visits room f
      → (node next : Str) (s : Detector) (done : List Str) → Done adj done s.color
      → s.reported ≡ []
      → In next (successors adj node)
      → whites s.color adj ≤ room
      → IsSilent (process_neighbor f node next s)
      → (p : Passed adj done s.color (process_neighbor f node next s)) × In next p.finished.order
  neighbor_Passed room f visits node next s done d r i enough h =
      elim (Color-cases (color_of next s.color)) [
        | inl e ↦
            let same = process_neighbor-white f node next s e in
            let s' = record s { parent = insert next node s.parent } in
            let after : ¬ (color_of next (paint next gray s.color) ≡ white) =
              ground (arith, color_of-paint next next gray s.color, ==_iff next next) in
            let drop : whites (paint next gray s.color) adj < room = omega (
              arith,
              enough,
              whites_drop s.color (paint next gray s.color)
                  (λ x. paint_keeps next x gray s.color (λ g. ground arith)) next e after node adj
                  i,
            ) in
            rw same (visits next s' done d r e drop (rw same at h))
        | inr (inl e) ↦ absurd (
            report_back_edge-gray node next s e r (rw (process_neighbor-gray f node next s e) at h))
        | inr (inr e) ↦
            rw (process_neighbor-black f node next s e)
              (record { reported = r; finished = finished_refl d }, (d.blackened next).0 e)
      ]

  all_Passed :
      (room : ℕ) (f : Str → Detector → Detector)
      → Visits room f
      → Keeps f
      → (node : Str) (rest : List Str) (s : Detector) (done : List Str) → Done adj done s.color
      → s.reported ≡ []
      → ((x : Str) → In x rest → In x (successors adj node))
      → whites s.color adj ≤ room
      → IsSilent (process_all f node rest s)
      → (p : Passed adj done s.color (process_all f node rest s)) × ((x : Str)
          → In x rest
          → In x p.finished.order)
  unfolding process_all
  all_Passed room f visits keeps node [] s done d r sub enough h =
      (record { reported = r; finished = finished_refl d }, λ x i. absurd i)
  all_Passed room f visits keeps node (next ∷ rest) s done d r sub enough h =
      let t = process_neighbor f node next s in
      let quiet = process_all-IsSilent f keeps node rest t h in
      let (p, m) =
        neighbor_Passed room f visits node next s done d r (sub next (inl refl)) enough quiet in
      let left = whites_mono s.color t.color (λ x. Finished-white x d p.finished) adj in
      let (q, all) =
        all_Passed room f visits keeps node rest t p.finished.order p.finished.is_done p.reported
          (λ x i. sub x (inr i)) (omega (arith, left, enough)) h in
      (
        passed_trans p q,
        λ x i. elim i [
          | inl e ↦ q.finished.grows x (subst (λ y. In y p.finished.order) (sym e) m)
          | inr j ↦ all x j
        ],
      )

  visit_Passed : (room : ℕ) → Visits room (visit room adj)
  unfolding visit
  visit_Passed zero node s done d r e enough h = absurd (omega (arith, enough))
  visit_Passed (suc room) node s done d r e enough h =
      let (p, all) =
        all_Passed room (visit room adj) (visit_Passed room) (visit-IsSilent room adj) node
          (successors adj node) (set_color node gray s) done (Done-gray node e d) r (λ x i. i)
          (omega (arith, enough)) h in
      (record { reported = p.reported; finished = finished_black node e p.finished all }, inl refl)

  visit_nodes-IsSilent :
      (ns : List Node) (s : Detector) → IsSilent (visit_nodes adj ns s) → IsSilent s
  unfolding visit_nodes
  visit_nodes-IsSilent [] s h = h
  visit_nodes-IsSilent (n ∷ ns) s h = elim (Color-cases (color_of n.id s.color)) [
    | inl e ↦
        visit-IsSilent (size adj + 1) adj n.id s
          (visit_nodes-IsSilent ns (visit (size adj + 1) adj n.id s) (rw (e, visit_nodes) at h))
    | inr (inl e) ↦ visit_nodes-IsSilent ns s (rw (e, visit_nodes) at h)
    | inr (inr e) ↦ visit_nodes-IsSilent ns s (rw (e, visit_nodes) at h)
  ]

  -- Between two visits of the main loop no node is gray.
  roots_Passed :
      (ns : List Node) (s : Detector) (done : List Str)
      → Done adj done s.color
      → s.reported ≡ []
      → ((x : Str) → ¬ (color_of x s.color ≡ gray))
      → IsSilent (visit_nodes adj ns s)
      → (p : Passed adj done s.color (visit_nodes adj ns s)) × ((x : Str)
          → In x (ids ns)
          → In x p.finished.order)
  unfolding visit_nodes
  roots_Passed [] s done d r none_gray h =
      (record { reported = r; finished = finished_refl d }, λ x i. absurd i)
  roots_Passed (n ∷ ns) s done d r none_gray h = elim (Color-cases (color_of n.id s.color)) [
    | inl e ↦
        let t = visit (size adj + 1) adj n.id s in
        let h' : IsSilent (visit_nodes adj ns t) = rw (e, visit_nodes) at h in
        let (p, m) =
          visit_Passed (size adj + 1) n.id s done d r e
            (omega (arith, whites-le-size (paint n.id gray s.color) adj))
            (visit_nodes-IsSilent ns t h') in
        let (q, all) =
          roots_Passed ns t p.finished.order p.finished.is_done p.reported
            (λ x g. none_gray x ((p.finished.grays x).0 g)) h' in
        rw (e, visit_nodes)
          (
            passed_trans p q,
            λ x i. elim i [
              | inl same ↦ q.finished.grows x (subst (λ y. In y p.finished.order) (sym same) m)
              | inr j ↦ all x j
            ],
          )
    | inr (inl e) ↦ absurd (none_gray n.id e)
    | inr (inr e) ↦
        let (q, all) = roots_Passed ns s done d r none_gray (rw (e, visit_nodes) at h) in
        rw (e, visit_nodes)
          (
            q,
            λ x i. elim i [
              | inl same ↦
                  q.finished.grows x (subst (λ y. In y done) (sym same) ((d.blackened n.id).0 e))
              | inr j ↦ all x j
            ],
          )
  ]

  -- Nothing is black at the start.
  new_Done : Done adj [] new_detector.color
  unfolding color_of lookup
  new_Done = record { ordered = tt; blackened = λ x. ground arith }

  pub silent_no_cycle :
      (ns : List Node) (x v : Str)
      → IsSilent (visit_nodes adj ns new_detector)
      → In x (ids ns)
      → Walk adj x v
      → ¬ IsOnCycle adj v
  silent_no_cycle ns x v h i p =
      let (q, all) = roots_Passed ns new_detector [] new_Done refl new-IsGray h in
      let o = q.finished.is_done.ordered in
      IsOrdered-no_cycle adj q.finished.order v o
        (IsOrdered-Walk adj q.finished.order o (all x i) p)
