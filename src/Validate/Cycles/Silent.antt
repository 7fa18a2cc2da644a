-- ===== src/Validate/Cycles/Silent.antt =====
-- The cycle search of DIP005 step by step: its diagnostics, and the colour of a neighbour.
use dippin_lang.Base.{
  Str, ℕ, zero, suc, List, [], ◌∷◌, ◌≡◌, inl, inr, arith, contains, append-eq_nil, insert,
}
use dippin_lang.Search.{Adjacency, successors}
use dippin_lang.Search.Colors.{white, gray, black, color_of, Color-cases}
use dippin_lang.Validate.Defs.{cycle}
use dippin_lang.Validate.Cycles.{
  Detector, reconstruct_cycle, report_back_edge, process_neighbor, process_all, set_color, visit,
}

abbrev pub IsSilent : Detector → Type 0
IsSilent s = s.diags ≡ []

-- Diagnostics stay.
abbrev pub Keeps : (Str → Detector → Detector) → Type 0
Keeps f = (node : Str) (s : Detector) → IsSilent (f node s) → IsSilent s

report_back_edge-IsSilent :
    (node next : Str) (s : Detector) → IsSilent (report_back_edge node next s) → IsSilent s
unfolding report_back_edge
report_back_edge-IsSilent node next s h = ground (
  arith,
  Color-cases (color_of next s.color),
  append-eq_nil s.diags (cycle (reconstruct_cycle s.parent node next) ∷ []),
)

pub process_neighbor-IsSilent :
    (f : Str → Detector → Detector)
    → Keeps f
    → (node next : Str) (s : Detector) → IsSilent (process_neighbor f node next s)
    → IsSilent s
unfolding process_neighbor
process_neighbor-IsSilent f k node next s h =
    let s' = report_back_edge node next s in
    elim (Color-cases (color_of next s'.color)) [
      | inl e ↦ report_back_edge-IsSilent node next s (
          k next (record s' { parent = insert next node s'.parent })
            (rw (e, process_neighbor) at h))
      | inr (inl e) ↦ report_back_edge-IsSilent node next s (rw (e, process_neighbor) at h)
      | inr (inr e) ↦ report_back_edge-IsSilent node next s (rw (e, process_neighbor) at h)
    ]

pub process_all-IsSilent :
    (f : Str → Detector → Detector)
    → Keeps f
    → (node : Str) (rest : List Str) (s : Detector) → IsSilent (process_all f node rest s)
    → IsSilent s
unfolding process_all
process_all-IsSilent f k node [] s h = h
process_all-IsSilent f k node (next ∷ rest) s h =
    process_neighbor-IsSilent f k node next s
      (process_all-IsSilent f k node rest (process_neighbor f node next s) h)

pub visit-IsSilent : (room : ℕ) (adj : Adjacency) → Keeps (visit room adj)
unfolding visit
visit-IsSilent zero adj node s h = h
visit-IsSilent (suc room) adj node s h =
    process_all-IsSilent (visit room adj) (visit-IsSilent room adj) node (successors adj node)
      (set_color node gray s) h

-- What processNeighbor does by the neighbour's colour.
pub process_neighbor-white :
    (f : Str → Detector → Detector) (node next : Str) (s : Detector)
    → color_of next s.color ≡ white
    → process_neighbor f node next s ≡ f next (record s { parent = insert next node s.parent })
unfolding process_neighbor report_back_edge
process_neighbor-white f node next s e = ground (arith, e)

pub process_neighbor-black :
    (f : Str → Detector → Detector) (node next : Str) (s : Detector)
    → color_of next s.color ≡ black
    → process_neighbor f node next s ≡ s
unfolding process_neighbor report_back_edge
process_neighbor-black f node next s e = ground (arith, e)

pub process_neighbor-gray :
    (f : Str → Detector → Detector) (node next : Str) (s : Detector)
    → color_of next s.color ≡ gray
    → process_neighbor f node next s ≡ report_back_edge node next s
unfolding process_neighbor report_back_edge
process_neighbor-gray f node next s e = ground (arith, e)

pub report_back_edge-gray :
    (node next : Str) (s : Detector)
    → color_of next s.color ≡ gray
    → s.reported ≡ []
    → ¬ IsSilent (report_back_edge node next s)
unfolding report_back_edge contains
report_back_edge-gray node next s e r h =
    ground (arith, e, append-eq_nil s.diags (cycle (reconstruct_cycle s.parent node next) ∷ []))

pub report_back_edge-color :
    (node next : Str) (s : Detector) → (report_back_edge node next s).color ≡ s.color
unfolding report_back_edge
report_back_edge-color node next s = ground (arith, Color-cases (color_of next s.color))
