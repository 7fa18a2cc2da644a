-- ===== src/Diff/Same.antt =====
-- What the comparison of two workflows finds, and that a workflow differs from itself in nothing.
use dippin_lang.Base.{
  Str, List, [], ◌∷◌, ◌≡◌, ◌↔◌, ◌⊎◌, inl, inr, refl, sym, ap, subst, ◌∙◌, arith, true, In, All,
  Distinct, Map, lookup, insert, ==_iff, ==-cases, Bool-cases, sort_strings, In-sort_strings, some,
  bytes, ◌==◌, ltb, ◌<◌, suc, ℤ, pos, negsuc,
}
use mathlib.Core.Option.{map}
use dippin_lang.Ir.{
  Workflow, Node, NodeConfig, agent, human, tool, parallel, fan_in, subgraph, conditional,
  manager_loop, unset,
}
use dippin_lang.Ir.Arc.{ids}
use dippin_lang.Diff.{
  FieldChange, EdgeSummary, printed_fields, append_diffs, agent_field_table, agent_fields, itoa,
  max_int, int_to_str, changed_fields, compare_config_fields, compare_node_fields, fill_node_map,
  node_map, is_absent, added_ids, diff_of, diff_at, modified_nodes, sort_diffs, edge_set,
  added_edges, sort_edges, compare,
}

abbrev keys : {V : Type 0} → Map V → List Str
keys [] = []
keys ((k, v) ∷ m) = k ∷ keys m

module _ {V : Type 0} where
  absent_iff : (k : Str) (m : Map V) → (is_absent (lookup k m) ≡ true) ↔ (¬ In k (keys m))
  unfolding lookup
  absent_iff k [] = ground arith
  absent_iff k ((j, v) ∷ m) = ground (arith, absent_iff k m, ==_iff k j)

  keys-insert :
      (x k : Str) (v : V) (m : Map V) → In x (keys (insert k v m)) ↔ ((x ≡ k) ⊎ In x (keys m))
  unfolding insert
  keys-insert x k v [] = ground arith
  keys-insert x k v ((j, w) ∷ m) = ground (arith, keys-insert x k v m, ==_iff k j)

  Distinct-insert :
      (k : Str) (v : V) (m : Map V) → Distinct (keys m) → Distinct (keys (insert k v m))
  unfolding insert
  Distinct-insert k v [] h = ground arith
  Distinct-insert k v ((j, w) ∷ m) h =
      ground (arith, Distinct-insert k v m, ==_iff k j, keys-insert j k v m, h.0, h.1)

node_keys :
    (x : Str) (ns : List Node) (m : Map Node)
    → In x (keys (fill_node_map ns m)) ↔ (In x (ids ns) ⊎ In x (keys m))
unfolding fill_node_map
node_keys x [] m = ground arith
node_keys x (n ∷ ns) m = ground (arith, node_keys x ns (insert n.id n m), keys-insert x n.id n m)

Distinct-node_map :
    (ns : List Node) (m : Map Node) → Distinct (keys m) → Distinct (keys (fill_node_map ns m))
unfolding fill_node_map
Distinct-node_map [] m h = h
Distinct-node_map (n ∷ ns) m h = Distinct-node_map ns (insert n.id n m) (Distinct-insert n.id n m h)

added_ids_iff :
    (x : Str) (a b : Map Node) → In x (added_ids a b) ↔ (In x (keys b) × (¬ In x (keys a)))
unfolding added_ids
added_ids_iff x a [] = ground arith
added_ids_iff x a ((id, n) ∷ b) =
    let later = added_ids_iff x a b in
    elim (Bool-cases (is_absent (lookup id a))) [
      | inl e ↦ rw e (
        λ i. elim i [
          | inl s ↦ (inl s, subst (λ y. ¬ In y (keys a)) (sym s) ((absent_iff id a).0 e))
          | inr j ↦ (inr (later.0 j).0, (later.0 j).1)
        ],
        λ (i, absent). elim i [ inl s ↦ inl s | inr j ↦ inr (later.1 (j, absent)) ],
      )
      | inr e ↦ rw e (
        λ i. (inr (later.0 i).0, (later.0 i).1),
        λ (i, absent). elim i [
          | inl s ↦
              let found = (absent_iff id a).1 (subst (λ y. ¬ In y (keys a)) s absent) in
              absurd (ground (arith, e, found))
          | inr j ↦ later.1 (j, absent)
        ],
      )
    ]

-- The nodes that Compare reports as added are those of the new workflow whose IDs the old one lacks, and those
-- that it reports as removed are those of the old one whose IDs the new one lacks.
pub compare_nodes_iff :
    (old new : Workflow) (id : Str)
    → (In id (compare old new).nodes_added ↔ (In id (ids new.nodes) × (¬ In id (ids old.nodes))))
      × (In id (compare old new).nodes_removed
          ↔ (In id (ids old.nodes) × (¬ In id (ids new.nodes))))
unfolding compare
compare_nodes_iff old new id =
    let in_old = node_keys id old.nodes [] in
    let in_new = node_keys id new.nodes [] in
    let added = added_ids_iff id (node_map old) (node_map new) in
    let removed = added_ids_iff id (node_map new) (node_map old) in
    let sorted = In-sort_strings id (added_ids (node_map old) (node_map new)) in
    let sorted' = In-sort_strings id (added_ids (node_map new) (node_map old)) in
    (
      ground (arith, in_old, in_new, added, sorted),
      ground (arith, in_old, in_new, removed, sorted'),
    )

no_ids : (xs : List Str) → ((x : Str) → ¬ In x xs) → xs ≡ []
no_ids [] h = refl
no_ids (x ∷ xs) h = absurd (h x (inl refl))

no_edges :
    (a b : Map EdgeSummary) → ((k : Str) → In k (keys b) → In k (keys a)) → added_edges a b ≡ []
unfolding added_edges
no_edges a [] h = refl
no_edges a ((k, es) ∷ b) h = elim (Bool-cases (is_absent (lookup k a))) [
  | inl e ↦ absurd ((absent_iff k a).0 e (h k (inl refl)))
  | inr e ↦ rw e (no_edges a b (λ j i. h j (inr i)))
]

-- Above the least integer of 64 bits.
abbrev pub IsAbove : ℤ → Type 0
IsAbove (pos n) = Unit
IsAbove (negsuc n) = n < 9223372036854775807

-- Its numbers can be printed.
abbrev pub IsPrinted : NodeConfig → Type 0
IsPrinted (agent cfg) = IsAbove cfg.max_turns
IsPrinted _ = Unit

itoa-Above : (z : ℤ) → IsAbove z → (s : Str) × (itoa z ≡ some s)
unfolding itoa
itoa-Above (pos n) h = (_, refl)
itoa-Above (negsuc n) h =
    let low : ltb n max_int ≡ true = ground (arith, h) in
    (b'-' ∷ int_to_str (suc (suc n)) (suc n), rw low refl)

-- Where nothing has changed, no row is kept.
abbrev Unchanged : FieldChange → Type 0
Unchanged f = f.old_value ≡ f.new_value

changed_fields-nil : (fs : List FieldChange) → All Unchanged fs → changed_fields fs ≡ []
unfolding changed_fields
changed_fields-nil [] h = refl
changed_fields-nil (f ∷ fs) h =
    let same = (==_iff f.old_value f.new_value).1 h.0 in rw same (changed_fields-nil fs h.1)

config_same : (c : NodeConfig) → IsPrinted c → compare_config_fields c c ≡ some []
config_same (agent cfg) h =
    let (turns, printed) = itoa-Above cfg.max_turns h in
    let turned : agent_field_table cfg cfg ≡ some (agent_fields cfg cfg turns turns) =
      ap (λ o. printed_fields cfg cfg o o) printed in
    ap (map changed_fields) turned
    ∙ ap some (
        changed_fields-nil (agent_fields cfg cfg turns turns)
          (refl, (refl, (refl, (refl, (refl, (refl, tt)))))))
config_same (human cfg) h = refl
config_same (tool cfg) h = refl
config_same (parallel cfg) h = refl
config_same (fan_in cfg) h = refl
config_same (subgraph cfg) h = refl
config_same conditional h = refl
config_same (manager_loop cfg) h = refl
config_same unset h = refl

fields_same : (n : Node) → IsPrinted n.config → compare_node_fields n n ≡ some []
fields_same n h =
    let names : List FieldChange =
      record { field = bytes "label"; old_value = n.label; new_value = n.label }
      ∷ record { field = bytes "kind"; old_value = n.kind; new_value = n.kind }
      ∷ [] in
    rw (config_same n.config h, changed_fields-nil names (refl, (refl, tt))) refl

entry_key : {V : Type 0} (k : Str) (v : V) (m : Map V) → In (k, v) m → In k (keys m)
entry_key k v [] i = i
entry_key k v ((j, w) ∷ m) (inl e) = inl (ap (λ x. x.0) e)
entry_key k v ((j, w) ∷ m) (inr i) = inr (entry_key k v m i)

lookup_entry :
    {V : Type 0} (k : Str) (v : V) (m : Map V)
    → Distinct (keys m)
    → In (k, v) m
    → lookup k m ≡ some v
unfolding lookup
lookup_entry k v [] h i = absurd i
lookup_entry k v ((j, w) ∷ m) h (inl e) =
    rw ((==_iff k j).1 (ap (λ x. x.0) e)) (ap some (sym (ap (λ x. x.1) e)))
lookup_entry k v ((j, w) ∷ m) h (inr i) = elim (==-cases k j) [
  | inl (e, t) ↦ absurd (h.0 (subst (λ y. In y (keys m)) e (entry_key k v m i)))
  | inr (e, t) ↦ rw t (lookup_entry k v m h.1 i)
]

entry-insert :
    {V : Type 0} (k j : Str) (v u : V) (m : Map V)
    → In (k, v) (insert j u m)
    → (v ≡ u) ⊎ In (k, v) m
unfolding insert
entry-insert k j v u [] i = elim i [ inl e ↦ inl (ap (λ x. x.1) e) | inr f ↦ absurd f ]
entry-insert k j v u ((l, w) ∷ m) i = elim (Bool-cases (j == l)) [
  | inl t ↦ elim (rw t at i) [ inl e ↦ inl (ap (λ x. x.1) e) | inr f ↦ inr (inr f) ]
  | inr t ↦ elim (rw t at i) [
    | inl e ↦ inr (inl e)
    | inr f ↦ elim (entry-insert k j v u m f) [ inl e ↦ inl e | inr g ↦ inr (inr g) ]
  ]
]

entry_node :
    (k : Str) (n : Node) (ns : List Node) (m : Map Node)
    → In (k, n) (fill_node_map ns m)
    → In n ns ⊎ In (k, n) m
unfolding fill_node_map
entry_node k n [] m i = inr i
entry_node k n (x ∷ ns) m i = elim (entry_node k n ns (insert x.id x m) i) [
  | inl j ↦ inl (inr j)
  | inr j ↦ elim (entry-insert k x.id n x m j) [ inl e ↦ inl (inl e) | inr f ↦ inr f ]
]

modified_same :
    (rest m : Map Node)
    → ((id : Str) (n : Node) → In (id, n) rest → (lookup id m ≡ some n) × IsPrinted n.config)
    → modified_nodes rest m ≡ some []
unfolding modified_nodes
modified_same [] m h = refl
modified_same ((id, n) ∷ rest) m h =
    let (found, printed) = h id n (inl refl) in
    let same : diff_at id n (lookup id m) ≡ some [] =
      ap (diff_at id n) found ∙ ap (map (diff_of id)) (fields_same n printed) in
    ap (λ o. append_diffs o (modified_nodes rest m)) same
    ∙ ap (append_diffs (some [])) (modified_same rest m (λ i k e. h i k (inr e)))

-- A workflow none of whose agents has the least integer as its max_turns, compared with itself, has no node and
-- no edge added, removed or modified, and the comparison ends.
pub compare_self :
    (w : Workflow)
    → ((n : Node) → In n w.nodes → IsPrinted n.config)
    → compare w w ≡ record {
      nodes_added = [];
      nodes_removed = [];
      nodes_modified = some [];
      edges_added = [];
      edges_removed = [];
    }
unfolding compare sort_strings sort_diffs sort_edges
compare_self w printed =
    let m = node_map w in
    let ids_same : added_ids m m ≡ [] =
      no_ids (added_ids m m) (λ x i. ((added_ids_iff x m m).0 i).1 ((added_ids_iff x m m).0 i).0) in
    let distinct : Distinct (keys m) = Distinct-node_map w.nodes [] tt in
    let nodes_same = modified_same m m (λ id n i. (
      lookup_entry id n m distinct i,
      elim (entry_node id n w.nodes [] i) [ inl j ↦ printed n j | inr f ↦ absurd f ],
    )) in
    let edges_same = no_edges (edge_set w) (edge_set w) (λ k i. i) in
    rw (ids_same, nodes_same, edges_same) refl
