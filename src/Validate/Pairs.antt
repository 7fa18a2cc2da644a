-- ===== src/Validate/Pairs.antt =====
-- checkParallelFanIn (DIP007): the pairing of parallel and fan-in nodes.
use mathlib.Core.List.{Permᴰ}
use mathlib.Core.List.Permᴰ
use dippin_lang.Base.{
  append-eq_nil, Bool-cases, subst, Str, List, [], ◌∷◌, ◌++◌, ◌≡◌, ◌↔◌, ◌⊎◌, inl, inr, All, arith,
  true, false, ==_iff, refl, sym, ◌∙◌, str_le, insert_sorted, sort_strings,
}
use dippin_lang.Ir.{Workflow, Node, NodeConfig, parallel, fan_in}
use dippin_lang.Validate.Defs.{
  NodeTargets, parallel_entry, fan_in_entry, collect_parallels, collect_fan_ins, slices_equal,
  has_match, check_unmatched_parallels, check_unmatched_fan_ins, check_parallel_fan_in,
}

str_le-total : (a b : Str) → str_le a b ≡ false → str_le b a ≡ true
unfolding str_le
str_le-total [] b h = ground arith
str_le-total (x ∷ xs) [] h = refl
str_le-total (x ∷ xs) (y ∷ ys) h = ground (arith, str_le-total xs ys)

str_le-antisym : (a b : Str) → str_le a b ≡ true → str_le b a ≡ true → a ≡ b
unfolding str_le
str_le-antisym [] [] h k = refl
str_le-antisym [] (y ∷ ys) h k = ground arith
str_le-antisym (x ∷ xs) [] h k = ground arith
str_le-antisym (x ∷ xs) (y ∷ ys) h k = ground (arith, str_le-antisym xs ys)

str_le_trans : (a b c : Str) → str_le a b ≡ true → str_le b c ≡ true → str_le a c ≡ true
unfolding str_le
str_le_trans [] b c h k = refl
str_le_trans (x ∷ xs) [] c h k = ground arith
str_le_trans (x ∷ xs) (y ∷ ys) [] h k = ground arith
str_le_trans (x ∷ xs) (y ∷ ys) (z ∷ zs) h k = ground (arith, str_le_trans xs ys zs)

insert_sorted_comm :
    (a b : Str) (xs : List Str)
    → insert_sorted a (insert_sorted b xs) ≡ insert_sorted b (insert_sorted a xs)
unfolding insert_sorted
insert_sorted_comm a b [] = ground (arith, str_le-total a b, str_le-antisym a b)
insert_sorted_comm a b (x ∷ xs) = ground (
  arith,
  insert_sorted_comm a b xs,
  str_le-total a b,
  str_le-total b a,
  str_le-antisym a b,
  str_le_trans a b x,
  str_le_trans b a x,
  str_le-total a x,
  str_le-total b x,
  str_le_trans a x b,
  str_le_trans b x a,
)

sort_strings-eq_of_Perm : {xs ys : List Str} → Permᴰ xs ys → sort_strings xs ≡ sort_strings ys
unfolding sort_strings
sort_strings-eq_of_Perm Permᴰ.nil = refl
sort_strings-eq_of_Perm (Permᴰ.cons e p) = rw (e, sort_strings-eq_of_Perm p) refl
sort_strings-eq_of_Perm (Permᴰ.swap {a} {b} {a'} {b'} {l} e f) =
    rw (e, f) (insert_sorted_comm b' a' (sort_strings l))
sort_strings-eq_of_Perm (Permᴰ.trans p q) = sort_strings-eq_of_Perm p ∙ sort_strings-eq_of_Perm q

insert_sorted-Perm : (a : Str) (xs : List Str) → Permᴰ (insert_sorted a xs) (a ∷ xs)
unfolding insert_sorted
insert_sorted-Perm a [] = Permᴰ.refl (a ∷ [])
insert_sorted-Perm a (x ∷ xs) = elim (Bool-cases (str_le a x)) [
  | inl e ↦ rw e (Permᴰ.refl (a ∷ x ∷ xs))
  | inr e ↦ rw e (Permᴰ.trans (Permᴰ.cons refl (insert_sorted-Perm a xs)) (Permᴰ.swap refl refl))
]

sort_strings-Perm : (xs : List Str) → Permᴰ (sort_strings xs) xs
unfolding sort_strings
sort_strings-Perm [] = Permᴰ.nil
sort_strings-Perm (x ∷ xs) =
    Permᴰ.trans (insert_sorted-Perm x (sort_strings xs)) (Permᴰ.cons refl (sort_strings-Perm xs))

slices_equal_iff : (xs ys : List Str) → (slices_equal xs ys ≡ true) ↔ (xs ≡ ys)
unfolding slices_equal
slices_equal_iff [] [] = ground arith
slices_equal_iff [] (y ∷ ys) = ground arith
slices_equal_iff (x ∷ xs) [] = ground arith
slices_equal_iff (x ∷ xs) (y ∷ ys) = ground (arith, slices_equal_iff xs ys, ==_iff x y)

-- Lists that are equal once sorted are permutations of each other.
sorted_equal_iff :
    (xs ys : List Str) → (slices_equal (sort_strings xs) (sort_strings ys) ≡ true) ↔ Permᴰ xs ys
sorted_equal_iff xs ys =
    let equal = slices_equal_iff (sort_strings xs) (sort_strings ys) in
    (
      λ h.
          Permᴰ.trans (Permᴰ.symm (sort_strings-Perm xs))
            (subst (λ zs. Permᴰ zs ys) (sym (equal.0 h)) (sort_strings-Perm ys)),
      λ p. equal.1 (sort_strings-eq_of_Perm p),
    )

-- A fan-in node of the list has the targets for sources, in any order.
abbrev Joins : List Str → NodeConfig → Type 0
Joins ts (fan_in cfg) = Permᴰ ts cfg.sources
Joins ts _ = ⊥

abbrev pub HasFanInFor : List Str → List Node → Type 0
HasFanInFor ts [] = ⊥
HasFanInFor ts (n ∷ ns) = Joins ts n.config ⊎ HasFanInFor ts ns

-- A parallel node of the list has the sources for targets, in any order.
abbrev Forks : List Str → NodeConfig → Type 0
Forks ss (parallel cfg) = Permᴰ ss cfg.targets
Forks ss _ = ⊥

abbrev pub HasParallelFor : List Str → List Node → Type 0
HasParallelFor ss [] = ⊥
HasParallelFor ss (n ∷ ns) = Forks ss n.config ⊎ HasParallelFor ss ns

abbrev pub IsPaired : List Node → NodeConfig → Type 0
IsPaired ns (parallel cfg) = HasFanInFor cfg.targets ns
IsPaired ns (fan_in cfg) = HasParallelFor cfg.sources ns
IsPaired ns _ = Unit

fan_in_match_iff :
    (ts : List Str) (n : Node) (cfg : NodeConfig) (rest : List NodeTargets)
    → (has_match (sort_strings ts) (fan_in_entry n cfg ++ rest) ≡ true)
      ↔ (Joins ts cfg ⊎ (has_match (sort_strings ts) rest ≡ true))
unfolding has_match
fan_in_match_iff ts n (fan_in cfg) rest = ground (arith, sorted_equal_iff ts cfg.sources)
fan_in_match_iff ts n _ rest = ground arith

parallel_match_iff :
    (ss : List Str) (n : Node) (cfg : NodeConfig) (rest : List NodeTargets)
    → (has_match (sort_strings ss) (parallel_entry n cfg ++ rest) ≡ true)
      ↔ (Forks ss cfg ⊎ (has_match (sort_strings ss) rest ≡ true))
unfolding has_match
parallel_match_iff ss n (parallel cfg) rest = ground (arith, sorted_equal_iff ss cfg.targets)
parallel_match_iff ss n _ rest = ground arith

has_fan_in_iff :
    (ts : List Str) (ns : List Node)
    → (has_match (sort_strings ts) (collect_fan_ins ns) ≡ true) ↔ HasFanInFor ts ns
unfolding collect_fan_ins has_match
has_fan_in_iff ts [] = ground arith
has_fan_in_iff ts (n ∷ ns) =
    ground (arith, fan_in_match_iff ts n n.config (collect_fan_ins ns), has_fan_in_iff ts ns)

has_parallel_iff :
    (ss : List Str) (ns : List Node)
    → (has_match (sort_strings ss) (collect_parallels ns) ≡ true) ↔ HasParallelFor ss ns
unfolding collect_parallels has_match
has_parallel_iff ss [] = ground arith
has_parallel_iff ss (n ∷ ns) =
    ground (arith, parallel_match_iff ss n n.config (collect_parallels ns), has_parallel_iff ss ns)

-- The parallel nodes, and the fan-in nodes, of a list each have their counterpart among `all`.
abbrev IsJoined : List Node → NodeConfig → Type 0
IsJoined all (parallel cfg) = HasFanInFor cfg.targets all
IsJoined all _ = Unit

abbrev IsForked : List Node → NodeConfig → Type 0
IsForked all (fan_in cfg) = HasParallelFor cfg.sources all
IsForked all _ = Unit

unmatched_parallel_iff :
    (all : List Node) (n : Node) (cfg : NodeConfig) (rest : List NodeTargets)
    → (check_unmatched_parallels (parallel_entry n cfg ++ rest) (collect_fan_ins all) ≡ [])
      ↔ (IsJoined all cfg × (check_unmatched_parallels rest (collect_fan_ins all) ≡ []))
unfolding check_unmatched_parallels
unmatched_parallel_iff all n (parallel cfg) rest = ground (arith, has_fan_in_iff cfg.targets all)
unmatched_parallel_iff all n _ rest = ground arith

unmatched_fan_in_iff :
    (all : List Node) (n : Node) (cfg : NodeConfig) (rest : List NodeTargets)
    → (check_unmatched_fan_ins (fan_in_entry n cfg ++ rest) (collect_parallels all) ≡ [])
      ↔ (IsForked all cfg × (check_unmatched_fan_ins rest (collect_parallels all) ≡ []))
unfolding check_unmatched_fan_ins
unmatched_fan_in_iff all n (fan_in cfg) rest = ground (arith, has_parallel_iff cfg.sources all)
unmatched_fan_in_iff all n _ rest = ground arith

parallels_iff :
    (all ns : List Node)
    → (check_unmatched_parallels (collect_parallels ns) (collect_fan_ins all) ≡ [])
      ↔ All (λ (n : Node). IsJoined all n.config) ns
unfolding check_unmatched_parallels collect_parallels
parallels_iff all [] = ground arith
parallels_iff all (n ∷ ns) =
    ground
      (arith, unmatched_parallel_iff all n n.config (collect_parallels ns), parallels_iff all ns)

fan_ins_iff :
    (all ns : List Node)
    → (check_unmatched_fan_ins (collect_fan_ins ns) (collect_parallels all) ≡ [])
      ↔ All (λ (n : Node). IsForked all n.config) ns
unfolding check_unmatched_fan_ins collect_fan_ins
fan_ins_iff all [] = ground arith
fan_ins_iff all (n ∷ ns) =
    ground (arith, unmatched_fan_in_iff all n n.config (collect_fan_ins ns), fan_ins_iff all ns)

both-IsPaired :
    (all : List Node) (cfg : NodeConfig) → IsPaired all cfg ↔ (IsJoined all cfg × IsForked all cfg)
both-IsPaired all (parallel cfg) = ground arith
both-IsPaired all (fan_in cfg) = ground arith
both-IsPaired all _ = ground arith

All-IsPaired :
    (all ns : List Node)
    → All (λ (n : Node). IsPaired all n.config) ns ↔ (
        All (λ (n : Node). IsJoined all n.config) ns × All (λ (n : Node). IsForked all n.config) ns)
All-IsPaired all [] = ground arith
All-IsPaired all (n ∷ ns) = ground (arith, both-IsPaired all n.config, All-IsPaired all ns)

-- DIP007 is silent exactly if every parallel node has a fan-in node whose sources are its targets in
-- any order, and every fan-in node a parallel node whose targets are its sources in any order: each ID stands
-- in the one list as often as in the other.
pub check_parallel_fan_in_iff :
    (w : Workflow)
    → (check_parallel_fan_in w ≡ []) ↔ All (λ (n : Node). IsPaired w.nodes n.config) w.nodes
unfolding check_parallel_fan_in
check_parallel_fan_in_iff w = ground (
  arith,
  parallels_iff w.nodes w.nodes,
  fan_ins_iff w.nodes w.nodes,
  All-IsPaired w.nodes w.nodes,
  append-eq_nil (check_unmatched_parallels (collect_parallels w.nodes) (collect_fan_ins w.nodes))
      (check_unmatched_fan_ins (collect_fan_ins w.nodes) (collect_parallels w.nodes)),
)
