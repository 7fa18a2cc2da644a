-- ===== src/Testrunner/Expected.antt =====
-- What a scenario test asserts, against the assertions as the documentation words them.
use dippin_lang.Base.{
  Str, List, [], ◌∷◌, ◌++◌, ◌≡◌, ◌≢◌, ◌⊎◌, ◌↔◌, inl, inr, refl, sym, ap, subst, ◌∙◌, arith, none,
  some, Option-cases, true, contains_iff, ==_iff, In, All, Map, append-eq_nil, List-cases,
}
use dippin_lang.Ir.{Workflow}
use dippin_lang.Simulate.State.{Report, Outcome, ok, err}
use dippin_lang.Simulate.Run.{run}
use dippin_lang.Simulate.Fuel.{ok-injective}
use dippin_lang.Testrunner.{
  Expectation, TestCase, Failure, check_status, check_visited, check_not_visited, find_in_path,
  check_path_contains, next_is, check_adjacent, check_immediately_after, check_expectations,
  is_none_left, case_result, case_options, run_case,
}

-- `xs` stands in `path` in its order, with anything before, between and behind.
abbrev pub InOrder : List Str → List Str → Type 0
InOrder [] path = Unit
InOrder (x ∷ xs) [] = ⊥
InOrder (x ∷ xs) (y ∷ path) = ((x ≡ y) × InOrder xs path) ⊎ InOrder (x ∷ xs) path

-- The first `from` of `path` has `to` right behind it.
pub record IsFollowed (path : List Str) (from to : Str) : Type 0 where
  pub before : List Str
  pub rest : List Str
  pub split : path ≡ before ++ from ∷ to ∷ rest
  pub first : ¬ In from before

pub record Meets (r : Report) (e : Expectation) : Type 0 where
  pub status : (e.status ≡ []) ⊎ (r.status ≡ e.status)
  pub visited : All (λ x. In x r.path) e.visited
  pub not_visited : All (λ x. ¬ In x r.path) e.not_visited
  pub in_order : InOrder e.path_contains r.path
  pub followed : All (λ (p : Str × Str). IsFollowed r.path p.0 p.1) e.immediately_after

check_status_iff :
    (r : Report) (e : Expectation)
    → (check_status r e ≡ []) ↔ ((e.status ≡ []) ⊎ (r.status ≡ e.status))
unfolding check_status
check_status_iff r e = ground (arith, ==_iff r.status e.status, List-cases e.status)

check_visited_iff : (path xs : List Str) → (check_visited path xs ≡ []) ↔ All (λ x. In x path) xs
unfolding check_visited
check_visited_iff path [] = ground arith
check_visited_iff path (x ∷ xs) = ground (arith, check_visited_iff path xs, contains_iff path x)

check_not_visited_iff :
    (path xs : List Str) → (check_not_visited path xs ≡ []) ↔ All (λ x. ¬ In x path) xs
unfolding check_not_visited
check_not_visited_iff path [] = ground arith
check_not_visited_iff path (x ∷ xs) =
    ground (arith, check_not_visited_iff path xs, contains_iff path x)

skip_first : (y : Str) (xs path : List Str) → InOrder xs path → InOrder xs (y ∷ path)
skip_first y [] path h = tt
skip_first y (x ∷ xs) path h = inr h

drop_first : (x : Str) (xs path : List Str) → InOrder (x ∷ xs) path → InOrder xs path
drop_first x xs [] h = elim h [ ]
drop_first x xs (y ∷ path) (inl (e, h)) = skip_first y xs path h
drop_first x xs (y ∷ path) (inr h) = skip_first y xs path (drop_first x xs path h)

InOrder-find_none :
    (x : Str) (xs path : List Str) → find_in_path path x ≡ none → ¬ InOrder (x ∷ xs) path
unfolding find_in_path
InOrder-find_none x xs [] e h = h
InOrder-find_none x xs (y ∷ path) e h =
    ground (arith, ==_iff y x, InOrder-find_none x xs path, h, e)

find_in_path-some :
    (y x : Str) (path rest : List Str)
    → find_in_path (y ∷ path) x ≡ some rest
    → ((y ≡ x) × (path ≡ rest)) ⊎ ((y ≢ x) × (find_in_path path x ≡ some rest))
unfolding find_in_path
find_in_path-some y x path rest e = ground (arith, e, ==_iff y x)

InOrder-find_some :
    (x : Str) (xs path rest : List Str)
    → find_in_path path x ≡ some rest
    → InOrder (x ∷ xs) path ↔ InOrder xs rest
unfolding find_in_path
InOrder-find_some x xs [] rest e = ground (arith, e)
InOrder-find_some x xs (y ∷ path) rest e = elim (find_in_path-some y x path rest e) [
  | inl (here, same) ↦
      let skip = drop_first x xs path in
      let sent = subst (InOrder xs) same in
      let back = subst (InOrder xs) (sym same) in ground (arith, sym here, skip, sent, back)
  | inr (other, there) ↦ ground (arith, other, InOrder-find_some x xs path rest there)
]

check_path_contains_iff :
    (path xs : List Str) → (check_path_contains path xs ≡ []) ↔ InOrder xs path
unfolding check_path_contains
check_path_contains_iff path [] = ground arith
check_path_contains_iff path (x ∷ xs) = elim (Option-cases (find_in_path path x)) [
  | inl e ↦ ground (arith, e, InOrder-find_none x xs path e)
  | inr (rest, e) ↦
      ground (arith, e, InOrder-find_some x xs path rest e, check_path_contains_iff rest xs)
]

find_in_path-split :
    (path : List Str) (x : Str) (rest : List Str)
    → find_in_path path x ≡ some rest
    → (before : List Str) × (path ≡ before ++ x ∷ rest) × (¬ In x before)
unfolding find_in_path
find_in_path-split [] x rest e = ground (arith, e)
find_in_path-split (y ∷ path) x rest e = elim (find_in_path-some y x path rest e) [
  | inl (here, same) ↦ ([], rw (here, same) refl, λ h. h)
  | inr (other, there) ↦
      let (before, split, first) = find_in_path-split path x rest there in
      (y ∷ before, ap (λ p. y ∷ p) split, λ h. elim h [ inl e ↦ other (sym e) | inr h ↦ first h ])
]

find_in_path-append :
    (before : List Str) (x : Str) (rest : List Str)
    → ¬ In x before
    → find_in_path (before ++ x ∷ rest) x ≡ some rest
unfolding find_in_path
find_in_path-append [] x rest h = ground (arith, ==_iff x x)
find_in_path-append (y ∷ before) x rest h =
    ground (arith, ==_iff y x, find_in_path-append before x rest, h)

next_is-nil :
    (from to : Str) (xs : List Str) → next_is from to xs ≡ [] → (rest : List Str) × (xs ≡ to ∷ rest)
next_is-nil from to [] e = ground (arith, e)
next_is-nil from to (x ∷ xs) e = (xs, ap (λ a. a ∷ xs) (ground (arith, e, ==_iff x to)))

next_is_self : (from to : Str) (rest : List Str) → next_is from to (to ∷ rest) ≡ []
next_is_self from to rest = ground (arith, ==_iff to to)

check_adjacent_iff :
    (path : List Str) (from to : Str) → (check_adjacent path from to ≡ []) ↔ IsFollowed path from to
unfolding check_adjacent
check_adjacent_iff path from to = (
  λ h. elim (Option-cases (find_in_path path from)) [
    | inl e ↦ ground (arith, e, h)
    | inr (behind, e) ↦
        let (rest, next) = next_is-nil from to behind (ground (arith, e, h)) in
        let (before, split, first) = find_in_path-split path from behind e in
        record {
          before = before;
          rest = rest;
          split = split ∙ ap (λ p. before ++ from ∷ p) next;
          first = first;
        }
  ],
  λ h.
      let found = find_in_path-append h.before from (to ∷ h.rest) h.first in
      rw (h.split, check_adjacent, found) (next_is_self from to h.rest),
)

check_immediately_after_iff :
    (path : List Str) (m : Map Str)
    → (check_immediately_after path m ≡ []) ↔ All (λ (p : Str × Str). IsFollowed path p.0 p.1) m
unfolding check_immediately_after
check_immediately_after_iff path [] = ground arith
check_immediately_after_iff path ((from, to) ∷ rest) = ground (
  arith,
  check_adjacent_iff path from to,
  check_immediately_after_iff path rest,
  append-eq_nil (check_adjacent path from to) (check_immediately_after path rest),
)

check_expectations_iff : (r : Report) (e : Expectation) → (check_expectations r e ≡ []) ↔ Meets r e
unfolding check_expectations
check_expectations_iff r e =
    let visited = check_visited r.path e.visited in
    let avoided = check_not_visited r.path e.not_visited in
    let order = check_path_contains r.path e.path_contains in
    let followed = check_immediately_after r.path e.immediately_after in
    let status_iff = check_status_iff r e in
    let visited_iff = check_visited_iff r.path e.visited in
    let avoided_iff = check_not_visited_iff r.path e.not_visited in
    let order_iff = check_path_contains_iff r.path e.path_contains in
    let followed_iff = check_immediately_after_iff r.path e.immediately_after in
    let first = append-eq_nil (check_status r e) (visited ++ (avoided ++ (order ++ followed))) in
    let second = append-eq_nil visited (avoided ++ (order ++ followed)) in
    let third = append-eq_nil avoided (order ++ followed) in
    let fourth = append-eq_nil order followed in
    (
      λ h.
          let (s, h1) = first.0 h in
          let (v, h2) = second.0 h1 in
          let (a, h3) = third.0 h2 in
          let (o, f) = fourth.0 h3 in
          record {
            status = status_iff.0 s;
            visited = visited_iff.0 v;
            not_visited = avoided_iff.0 a;
            in_order = order_iff.0 o;
            followed = followed_iff.0 f;
          },
      λ m.
          let tail = fourth.1 (order_iff.1 m.in_order, followed_iff.1 m.followed) in
          first.1 (
            status_iff.1 m.status,
            second.1 (visited_iff.1 m.visited, third.1 (avoided_iff.1 m.not_visited, tail)),
          ),
    )

none_left_iff : (xs : List Failure) → (is_none_left xs ≡ true) ↔ (xs ≡ [])
none_left_iff [] = ground arith
none_left_iff (x ∷ xs) = ground arith

case_result-passed_iff :
    (tc : TestCase) (o : Outcome Report)
    → ((case_result tc o).passed ≡ true) ↔ ((r : Report) × (o ≡ ok r) × Meets r tc.expect)
case_result-passed_iff tc (err x) = (λ h. ground (arith, h), λ (r, e, m). ground (arith, e))
case_result-passed_iff tc (ok r) =
    let left = none_left_iff (check_expectations r tc.expect) in
    let meets = check_expectations_iff r tc.expect in
    (
      λ h. (r, refl, meets.0 (left.0 h)),
      λ (r', e, m). left.1 (meets.1 (subst (λ s. Meets s tc.expect) (sym (ok-injective e)) m)),
    )

-- A case passes just when the run of its scenario succeeds and its report meets the expectations: the
-- status, where one is expected; the nodes that are to be visited and those that are not; the
-- nodes of `path_contains` in their order, however far apart; and for each pair of
-- `immediately_after` the second right behind the first visit of the first.
pub run_case-passed_iff :
    (w : Workflow) (id : Str) (tc : TestCase)
    → ((run_case w id tc).passed ≡ true)
      ↔ ((r : Report) × (run w (case_options id tc) ≡ ok r) × Meets r tc.expect)
unfolding run_case
run_case-passed_iff w id tc = case_result-passed_iff tc (run w (case_options id tc))
