-- ===== src/Simulate/Fuel.antt =====
-- The fuel of the two loops in run and walkBranchToJoin against the bound on the steps.
use dippin_lang.Base.{
  Str, ℕ, zero, suc, ◌+◌, ◌-◌, ◌≤◌, ◌<◌, ◌≡◌, refl, inl, inr, Bool-cases, ltb, sym, arith, ◌==◌,
  if◌then◌else◌, false, ap,
}
use dippin_lang.Ir.{Workflow}
use dippin_lang.Simulate.State.{Options, Sim, Outcome, ok, err, ◌>>=◌, max_steps, branch_exceeded}
use dippin_lang.Ir.Lookup.{node}
use dippin_lang.Simulate.Run.{
  branch_node, is_empty, count_step, walk_branch_step, branch_loop, walk_branch_to_join,
}
use dippin_lang.Simulate.Resolve.{resolve_next}
use dippin_lang.Simulate.Visit.{visit_node}
use dippin_lang.Simulate.Frame.Choice.{Same-resolve_next}
use dippin_lang.Simulate.Rule.{>>=-eq_ok, visit_node-Visited}
use dippin_lang.Simulate.Keeps.{Keeps}

>>=-cong {ℓ κ} :
    {S : Type ℓ} {T : Type κ} (o : Outcome S) (f g : S → Outcome T)
    → ((s : S) → o ≡ ok s → f s ≡ g s)
    → (o >>= f) ≡ (o >>= g)
>>=-cong (ok s) f g h = h s refl
>>=-cong (err failure) f g h = refl

pub ok-injective : {S : Type 0} {s t : S} → ok s ≡ ok t → s ≡ t
ok-injective h = cc

ltb-eq_false : (a b : ℕ) → b ≤ a → ltb a b ≡ false
ltb-eq_false a b h = ground (arith, h)

module _ (w : Workflow) (opts : Options) where
  walk_branch_step-steps :
      (current : Str) (s : Sim) (r : Str × Sim)
      → walk_branch_step w opts current s ≡ ok r
      → r.1.steps ≡ suc s.steps
  unfolding walk_branch_step
  walk_branch_step-steps current s r h =
      let (n, looked, rest) = >>=-eq_ok (branch_node current (node w current)) _ h in
      let (t, visited, ends) = >>=-eq_ok (visit_node w opts n s) _ rest in
      let same : resolve_next w opts n (count_step t) ≡ r = ok-injective ends in
      omega (
        arith,
        (visit_node-Visited w opts n s t visited).steps,
        (Same-resolve_next w opts n (count_step t)).steps,
        ap (λ (x : Str × Sim). x.1.steps) same,
      )

  branch_loop-over :
      (fuel : ℕ) (join current : Str) (s : Sim)
      → ltb s.steps max_steps ≡ false
      → branch_loop fuel w opts join current s ≡ err branch_exceeded
  unfolding branch_loop
  branch_loop-over zero join current s h = refl
  branch_loop-over (suc fuel) join current s h = rw h refl

  -- Two amounts of fuel that each exceed what is left of the bound give the same outcome.
  branch_loop-fuel :
      (a b : ℕ) (join current : Str) (s : Sim)
      → max_steps < a + s.steps
      → max_steps < b + s.steps
      → branch_loop a w opts join current s ≡ branch_loop b w opts join current s
  unfolding branch_loop
  branch_loop-fuel zero b join current s h k =
      sym (branch_loop-over b join current s (ltb-eq_false s.steps max_steps (omega (arith, h))))
  branch_loop-fuel (suc a) zero join current s h k =
      branch_loop-over (suc a) join current s (ltb-eq_false s.steps max_steps (omega (arith, k)))
  branch_loop-fuel (suc a) (suc b) join current s h k = elim (Bool-cases (ltb s.steps max_steps)) [
    | inr over ↦ rw over refl
    | inl more ↦ elim (Bool-cases (current == join)) [
      | inl there ↦ rw (more, there) refl
      | inr away ↦
          rw (more, away)
            (>>=-cong (walk_branch_step w opts current s) _ _ (λ r stepped.
              let grown = walk_branch_step-steps current s r stepped in
              ap (λ x. if is_empty r.0 then ok r.1 else x)
                (branch_loop-fuel a b join r.0 r.1 (omega (arith, h, grown))
                  (omega (arith, k, grown)))))
    ]
  ]

-- The walk along a parallel branch has one outcome, whatever fuel above the steps that are left its
-- loop is given.
pub walk_branch_to_join_fuel :
    (w : Workflow) (opts : Options) (target join : Str) (s : Sim) (fuel : ℕ)
    → max_steps < fuel + s.steps
    → branch_loop fuel w opts join target s ≡ walk_branch_to_join w opts target join s
unfolding walk_branch_to_join
walk_branch_to_join_fuel w opts target join s fuel h =
    branch_loop-fuel w opts fuel (suc (max_steps - s.steps)) join target s h (omega arith)
