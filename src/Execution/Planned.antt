-- ===== src/Execution/Planned.antt =====
-- What a plan does with the capital.
-- Code: packages/execution/src/index.ts (`planAllocation`).
use native.Mathlib.Nat.{div-add-mod, mul-add, mul-le-mul_left}
use alpha_proof.Base.{
  ◌||◌, leb, ℕ, ◌+◌, ◌*◌, ◌/◌, ◌≤◌, ◌<◌, ◌≡◌, ◌≢◌, refl, sym, ap, subst, ◌∙◌, true, false, not,
  List, [], ◌∷◌, includes, ltb, ltb-false→le, ◌==◌, ok, ok-injective, for_each, throw_if,
  throw_if-ok, or_throw, policy_violation, schema_rejected, data_unavailable, >>=-elim, >>-elim,
  arith,
}
use alpha_proof.Accounting.State.{Ident, Portfolio}
use alpha_proof.Accounting.Check.Schema.{parse_portfolio, is_positive_uint}
use alpha_proof.Accounting.Check.Sound.{parse_portfolio-same}
use alpha_proof.Execution.State.{
  Texts, ExperimentPolicy, ActionIntent, AllocationEntry, PlannerContext, ProfileConstraints,
  Amount, ExecutionPlan,
}
use alpha_proof.Execution.Schema.{
  weight_total, parse_policy, parse_intent, parse_plan, plan_fits, steps_ordered,
}
use alpha_proof.Execution.{
  cash_entries, invested_entries, binding_differs, check_target, single_target, deposit_amount,
  plan_steps, input_of, plan_allocation, plan_guarded,
}
use alpha_proof.Execution.Weights.{weight_total-split, for_each-first, parse_intent-weights}

-- What a plan is, for the policy, the portfolio and the intent that it was made from.
pub record IsPlanned (t : Texts) (policy : ExperimentPolicy) (s : Portfolio) (i : ActionIntent)
    (context : PlannerContext) (plan : ExecutionPlan) : Type 0 where
  pub target : AllocationEntry
  pub input : Amount
  pub only_target : invested_entries t i.target_allocation ≡ target ∷ []
  pub instrument : target.instrument_id ≡ t.eth_aave_usdc
  pub allowed : includes target.instrument_id context.profile.instrument_allowlist ≡ true
  pub amount : input.minor ≡ deposit_amount s target
  pub positive : 0 < input.minor
  pub concentration :
      input.minor * 10000
      ≤ s.initial_value_usdc_minor * context.profile.maximum_instrument_weight_bps
  pub cash_reserve :
      input.minor * 10000
        + s.initial_value_usdc_minor * context.profile.minimum_target_available_cash_bps
      ≤ s.initial_value_usdc_minor * 10000
  pub slippage : i.max_slippage_bps ≤ context.profile.maximum_swap_slippage_bps
  pub cost_bound : 0 < i.max_cost_usdc_minor
  pub steps : plan.steps ≡ plan_steps t context.action_id input i.max_cost_usdc_minor
  pub scenario : plan.scenario_id ≡ i.capital_scenario_id
  pub experiment : plan.experiment_id ≡ i.experiment_id
  pub bound_policy : plan.policy_hash ≡ i.policy_hash
  pub version : plan.portfolio_version ≡ s.version
  pub apart : t.approve_operation context.action_id ≢ t.deposit_operation context.action_id

single_target-only :
    (t : Texts) (entries : List AllocationEntry) {target : AllocationEntry}
    → single_target t entries ≡ ok target
    → (entries ≡ target ∷ []) × (target.instrument_id ≡ t.eth_aave_usdc)
unfolding single_target
single_target-only t [] e = absurd (cc e)
single_target-only t (x ∷ []) e = ground arith
single_target-only t (x ∷ y ∷ ys) e = absurd (cc e)

-- What the check of a target says of an investment.
check_target-Bounds :
    (t : Texts) (profile : ProfileConstraints) (x : AllocationEntry)
    → check_target t profile x ≡ ok tt
    → not (t.is_cash x.instrument_id) ≡ true
    → (includes x.instrument_id profile.instrument_allowlist ≡ true)
      × (x.weight_bps ≤ profile.maximum_instrument_weight_bps)
unfolding check_target
check_target-Bounds t profile x e cash = ground arith

floor-le : (c w m : ℕ) → w ≤ m → c * w / 10000 * 10000 ≤ c * m
floor-le c w m h = grind (arith, div-add-mod (c * w) 10000)

floor_with-le : (c w k m : ℕ) → w + k ≡ 10000 → m ≤ k → c * w / 10000 * 10000 + c * m ≤ c * 10000
floor_with-le c w k m h l =
    let parts : c * w + c * k ≡ c * 10000 = sym (mul-add c w k) ∙ ap (λ n. c * n) h in
    omega (arith, div-add-mod (c * w) 10000, mul-le-mul_left c l, parts)

parse_plan-ordered :
    (plan : ExecutionPlan) {out : ExecutionPlan}
    → parse_plan plan ≡ ok out
    → (plan ≡ out) × (steps_ordered [] plan.steps ≡ true)
unfolding parse_plan
parse_plan-ordered plan e = >>-elim (throw_if (not (plan_fits plan)) schema_rejected) _ e λ fits e₁.
    >>-elim (throw_if (not (steps_ordered [] plan.steps)) schema_rejected) _ e₁
      λ ordered e₂. (ok-injective e₂, ground (arith, throw_if-ok _ _ ordered))

plan_steps-apart :
    (t : Texts) (action : Ident) (input : Amount) (cost : ℕ)
    → steps_ordered [] (plan_steps t action input cost) ≡ true
    → t.approve_operation action ≢ t.deposit_operation action
unfolding steps_ordered
plan_steps-apart t action input cost ordered same = ground arith

parse_policy-same :
    (p : ExperimentPolicy) {out : ExperimentPolicy} → parse_policy p ≡ ok out → p ≡ out
unfolding parse_policy
parse_policy-same p e =
    >>-elim (throw_if (not (is_positive_uint p.signing_chain_id)) schema_rejected) _ e λ g e₁.
      >>-elim (throw_if (ltb p.starts_at p.locked_at || leb p.ends_at p.starts_at) schema_rejected)
        _ e₁ λ h e₂. ok-injective e₂

-- The last part of the code, for parsed inputs: from the target on.
abbrev plan_of :
    Texts
    → ExperimentPolicy
    → Portfolio
    → ActionIntent
    → PlannerContext
    → Ident
    → AllocationEntry
    → ExecutionPlan
plan_of t policy s i context address target = record {
  experiment_id = policy.experiment_id;
  scenario_id = s.scenario_id;
  action_id = context.action_id;
  policy_hash = i.policy_hash;
  portfolio_version = s.version;
  received_at = context.received_at;
  result_provenance = policy.result_provenance;
  steps =
      plan_steps t context.action_id (input_of t address (deposit_amount s target))
        i.max_cost_usdc_minor;
}

-- What the guards have let pass, when a plan comes out.
record Passed (t : Texts) (policy : ExperimentPolicy) (s : Portfolio) (i : ActionIntent)
    (context : PlannerContext) (plan : ExecutionPlan) : Type 0 where
  target : AllocationEntry
  address : Ident
  weights : weight_total i.target_allocation ≡ 10000
  bound : binding_differs policy s i ≡ false
  slippage : ltb context.profile.maximum_swap_slippage_bps i.max_slippage_bps ≡ false
  checked : for_each (check_target t context.profile) i.target_allocation ≡ ok tt
  reserved :
      ltb
        (weight_total (cash_entries t i.target_allocation))
        context.profile.minimum_target_available_cash_bps
      ≡ false
  single : single_target t (invested_entries t i.target_allocation) ≡ ok target
  positive : (deposit_amount s target == 0) ≡ false
  cost : (i.max_cost_usdc_minor == 0) ≡ false
  made : plan ≡ plan_of t policy s i context address target
  ordered : steps_ordered [] plan.steps ≡ true

guards :
    (t : Texts) (p : ExperimentPolicy) (s : Portfolio) (i : ActionIntent) (context : PlannerContext)
    {plan : ExecutionPlan}
    → weight_total i.target_allocation ≡ 10000
    → plan_guarded t p s i context ≡ ok plan
    → Passed t p s i context plan
unfolding plan_guarded
guards t p s i context weights e =
    let profile = context.profile in
    let targets = i.target_allocation in
    >>-elim (throw_if (binding_differs p s i) policy_violation) _ e λ bound e₁.
      >>-elim (throw_if (ltb profile.maximum_swap_slippage_bps i.max_slippage_bps) policy_violation)
        _ e₁
        λ slippage e₂. >>-elim (for_each (check_target t profile) targets) _ e₂ λ checked e₃.
          >>-elim
            (throw_if
              (ltb (weight_total (cash_entries t targets))
                profile.minimum_target_available_cash_bps)
              policy_violation)
            _ e₃
            λ reserve e₄.
              >>=-elim (single_target t (invested_entries t targets)) _ e₄ λ target single e₅.
                >>-elim (throw_if (deposit_amount s target == 0) policy_violation) _ e₅
                  λ positive e₆.
                    >>-elim (throw_if (i.max_cost_usdc_minor == 0) policy_violation) _ e₆ λ cost e₇.
                      >>=-elim (or_throw context.ethereum_usdc_address data_unavailable) _ e₇
                        λ address found e₈.
                          let (made, ordered) = parse_plan-ordered _ e₈ in
                          record {
                            target = target;
                            address = address;
                            weights = weights;
                            bound = throw_if-ok _ _ bound;
                            slippage = throw_if-ok _ _ slippage;
                            checked = checked;
                            reserved = throw_if-ok _ _ reserve;
                            single = single;
                            positive = throw_if-ok _ _ positive;
                            cost = throw_if-ok _ _ cost;
                            made = sym made;
                            ordered =
                                subst (λ (x : ExecutionPlan). steps_ordered [] x.steps ≡ true) made
                                  ordered;
                          }

binding_differs-false :
    (policy : ExperimentPolicy) (s : Portfolio) (i : ActionIntent)
    → binding_differs policy s i ≡ false
    → (policy.experiment_id ≡ i.experiment_id) × (s.scenario_id ≡ i.capital_scenario_id)
binding_differs-false policy s i e = ground arith

plan_allocation-Passed :
    (t : Texts) (policy : ExperimentPolicy) (s : Portfolio) (i : ActionIntent)
    (context : PlannerContext) {plan : ExecutionPlan}
    → plan_allocation t policy s i context ≡ ok plan
    → Passed t policy s i context plan
unfolding plan_allocation
plan_allocation-Passed t policy s i context {plan} e =
    >>=-elim (parse_policy policy) _ e λ p parsed e₁.
      >>=-elim (parse_portfolio s) _ e₁ λ u parsed' e₂.
        >>=-elim (parse_intent t i) _ e₂ λ j parsed'' e₃.
          let (same, weights) = parse_intent-weights t i parsed'' in
          subst (λ x. Passed t x s i context plan) (sym (parse_policy-same policy parsed))
            (subst (λ x. Passed t p x i context plan) (parse_portfolio-same s parsed')
              (subst (λ x. Passed t p u x context plan) (sym same)
                (guards t p u j context
                  (subst (λ (x : ActionIntent). weight_total x.target_allocation ≡ 10000) same
                    weights)
                  e₃)))

-- A plan that is returned approves and then deposits one amount into the one allowed instrument
-- that is not cash, under two distinct operations and a positive cost bound. The amount is the
-- target's part of the initial capital, rounded down, and is positive. It is within the greatest
-- weight of an instrument, leaves the least cash reserve, and the slippage is within its limit. The
-- plan is bound to the experiment, scenario and policy of the intent and the portfolio's version.
pub plan_allocation-IsPlanned :
    (t : Texts) (policy : ExperimentPolicy) (s : Portfolio) (i : ActionIntent)
    (context : PlannerContext) {plan : ExecutionPlan}
    → plan_allocation t policy s i context ≡ ok plan
    → IsPlanned t policy s i context plan
plan_allocation-IsPlanned t policy s i context {plan} e =
    let p = plan_allocation-Passed t policy s i context e in
    let c = s.initial_value_usdc_minor in
    let w = p.target.weight_bps in
    let bound = binding_differs-false policy s i p.bound in
    let (only, instrument) = single_target-only t _ p.single in
    let (checked, invested) = for_each-first _ _ i.target_allocation only p.checked in
    let (allowed, weight) = check_target-Bounds t context.profile p.target checked invested in
    let split = weight_total-split t i.target_allocation in
    let one : weight_total (invested_entries t i.target_allocation) ≡ w = rw only (omega arith) in
    let cash = weight_total (cash_entries t i.target_allocation) in
    let kept : context.profile.minimum_target_available_cash_bps ≤ cash =
      ltb-false→le _ _ p.reserved in
    record {
      target = p.target;
      input = input_of t p.address (deposit_amount s p.target);
      only_target = only;
      instrument = instrument;
      allowed = allowed;
      amount = refl;
      positive = ground (arith, p.positive);
      concentration = floor-le c w context.profile.maximum_instrument_weight_bps weight;
      cash_reserve =
          floor_with-le c w cash context.profile.minimum_target_available_cash_bps
            (omega (arith, split, one, p.weights)) kept;
      slippage = ltb-false→le _ _ p.slippage;
      cost_bound = ground (arith, p.cost);
      steps = ap (λ (x : ExecutionPlan). x.steps) p.made;
      scenario = ap (λ (x : ExecutionPlan). x.scenario_id) p.made ∙ bound.1;
      experiment = ap (λ (x : ExecutionPlan). x.experiment_id) p.made ∙ bound.0;
      bound_policy = ap (λ (x : ExecutionPlan). x.policy_hash) p.made;
      version = ap (λ (x : ExecutionPlan). x.portfolio_version) p.made;
      apart =
          plan_steps-apart t context.action_id _ _
            (subst (λ (x : ExecutionPlan). steps_ordered [] x.steps ≡ true) p.made p.ordered);
    }
