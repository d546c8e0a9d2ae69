-- ===== src/Execution.antt =====
-- The planner: an allocation that an agent asks for becomes an approval and a deposit.
-- Code: packages/execution/src/index.ts (`planAllocation`), packages/schemas/src/objects.ts
-- (`ExperimentPolicy`, `ActionIntent`, `Operation`, `ExecutionPlan`),
-- packages/schemas/src/primitives.ts (`AllocationEntry`, `Allocation`).
pub mod Schema
pub mod State
pub mod Weights
pub mod Planned
mod Tests
use alpha_proof.Base.{
  ℕ, ◌+◌, ◌*◌, ◌/◌, Bool, true, false, not, ◌&&◌, ◌||◌, Option, none, some, List, [], ◌∷◌, map, any,
  all, filter, length, total_by, includes, ltb, leb, ◌==◌, ◌!=◌, schema_rejected, policy_violation,
  unsupported_instrument, environment_mismatch, data_unavailable, Result, ok, err, ◌>>=◌, ◌>>◌,
  throw_if, or_throw, for_each,
}
use alpha_proof.Accounting.State.{Ident, Hash, Timestamp, Provenance, Portfolio}
use alpha_proof.Accounting.Check.Schema.{parse_portfolio, is_uint, is_positive_uint}
use alpha_proof.Evaluation.{NetworkProfile}
use alpha_proof.Execution.State.{
  profile_number, ExperimentPolicy, AllocationEntry, ActionIntent, ProfileConstraints, Amount,
  OperationKind, Operation, ExecutionPlan, PlannerContext, Texts,
}
use alpha_proof.Execution.Schema.{
  parse_policy, weight_total, ascending_after, ascending, entry_in_range, allocation_fits,
  numbers_fit, parse_intent, steps_ordered, operation_in_range, plan_fits, parse_plan,
}

-- `intent.policyHash === undefined` cannot hold of a parsed intent, and is left out.
abbrev pub binding_differs : ExperimentPolicy → Portfolio → ActionIntent → Bool
binding_differs policy portfolio intent =
    intent.experiment_id != policy.experiment_id
    || intent.experiment_id != portfolio.experiment_id
    || intent.capital_scenario_id != portfolio.scenario_id
    || profile_number intent.network_profile != profile_number policy.network_profile

-- One round of the loop over the targets.
unfoldable pub check_target : Texts → ProfileConstraints → AllocationEntry → Result (Unit {0})
check_target texts profile target = do
  throw_if (not (includes target.instrument_id profile.instrument_allowlist)) unsupported_instrument
  throw_if (not (includes target.network_id profile.market_network_ids)) environment_mismatch
  throw_if
      (not (texts.is_cash target.instrument_id)
        && ltb profile.maximum_instrument_weight_bps target.weight_bps)
      policy_violation

abbrev pub cash_entries : Texts → List AllocationEntry → List AllocationEntry
cash_entries texts = filter (λ entry. texts.is_cash entry.instrument_id)

abbrev pub invested_entries : Texts → List AllocationEntry → List AllocationEntry
invested_entries texts = filter (λ entry. not (texts.is_cash entry.instrument_id))

-- `invested[0]`, if it is the only one and the archived instrument.
unfoldable pub single_target : Texts → List AllocationEntry → Result AllocationEntry
single_target texts [] = err unsupported_instrument
single_target texts (target ∷ []) = do
  throw_if (target.instrument_id != texts.eth_aave_usdc) unsupported_instrument
  ok target
single_target texts (_ ∷ _ ∷ _) = err unsupported_instrument

abbrev pub plan_step : Texts → OperationKind → Ident → List Ident → Amount → ℕ → Operation
plan_step texts kind operation_id depends_on input max_cost = record {
  operation_id = operation_id;
  kind = kind;
  network_id = texts.ethereum_mainnet;
  instrument_id = some texts.eth_aave_usdc;
  depends_on = depends_on;
  input = input;
  max_cost_usdc_minor = max_cost;
}

abbrev pub plan_steps : Texts → Ident → Amount → ℕ → List Operation
plan_steps texts action input max_cost =
    plan_step texts OperationKind.approve (texts.approve_operation action) [] input max_cost
    ∷ plan_step texts OperationKind.deposit (texts.deposit_operation action)
        (texts.approve_operation action ∷ []) input max_cost
    ∷ []

abbrev pub deposit_amount : Portfolio → AllocationEntry → ℕ
deposit_amount portfolio target = portfolio.initial_value_usdc_minor * target.weight_bps / 10000

abbrev pub input_of : Texts → Ident → ℕ → Amount
input_of texts address minor = record {
  network_id = texts.ethereum_mainnet;
  asset_id = texts.usdc;
  asset_address = address;
  decimals = 6;
  minor = minor;
}

-- `planAllocation` after its inputs are parsed.
unfoldable pub plan_guarded :
    Texts → ExperimentPolicy → Portfolio → ActionIntent → PlannerContext → Result ExecutionPlan
plan_guarded texts policy portfolio intent context = do
  throw_if (binding_differs policy portfolio intent) policy_violation
  throw_if (ltb context.profile.maximum_swap_slippage_bps intent.max_slippage_bps) policy_violation
  for_each (check_target texts context.profile) intent.target_allocation
  throw_if
      (ltb (weight_total (cash_entries texts intent.target_allocation))
        context.profile.minimum_target_available_cash_bps)
      policy_violation
  target ← single_target texts (invested_entries texts intent.target_allocation)
  throw_if (deposit_amount portfolio target == 0) policy_violation
  throw_if (intent.max_cost_usdc_minor == 0) policy_violation
  address ← or_throw context.ethereum_usdc_address data_unavailable
  parse_plan (record {
    experiment_id = policy.experiment_id;
    scenario_id = portfolio.scenario_id;
    action_id = context.action_id;
    policy_hash = intent.policy_hash;
    portfolio_version = portfolio.version;
    received_at = context.received_at;
    result_provenance = policy.result_provenance;
    steps =
        plan_steps texts context.action_id
          (input_of texts address (deposit_amount portfolio target)) intent.max_cost_usdc_minor;
  })

unfoldable pub plan_allocation :
    Texts → ExperimentPolicy → Portfolio → ActionIntent → PlannerContext → Result ExecutionPlan
plan_allocation texts policy_input portfolio_input intent_input context = do
  policy ← parse_policy policy_input
  portfolio ← parse_portfolio portfolio_input
  intent ← parse_intent texts intent_input
  plan_guarded texts policy portfolio intent context
