-- ===== src/Execution/Tests.antt =====
-- A plan for an allocation of one half, with the theorem of the planner at it.
-- Code: packages/execution/src/index.ts.
use alpha_proof.Base.{◌+◌, ◌-◌, ◌*◌, ◌≡◌, refl, some, [], ◌∷◌, ◌==◌, ok}
use alpha_proof.Accounting.State.{Provenance}
use alpha_proof.Accounting.Check.Schema.{parse_portfolio, portfolio_in_range}
use alpha_proof.Accounting.Tests.Start.{start}
use alpha_proof.Evaluation.{NetworkProfile}
use alpha_proof.Execution.State.{
  Texts, ExperimentPolicy, ActionIntent, PlannerContext, ExecutionPlan,
}
use alpha_proof.Execution.Schema.{
  parse_policy, parse_intent, allocation_fits, steps_ordered, parse_plan,
}
use alpha_proof.Execution.{
  check_target, single_target, plan_steps, input_of, plan_guarded, plan_allocation,
}
use alpha_proof.Execution.Planned.{IsPlanned, plan_allocation-IsPlanned}

-- Instrument 2 is cash and comes first.
abbrev texts : Texts
texts = record {
  is_cash = λ id. id == 2;
  allocation_key = λ network instrument. 10 - instrument;
  approve_operation = λ action. action * 2;
  deposit_operation = λ action. action * 2 + 1;
  ethereum_mainnet = 10;
  eth_aave_usdc = 1;
  usdc = 20;
}

abbrev policy : ExperimentPolicy
policy = record {
  experiment_id = 1;
  agent_id = 6;
  declared_version_hash = 7;
  profile_id = 8;
  profile_hash = 9;
  manifest_bundle_hash = 10;
  configuration_hash = 11;
  adapter_set_hash = 12;
  parser_set_hash = 13;
  transfer_policy_hash = 14;
  starts_at = 2;
  ends_at = 90;
  locked_at = 1;
  network_profile = NetworkProfile.ethereum_mainnet_forward;
  result_provenance = Provenance.forward_shadow;
  signing_chain_id = 1;
}

abbrev intent : ActionIntent
intent = record {
  experiment_id = 1;
  capital_scenario_id = 2;
  agent_id = 6;
  declared_version_hash = 7;
  policy_hash = 15;
  transfer_policy_hash = 14;
  network_profile = NetworkProfile.ethereum_mainnet_forward;
  nonce = 0;
  expected_portfolio_version = 0;
  valid_until = 50;
  target_allocation =
      record { network_id = 10; instrument_id = 2; weight_bps = 5005 }
      ∷ record { network_id = 10; instrument_id = 1; weight_bps = 4995 }
      ∷ [];
  max_cost_usdc_minor = 5;
  max_transfer_usdc_minor = 0;
  max_slippage_bps = 30;
}

abbrev context : PlannerContext
context = record {
  action_id = 300;
  received_at = 4;
  profile = record {
    market_network_ids = 10 ∷ [];
    instrument_allowlist = 1 ∷ 2 ∷ [];
    minimum_target_available_cash_bps = 2000;
    maximum_instrument_weight_bps = 6000;
    maximum_swap_slippage_bps = 50;
  };
  ethereum_usdc_address = some 77;
}

abbrev plan : ExecutionPlan
plan = record {
  experiment_id = 1;
  scenario_id = 2;
  action_id = 300;
  policy_hash = 15;
  portfolio_version = 0;
  received_at = 4;
  result_provenance = Provenance.forward_shadow;
  steps = plan_steps texts 300 (input_of texts 77 499) 5;
}

plan-half : plan_allocation texts policy start intent context ≡ ok plan
unfolding parse_policy parse_portfolio portfolio_in_range parse_intent allocation_fits check_target
    single_target steps_ordered parse_plan plan_guarded plan_allocation
plan-half = refl

plan_allocation-IsPlanned_example : IsPlanned texts policy start intent context plan
plan_allocation-IsPlanned_example =
    plan_allocation-IsPlanned texts policy start intent context plan-half
