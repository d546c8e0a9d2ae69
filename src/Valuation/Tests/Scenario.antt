-- ===== src/Valuation/Tests/Scenario.antt =====
-- The checkpoint of a scenario, and the references that start beside its agent.
-- Code: packages/valuation/src/index.ts.
use alpha_proof.Base.{◌≡◌, refl, ok}
use alpha_proof.Accounting.Check.Schema.{parse_portfolio, portfolio_in_range}
use alpha_proof.Accounting.Tests.Start.{start}
use alpha_proof.Valuation.State.{ReferenceKind, Role, ScenarioCheckpoint, ReferencePortfolio}
use alpha_proof.Valuation.{
  ScenarioCheckpointInput, body_of, create_scenario_checkpoint, check_scenario,
  parse_scenario_checkpoint, parse_checkpoint_portfolio,
}
use alpha_proof.Valuation.References.{reference_of}
use alpha_proof.Valuation.Comparable.{IsComparable, create_scenario_checkpoint_iff}
use alpha_proof.Valuation.Tests.Items.{checkpoint_hasher, agent_item, reference_item}

abbrev references : ReferencePortfolio × ReferencePortfolio
references = (
  reference_of checkpoint_hasher start 1 9 ReferenceKind.cash,
  reference_of checkpoint_hasher start 1 9 ReferenceKind.conservative_yield,
)

abbrev pub scenario_input : ScenarioCheckpointInput
scenario_input = record {
  checkpoint_id = 500;
  sequence = 1;
  checkpoint_at = 8;
  observation_set_hash = 302;
  amount_quote_hash = 402;
  agent = agent_item;
  cash_reference = reference_item Role.cash_reference 4;
  conservative_yield_reference = reference_item Role.conservative_yield_reference 5;
}

abbrev pub checkpoint : ScenarioCheckpoint
checkpoint = record { body = body_of scenario_input; checkpoint_hash = 1200 }

pub create-checkpoint : create_scenario_checkpoint checkpoint_hasher scenario_input ≡ ok checkpoint
unfolding create_scenario_checkpoint check_scenario parse_scenario_checkpoint
    parse_checkpoint_portfolio parse_portfolio portfolio_in_range
create-checkpoint = refl

create_scenario_checkpoint_iff_example :
    IsComparable scenario_input
    × (checkpoint ≡ record {
      body = body_of scenario_input;
      checkpoint_hash = checkpoint_hasher.checkpoint_hash (body_of scenario_input);
    })
    × (parse_scenario_checkpoint checkpoint ≡ ok checkpoint)
create_scenario_checkpoint_iff_example =
    (create_scenario_checkpoint_iff checkpoint_hasher scenario_input checkpoint).0 create-checkpoint
