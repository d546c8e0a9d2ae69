-- ===== src/Execution/State.antt =====
-- Policies, intents, allocations and plans.
-- Code: packages/schemas/src/objects.ts, packages/schemas/src/primitives.ts,
-- packages/execution/src/index.ts (`PlannerContext`).
use alpha_proof.Base.{ℕ, Bool, Option, List}
use alpha_proof.Accounting.State.{Ident, Hash, Timestamp, Provenance}
use alpha_proof.Evaluation.{NetworkProfile}

abbrev pub profile_number : NetworkProfile → ℕ
profile_number NetworkProfile.ethereum_mainnet_forward = 0
profile_number NetworkProfile.cross_chain_testnet = 1
profile_number NetworkProfile.cross_chain_mainnet_forward = 2
profile_number NetworkProfile.mixed_diagnostic = 3

-- The versions and the literal fields are left out.
pub record ExperimentPolicy : Type 0 where
  pub experiment_id : Ident
  pub agent_id : Ident
  pub declared_version_hash : Hash
  pub profile_id : Ident
  pub profile_hash : Hash
  pub manifest_bundle_hash : Hash
  pub configuration_hash : Hash
  pub adapter_set_hash : Hash
  pub parser_set_hash : Hash
  pub transfer_policy_hash : Hash
  pub starts_at : Timestamp
  pub ends_at : Timestamp
  pub locked_at : Timestamp
  pub network_profile : NetworkProfile
  pub result_provenance : Provenance
  pub signing_chain_id : ℕ

pub record AllocationEntry : Type 0 where
  pub network_id : Ident
  pub instrument_id : Ident
  pub weight_bps : ℕ

pub record ActionIntent : Type 0 where
  pub experiment_id : Ident
  pub capital_scenario_id : Ident
  pub agent_id : Ident
  pub declared_version_hash : Hash
  pub policy_hash : Hash
  pub transfer_policy_hash : Hash
  pub network_profile : NetworkProfile
  pub nonce : ℕ
  pub expected_portfolio_version : ℕ
  pub valid_until : ℕ
  pub target_allocation : List AllocationEntry
  pub max_cost_usdc_minor : ℕ
  pub max_transfer_usdc_minor : ℕ
  pub max_slippage_bps : ℕ

-- The part of a profile that the planner reads.
pub record ProfileConstraints : Type 0 where
  pub market_network_ids : List Ident
  pub instrument_allowlist : List Ident
  pub minimum_target_available_cash_bps : ℕ
  pub maximum_instrument_weight_bps : ℕ
  pub maximum_swap_slippage_bps : ℕ

pub record Amount : Type 0 where
  pub network_id : Ident
  pub asset_id : Ident
  pub asset_address : Ident
  pub decimals : ℕ
  pub minor : ℕ

-- Of the kinds of operations the planner makes two.
pub data OperationKind : Type 0 where
  withdraw approve swap transfer receive deposit : OperationKind

pub record Operation : Type 0 where
  pub operation_id : Ident
  pub kind : OperationKind
  pub network_id : Ident
  pub instrument_id : Option Ident
  pub depends_on : List Ident
  pub input : Amount
  pub max_cost_usdc_minor : ℕ

pub record ExecutionPlan : Type 0 where
  pub experiment_id : Ident
  pub scenario_id : Ident
  pub action_id : Ident
  pub policy_hash : Hash
  pub portfolio_version : ℕ
  pub received_at : Timestamp
  pub result_provenance : Provenance
  pub steps : List Operation

-- `assetAddresses` is read at one key; an empty text there counts as none.
pub record PlannerContext : Type 0 where
  pub action_id : Ident
  pub received_at : Timestamp
  pub profile : ProfileConstraints
  pub ethereum_usdc_address : Option Ident

-- What the code does with the texts that identifiers are: `id.includes('cash')`, the key
-- `network/instrument`, and `action-approve` and `action-deposit`.
pub record Texts : Type 0 where
  pub is_cash : Ident → Bool
  pub allocation_key : (network instrument : Ident) → ℕ
  pub approve_operation : Ident → Ident
  pub deposit_operation : Ident → Ident
  pub ethereum_mainnet : Ident
  pub eth_aave_usdc : Ident
  pub usdc : Ident
