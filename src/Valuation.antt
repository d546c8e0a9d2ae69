-- ===== src/Valuation.antt =====
-- Checkpoints: the references that start beside an agent, the portfolio of a checkpoint after the
-- accruals of its positions, and the checkpoint of a scenario with its two references.
-- Code: packages/valuation/src/index.ts, packages/schemas/src/evaluation.ts.
pub mod State
pub mod Accruals
pub mod References
pub mod Comparable
pub mod Mark
pub mod Tests
use alpha_proof.Base.{
  ℕ, ◌+◌, Bool, true, false, not, ◌&&◌, ◌||◌, Option, none, some, List, [], ◌∷◌, map, any, length,
  ltb, ◌==◌, ◌!=◌, when_some, bool_eq, sort_by, push, includes, new_set, accounting_invariant,
  data_unavailable, environment_mismatch, invalid_transition, invalid_schema, schema_rejected,
  Result, ok, ◌>>=◌, ◌>>◌, throw_if, ℤ, pos, ◌-ℤ◌,
}
use alpha_proof.Accounting.State.{
  Ident, Hash, Timestamp, Provenance, provenance_number, Portfolio, CashBalance,
}
use alpha_proof.Accounting.Receipt.{Receipt, ReceiptKind}
use alpha_proof.Accounting.Check.{assert_portfolio}
use alpha_proof.Accounting.Check.Schema.{parse_portfolio, is_positive_uint}
use alpha_proof.Accounting.Apply.{Hasher, apply_receipt}
use alpha_proof.Accounting.Value.{
  PositionValuation, PortfolioValuation, valuation_in_range, value_portfolio,
}
use alpha_proof.Valuation.State.{
  ReferenceKind, ReferenceStatus, Role, CashHolding, Distribution, AccrualInput,
  PortfolioCheckpointInput, CheckpointPortfolio, ReferencePortfolio, CheckpointBody,
  ScenarioCheckpoint, CheckpointHasher,
}

abbrev pub holding_of : CashBalance → CashHolding
holding_of balance = record {
  network_id = balance.network_id;
  asset_id = balance.asset_id;
  amount_usdc_minor = balance.amount_usdc_minor;
}

unfoldable pub initial_distribution_hash : CheckpointHasher → Portfolio → Result Hash
initial_distribution_hash hasher portfolio = do
  state ← assert_portfolio portfolio
  ok (
      hasher.distribution_hash (record {
        initial_value_usdc_minor = state.initial_value_usdc_minor;
        holdings = map holding_of state.cash;
      }))

-- The number of the text `eth-aave-usdc`.
abbrev pub aave_instrument : Ident
aave_instrument = 1

abbrev pub frozen_instrument : ReferenceKind → Option Ident
frozen_instrument ReferenceKind.cash = none
frozen_instrument ReferenceKind.conservative_yield = some aave_instrument

-- `make`, inside `makeReferences`
unfoldable pub make_reference :
    CheckpointHasher
    → Portfolio
    → Hash
    → Timestamp
    → Timestamp
    → ReferenceKind
    → Result ReferencePortfolio
make_reference hasher source distribution_hash starts ends kind =
    let name = hasher.reference_name source.experiment_id source.scenario_id kind in
    let portfolio = record source { portfolio_id = name } in
    parse_portfolio portfolio >>= λ parsed. ok (record {
      experiment_id = source.experiment_id;
      scenario_id = source.scenario_id;
      reference_id = name;
      kind = kind;
      frozen_instrument_id = frozen_instrument kind;
      status = ReferenceStatus.active;
      initial_distribution_hash = distribution_hash;
      period_starts_at = starts;
      period_ends_at = ends;
      portfolio = parsed;
    })

unfoldable pub make_references :
    CheckpointHasher
    → Portfolio
    → Timestamp
    → Timestamp
    → Result (ReferencePortfolio × ReferencePortfolio)
make_references hasher agent_initial starts ends = do
  source ← assert_portfolio agent_initial
  throw_if (source.version != 0) accounting_invariant
  distribution_hash ← initial_distribution_hash hasher source
  cash_half ← make_reference hasher source distribution_hash starts ends ReferenceKind.cash
  yield_half ←
      make_reference hasher source distribution_hash starts ends ReferenceKind.conservative_yield
  ok (cash_half, yield_half)

-- The receipt of an accrual, for the portfolio as it is then.
unfoldable pub accrual_receipt : CheckpointHasher → Ident → Portfolio → AccrualInput → Receipt
accrual_receipt hasher checkpoint_id portfolio accrual = record {
  base = record {
    operation_id =
        hasher.accrual_operation checkpoint_id portfolio.portfolio_id accrual.position_id;
    experiment_id = portfolio.experiment_id;
    scenario_id = portfolio.scenario_id;
    expected_portfolio_version = portfolio.version;
    observed_at = accrual.observed_at;
    result_provenance = portfolio.result_provenance;
    first_source_hash = accrual.source_hash;
    other_source_hashes = [];
  };
  kind =
      ReceiptKind.accrue accrual.position_id accrual.next_index_numerator
        accrual.next_index_denominator [];
}

-- The loop of `checkpointPortfolio`: the portfolio and the hashes pushed so far.
unfoldable pub apply_accruals :
    CheckpointHasher
    → Ident
    → Portfolio
    → List Hash
    → List AccrualInput
    → Result (Portfolio × List Hash)
apply_accruals hasher checkpoint_id portfolio hashes [] = ok (portfolio, hashes)
apply_accruals hasher checkpoint_id portfolio hashes (accrual ∷ accruals) =
    let receipt = accrual_receipt hasher checkpoint_id portfolio accrual in
    apply_receipt hasher.accounting portfolio receipt >>= λ next.
    apply_accruals hasher checkpoint_id next (push hashes (hasher.accounting.receipt_hash receipt))
      accruals

-- One accrual for each open position, or neither positions nor accruals.
unfoldable pub check_accruals : Portfolio → List AccrualInput → Result (Unit {0})
check_accruals portfolio accruals =
    let positions = new_set [] (map (λ position. position.position_id) portfolio.positions) in
    throw_if
      ((length accruals != length positions
          || any (λ accrual. not (includes accrual.position_id positions)) accruals)
        && (length positions != 0 || length accruals != 0))
      data_unavailable

-- `CheckpointPortfolio.parse`
unfoldable pub parse_checkpoint_portfolio : CheckpointPortfolio → Result CheckpointPortfolio
parse_checkpoint_portfolio item = do
  parsed ← parse_portfolio item.portfolio
  throw_if (not (valuation_in_range item.valuation)) schema_rejected
  ok item

unfoldable pub checkpoint_portfolio :
    CheckpointHasher → Ident → PortfolioCheckpointInput → Result CheckpointPortfolio
checkpoint_portfolio hasher checkpoint_id input = do
  initial ← assert_portfolio input.portfolio
  check_accruals initial input.accruals
  accrued ←
      apply_accruals hasher checkpoint_id initial []
        (sort_by (λ accrual. accrual.position_id) input.accruals)
  valuation ← value_portfolio hasher.accounting accrued.0 input.valuations
  parse_checkpoint_portfolio (record {
    portfolio_id = accrued.0.portfolio_id;
    role = input.role;
    reference_status = input.reference_status;
    comparison_available = input.comparison_available;
    portfolio = accrued.0;
    valuation = valuation;
    accrued_receipt_hashes = accrued.1;
  })

-- The input of `createScenarioCheckpoint`.
pub record ScenarioCheckpointInput : Type 0 where
  pub checkpoint_id : Ident
  pub sequence : ℕ
  pub checkpoint_at : Timestamp
  pub observation_set_hash : Hash
  pub amount_quote_hash : Hash
  pub agent : CheckpointPortfolio
  pub cash_reference : CheckpointPortfolio
  pub conservative_yield_reference : CheckpointPortfolio

abbrev pub portfolios_of : ScenarioCheckpointInput → List CheckpointPortfolio
portfolios_of input = input.agent ∷ input.cash_reference ∷ input.conservative_yield_reference ∷ []

-- `new Set(portfolios.map(key)).size`
abbrev pub set_size : (CheckpointPortfolio → ℕ) → ScenarioCheckpointInput → ℕ
set_size key input = length (new_set [] (map key (portfolios_of input)))

abbrev pub is_agent : Role → Bool
is_agent Role.agent = true
is_agent _ = false

abbrev pub is_cash_reference : Role → Bool
is_cash_reference Role.cash_reference = true
is_cash_reference _ = false

abbrev pub is_yield_reference : Role → Bool
is_yield_reference Role.conservative_yield_reference = true
is_yield_reference _ = false

abbrev pub is_active : Option ReferenceStatus → Bool
is_active (some ReferenceStatus.active) = true
is_active _ = false

abbrev pub has_effect_after : Timestamp → CheckpointPortfolio → Bool
has_effect_after time item = when_some item.portfolio.last_applied_at (λ last. ltb time last)

abbrev pub roles_differ : ScenarioCheckpointInput → Bool
roles_differ input =
    not (is_agent input.agent.role)
    || not (is_cash_reference input.cash_reference.role)
    || not (is_yield_reference input.conservative_yield_reference.role)

abbrev pub statuses_differ : ScenarioCheckpointInput → Bool
statuses_differ input =
    not (is_active input.cash_reference.reference_status)
    || not input.cash_reference.comparison_available
    || not (
        bool_eq (is_active input.conservative_yield_reference.reference_status)
          input.conservative_yield_reference.comparison_available)

-- The keys that the guards compare.
abbrev pub id_of : CheckpointPortfolio → ℕ
id_of item = item.portfolio.portfolio_id

abbrev pub capital_of : CheckpointPortfolio → ℕ
capital_of item = item.portfolio.initial_value_usdc_minor

abbrev pub scenario_of : CheckpointPortfolio → ℕ
scenario_of item = item.portfolio.scenario_id

abbrev pub provenance_of : CheckpointPortfolio → ℕ
provenance_of item = provenance_number item.portfolio.result_provenance

-- The guards of `createScenarioCheckpoint`, in their order.
unfoldable pub check_scenario : ScenarioCheckpointInput → Result (Unit {0})
check_scenario input = do
  throw_if (set_size id_of input != 3) accounting_invariant
  throw_if (set_size capital_of input != 1) accounting_invariant
  throw_if (set_size scenario_of input != 1) accounting_invariant
  throw_if (set_size provenance_of input != 1) environment_mismatch
  throw_if (any (has_effect_after input.checkpoint_at) (portfolios_of input)) invalid_transition
  throw_if (roles_differ input) invalid_schema
  throw_if (statuses_differ input) invalid_schema

abbrev pub body_of : ScenarioCheckpointInput → CheckpointBody
body_of input = record {
  checkpoint_id = input.checkpoint_id;
  experiment_id = input.agent.portfolio.experiment_id;
  scenario_id = input.agent.portfolio.scenario_id;
  sequence = input.sequence;
  checkpoint_at = input.checkpoint_at;
  result_provenance = input.agent.portfolio.result_provenance;
  observation_set_hash = input.observation_set_hash;
  amount_quote_hash = input.amount_quote_hash;
  agent = input.agent;
  cash_reference = input.cash_reference;
  conservative_yield_reference = input.conservative_yield_reference;
}

-- `ScenarioCheckpoint.parse`
unfoldable pub parse_scenario_checkpoint : ScenarioCheckpoint → Result ScenarioCheckpoint
parse_scenario_checkpoint checkpoint = do
  throw_if (not (is_positive_uint checkpoint.body.sequence)) schema_rejected
  agent_item ← parse_checkpoint_portfolio checkpoint.body.agent
  cash_item ← parse_checkpoint_portfolio checkpoint.body.cash_reference
  yield_item ← parse_checkpoint_portfolio checkpoint.body.conservative_yield_reference
  ok checkpoint

unfoldable pub create_scenario_checkpoint :
    CheckpointHasher → ScenarioCheckpointInput → Result ScenarioCheckpoint
create_scenario_checkpoint hasher input = do
  check_scenario input
  parse_scenario_checkpoint
      (record { body = body_of input; checkpoint_hash = hasher.checkpoint_hash (body_of input) })

-- The part of a mark that the positions give.
unfoldable pub portfolio_position_mark : CheckpointPortfolio → Option ℤ
portfolio_position_mark item =
    let valuation = item.valuation in
    let components =
      valuation.available_usdc_minor + valuation.reserved_usdc_minor
      + valuation.in_transit_usdc_minor in
    elim valuation.mark_value_usdc_minor [
      | none ↦ none
      | some mark ↦ some (pos (mark + valuation.fees_payable_usdc_minor) -ℤ pos components)
    ]
