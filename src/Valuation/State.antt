-- ===== src/Valuation/State.antt =====
-- What a checkpoint is made of, and the hashes that it needs.
-- Code: packages/schemas/src/evaluation.ts, packages/valuation/src/index.ts.
use alpha_proof.Base.{ℕ, Bool, Option, List}
use alpha_proof.Accounting.State.{Ident, Hash, Timestamp, Provenance, Portfolio}
use alpha_proof.Accounting.Apply.{Hasher}
use alpha_proof.Accounting.Value.{PositionValuation, PortfolioValuation}

pub data ReferenceKind : Type 0 where
  cash conservative_yield : ReferenceKind

pub data ReferenceStatus : Type 0 where
  active entry_failed : ReferenceStatus

pub data Role : Type 0 where
  agent cash_reference conservative_yield_reference : Role

-- What `initialDistributionHash` hashes; the unit of account is a literal.
pub record CashHolding : Type 0 where
  pub network_id : Ident
  pub asset_id : Ident
  pub amount_usdc_minor : ℕ

pub record Distribution : Type 0 where
  pub initial_value_usdc_minor : ℕ
  pub holdings : List CashHolding

pub record AccrualInput : Type 0 where
  pub position_id : Ident
  pub next_index_numerator : ℕ
  pub next_index_denominator : ℕ
  pub source_hash : Hash
  pub observed_at : Timestamp

pub record PortfolioCheckpointInput : Type 0 where
  pub role : Role
  pub reference_status : Option ReferenceStatus
  pub comparison_available : Bool
  pub portfolio : Portfolio
  pub accruals : List AccrualInput
  pub valuations : List PositionValuation

pub record CheckpointPortfolio : Type 0 where
  pub portfolio_id : Ident
  pub role : Role
  pub reference_status : Option ReferenceStatus
  pub comparison_available : Bool
  pub portfolio : Portfolio
  pub valuation : PortfolioValuation
  pub accrued_receipt_hashes : List Hash

-- The literal fields are left out: no replacement, comparison available, no failure reasons.
pub record ReferencePortfolio : Type 0 where
  pub experiment_id : Ident
  pub scenario_id : Ident
  pub reference_id : Ident
  pub kind : ReferenceKind
  pub frozen_instrument_id : Option Ident
  pub status : ReferenceStatus
  pub initial_distribution_hash : Hash
  pub period_starts_at : Timestamp
  pub period_ends_at : Timestamp
  pub portfolio : Portfolio

-- A checkpoint without its hash.
pub record CheckpointBody : Type 0 where
  pub checkpoint_id : Ident
  pub experiment_id : Ident
  pub scenario_id : Ident
  pub sequence : ℕ
  pub checkpoint_at : Timestamp
  pub result_provenance : Provenance
  pub observation_set_hash : Hash
  pub amount_quote_hash : Hash
  pub agent : CheckpointPortfolio
  pub cash_reference : CheckpointPortfolio
  pub conservative_yield_reference : CheckpointPortfolio

pub record ScenarioCheckpoint : Type 0 where
  pub body : CheckpointBody
  pub open body use *
  pub checkpoint_hash : Hash

-- `contentHash` at the types that the valuation hashes, and the identifiers made of texts:
-- `accrual_operation` is `checkpoint-accrue-…` with a cut hash, `reference_name` a template text.
pub record CheckpointHasher : Type 0 where
  pub accounting : Hasher
  pub distribution_hash : Distribution → Hash
  pub accrual_operation : (checkpoint portfolio position : Ident) → Ident
  pub reference_name : (experiment scenario : Ident) → ReferenceKind → Ident
  pub checkpoint_hash : CheckpointBody → Hash
