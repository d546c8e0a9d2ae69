-- ===== src/Accounting/Conservation.antt =====
-- The value of two portfolios compared, with what lies between them.
-- Code: packages/accounting/src/index.ts (`applyReceipt`).
pub mod Local
pub mod Positions
pub mod Transfers
pub mod Receipts
use alpha_proof.Base.{ℕ, ◌+◌, ◌≡◌, true, map, distinct, pos_part, neg_part, arith}
use alpha_proof.Accounting.State.{Portfolio}
use alpha_proof.Accounting.Books.{gross_assets, payable_total, cost_total}
use alpha_proof.Accounting.Books.Conservation.{CostsKept}

-- Assets and recognized costs grow exactly by what is owed and by the modeled profit.
pub record Conserves (s t : Portfolio) : Type 0 where
  pub initial : t.initial_value_usdc_minor ≡ s.initial_value_usdc_minor
  pub balance :
      gross_assets t
        + cost_total t.recognized_costs
        + payable_total s.payables
        + neg_part t.modeled_pnl_usdc_minor
        + pos_part s.modeled_pnl_usdc_minor
      ≡ gross_assets s
        + cost_total s.recognized_costs
        + payable_total t.payables
        + neg_part s.modeled_pnl_usdc_minor
        + pos_part t.modeled_pnl_usdc_minor

-- The keys by which receipts take entries away.
pub record UniqueIds (s : Portfolio) : Type 0 where
  pub reservations : distinct (map (λ item. item.reservation_id) s.reservations) ≡ true
  pub positions : distinct (map (λ item. item.position_id) s.positions) ≡ true
  pub receivables : distinct (map (λ item. item.transfer_id) s.receivables) ≡ true
  pub payables : distinct (map (λ item. item.payable_id) s.payables) ≡ true

-- What no effect of a receipt touches: identity, views, version and log.
pub record SameIdentity (s t : Portfolio) : Type 0 where
  pub experiment_id : t.experiment_id ≡ s.experiment_id
  pub scenario_id : t.scenario_id ≡ s.scenario_id
  pub result_provenance : t.result_provenance ≡ s.result_provenance
  pub max_destination_attempts : t.max_destination_attempts ≡ s.max_destination_attempts
  pub version : t.version ≡ s.version
  pub balance_views : t.balance_views ≡ s.balance_views
  pub applied_receipts : t.applied_receipts ≡ s.applied_receipts
  pub last_applied_at : t.last_applied_at ≡ s.last_applied_at

-- What only a closure touches besides.
pub record Untouched (s t : Portfolio) : Type 0 where
  pub identity : SameIdentity s t
  pub closed_at : t.closed_at ≡ s.closed_at
  pub deadline_state_hash : t.deadline_state_hash ≡ s.deadline_state_hash

pub record Kept (s t : Portfolio) : Type 0 where
  pub conserves : Conserves s t
  pub untouched : Untouched s t

-- Before the costs of a receipt are recognized, its value that is gone from the assets is what
-- the costs have to account for.
pub costs-Kept :
    (s m t : Portfolio) (withheld : ℕ)
    → CostsKept m t withheld
    → m.initial_value_usdc_minor ≡ s.initial_value_usdc_minor
    → m.modeled_pnl_usdc_minor ≡ s.modeled_pnl_usdc_minor
    → m.recognized_costs ≡ s.recognized_costs
    → m.payables ≡ s.payables
    → Untouched s m
    → gross_assets m + withheld ≡ gross_assets s
    → Kept s t
costs-Kept s m t withheld kept e₁ e₂ e₃ e₄ v e₅ = ground arith
