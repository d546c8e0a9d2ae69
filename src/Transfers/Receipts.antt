-- ===== src/Transfers/Receipts.antt =====
-- The accounting receipt of an event, and the small conversions beside it: balances with two
-- views, gas costs, routes and relayer charges.
-- Code: packages/transfers/src/index.ts (`normalizeArcBalance`, `gasCostUsdcMinor`,
-- `accountingReceiptForTransferEvent` to the end of the file).
pub mod Conversions
use alpha_proof.Base.{
  ℕ, ◌+◌, ◌-◌, ◌*◌, ◌/◌, ◌%◌, ◌^◌, ◌&&◌, ◌||◌, Option, none, some, List, [], ◌∷◌, ◌==◌, ◌!=◌,
  new_set, map, if◌then◌else◌, Result, ok, err, ◌>>=◌, ◌>>◌, throw_if, or_throw,
  accounting_invariant, data_unavailable, schema_rejected, ℤ, pos, pos_part, ltb_ℤ,
}
use alpha_proof.Accounting.State.{Ident, Hash, AccountingCost, CostFunding, CostCategory}
use alpha_proof.Accounting.Receipt.{Receipt, ReceiptBase, ReceiptKind}
use alpha_proof.Transfers.State.{Transfer, TransferEvent, EventKind}

pub record ArcBalance : Type 0 where
  pub canonical_usdc_minor : ℕ
  pub native_dust_minor18 : ℕ

-- The two views of one balance, in 18 and in 6 decimals; the fixed family name is left out.
unfoldable pub normalize_arc_balance : ℤ → ℤ → Result ArcBalance
normalize_arc_balance native erc20 = do
  throw_if (ltb_ℤ native (pos 0) || ltb_ℤ erc20 (pos 0)) accounting_invariant
  let canonical = pos_part native / 1_000_000_000_000
  let dust = pos_part native % 1_000_000_000_000
  throw_if (canonical != pos_part erc20) data_unavailable
  ok (record { canonical_usdc_minor = pos_part erc20; native_dust_minor18 = dust })

-- The division that `gasCostUsdcMinor` rounds up; its inputs are unsigned.
unfoldable pub gas_cost_usdc_minor : ℕ → ℕ → ℕ → ℕ → ℕ → Result ℕ
gas_cost_usdc_minor gas_used gas_price native_decimals numerator unit_denominator = do
  let product = gas_used * gas_price * numerator
  let denominator = 10 ^ native_decimals * unit_denominator
  throw_if (denominator == 0) accounting_invariant
  ok ((product + denominator - 1) / denominator)

-- The identifiers that the code names.
pub record Names : Type 0 where
  pub sepolia_to_arc : Ident
  pub arc_to_sepolia : Ident
  pub arc_testnet : Ident
  pub ethereum_sepolia : Ident

unfoldable pub route_destination : Names → Ident → Result Ident
route_destination names route_id =
    if route_id == names.sepolia_to_arc
    then ok names.arc_testnet
    else if route_id == names.arc_to_sepolia
    then ok names.ethereum_sepolia
    else err accounting_invariant

abbrev pub receipt_base : Transfer → TransferEvent → ℕ → List AccountingCost → ReceiptBase
receipt_base before event expected_version costs = record {
  operation_id = event.event_id;
  experiment_id = before.experiment_id;
  scenario_id = before.scenario_id;
  expected_portfolio_version = expected_version;
  observed_at = event.occurred_at;
  result_provenance = before.result_provenance;
  first_source_hash = event.source_hash;
  other_source_hashes = new_set (event.source_hash ∷ []) (map (λ cost. cost.source_hash) costs);
}

-- The kind of the receipt, if the event has one. `after.messageIdentity!` of a confirmed burn is
-- there; without it the receipt's schema refuses.
unfoldable pub receipt_kind :
    Names → EventKind → Transfer → Transfer → List AccountingCost → Result (Option ReceiptKind)
receipt_kind names EventKind.reserved before after costs = ok (
    some (
      ReceiptKind.reserve before.reservation_id before.source_cash_view_id before.amount_usdc_minor
        []))
receipt_kind names EventKind.source_failed before after costs =
    ok (some (ReceiptKind.transfer_source_failed before.reservation_id costs))
receipt_kind names EventKind.burn_confirmed before after costs = do
  destination ← route_destination names after.route_id
  message ← or_throw after.message_identity schema_rejected
  ok (
      some (
        ReceiptKind.transfer_burned
          (record {
            reservation_id = before.reservation_id;
            transfer_id = before.transfer_id;
            message_identity = message;
            destination_network_id = destination;
            destination_cash_view_id = before.destination_cash_view_id;
            net_receivable_usdc_minor = before.net_receivable_usdc_minor;
          })
          costs))
receipt_kind names EventKind.attestation_observed before after costs =
    ok (some (ReceiptKind.transfer_ready before.transfer_id costs))
receipt_kind names EventKind.attestation_delayed before after costs =
    ok (some (ReceiptKind.transfer_delayed before.transfer_id costs))
receipt_kind names EventKind.destination_failed before after costs =
    ok (some (ReceiptKind.transfer_destination_retry before.transfer_id costs))
receipt_kind names EventKind.destination_confirmed before after costs =
    ok (
      some (ReceiptKind.transfer_settled before.transfer_id before.net_receivable_usdc_minor costs))
receipt_kind names EventKind.dependency_invalidated before after costs = ok none
receipt_kind names EventKind.closure_recorded before after costs = ok none

abbrev with_base : ReceiptBase → Option ReceiptKind → Option Receipt
with_base base none = none
with_base base (some kind) = some (record { base = base; kind = kind })

unfoldable pub accounting_receipt_for_transfer_event :
    Names → Transfer → Transfer → TransferEvent → ℕ → List AccountingCost → Result (Option Receipt)
unfolding receipt_kind
accounting_receipt_for_transfer_event names before after event expected_version costs = do
  kind ← receipt_kind names event.kind before after costs
  ok (with_base (receipt_base before event expected_version costs) kind)

-- The fields of a route that its validation reads.
pub record Route : Type 0 where
  pub source_network_id : Ident
  pub destination_network_id : Ident
  pub source_chain_id : ℕ
  pub source_domain : ℕ
  pub destination_domain : ℕ

unfoldable pub validate_route : Names → Route → Result Route
validate_route names route = do
  throw_if
      (route.source_network_id == route.destination_network_id
        || route.source_domain == route.destination_domain)
      accounting_invariant
  throw_if
      (route.source_network_id == names.ethereum_sepolia
        && (route.source_chain_id != 11155111 || route.source_domain != 0))
      accounting_invariant
  throw_if
      (route.source_network_id == names.arc_testnet
        && (route.source_chain_id != 5042002 || route.source_domain != 26))
      accounting_invariant
  ok route

unfoldable pub relayer_cost : Ident → Ident → ℕ → Hash → Result AccountingCost
relayer_cost cost_id network_id amount source_hash = do
  throw_if (amount == 0) accounting_invariant
  ok (record {
    cost_id = cost_id;
    category = CostCategory.relayer;
    funding = CostFunding.payable;
    amount_usdc_minor = amount;
    network_id = network_id;
    cash_balance_family_id = none;
    source_hash = source_hash;
  })
