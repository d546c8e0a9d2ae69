-- ===== src/Accounting/Effects/Transfers.antt =====
-- The receipts of a cross-chain transfer, from its failed source or burn to its settlement.
-- Code: packages/accounting/src/index.ts (`applyReceipt`, its branches of these kinds).
use alpha_proof.Base.{
  ℕ, ◌+◌, ◌-◌, Bool, true, false, not, ◌||◌, ◌&&◌, List, leb, ltb, ◌==◌, ◌!=◌, find, any, filter,
  update_first, push, total_by, accounting_invariant, invalid_transition, Result, ok, ◌>>=◌, ◌>>◌,
  throw_if, or_throw,
}
use alpha_proof.Accounting.State.{
  Ident, Portfolio, BalanceView, Reservation, AccountingReceivable, AccountingCost, CostFunding,
  TransferAccountingState,
}
use alpha_proof.Accounting.Receipt.{ReceiptBase, Burn}
use alpha_proof.Accounting.Amounts.{require_uint}
use alpha_proof.Accounting.Books.{family_for_view, credit_cash, apply_costs}
use alpha_proof.Accounting.Effects.Local.{reservation_is}

abbrev pub receivable_is : Ident → AccountingReceivable → Bool
receivable_is transfer_id item = item.transfer_id == transfer_id

abbrev is_withheld : AccountingCost → Bool
is_withheld cost = elim cost.funding [ CostFunding.withheld ↦ true | _ ↦ false ]

abbrev pub withheld_total : List AccountingCost → ℕ
withheld_total costs = total_by (λ cost. cost.amount_usdc_minor) (filter is_withheld costs)

abbrev pub drop_reservation : Ident → Portfolio → Portfolio
drop_reservation reservation_id state = record state {
  reservations = filter (λ item. item.reservation_id != reservation_id) state.reservations;
}

-- `TRANSFER_SOURCE_FAILED`
unfoldable pub fail_source :
    Portfolio → ReceiptBase → Ident → List AccountingCost → Result Portfolio
fail_source state receipt reservation_id costs = do
  reservation ←
      or_throw (find (reservation_is reservation_id) state.reservations) invalid_transition
  let withheld = withheld_total costs
  let amount = reservation.amount_usdc_minor
  throw_if (ltb amount withheld) accounting_invariant
  credited ←
      credit_cash (drop_reservation reservation_id state) reservation.balance_family_id
        (amount - withheld)
  apply_costs credited receipt costs withheld

abbrev pub receivable_of : ReceiptBase → Burn → Reservation → BalanceView → AccountingReceivable
receivable_of receipt burn reservation destination = record {
  transfer_id = burn.transfer_id;
  message_identity = burn.message_identity;
  source_network_id = reservation.network_id;
  destination_network_id = burn.destination_network_id;
  destination_balance_family_id = destination.balance_family_id;
  amount_usdc_minor = burn.net_receivable_usdc_minor;
  state = TransferAccountingState.in_transit;
  destination_attempts = 0;
  created_at = receipt.observed_at;
  updated_at = receipt.observed_at;
}

-- `TRANSFER_BURNED`
unfoldable pub confirm_burn :
    Portfolio → ReceiptBase → Burn → List AccountingCost → Result Portfolio
confirm_burn state receipt burn costs = do
  reservation ←
      or_throw (find (reservation_is burn.reservation_id) state.reservations) invalid_transition
  throw_if
      (any
        (λ item.
          item.transfer_id == burn.transfer_id || item.message_identity == burn.message_identity)
        state.receivables)
      accounting_invariant
  destination ← family_for_view state burn.destination_cash_view_id
  throw_if (destination.network_id != burn.destination_network_id) accounting_invariant
  throw_if (reservation.network_id == destination.network_id) accounting_invariant
  let amount = reservation.amount_usdc_minor
  let receivable = burn.net_receivable_usdc_minor
  throw_if (ltb amount receivable) accounting_invariant
  let dropped = drop_reservation burn.reservation_id state
  apply_costs
      (record dropped {
        receivables = push dropped.receivables (receivable_of receipt burn reservation destination);
      })
      receipt costs (amount - receivable)

-- The receivable of a later transfer receipt, which may not move back in time.
unfoldable pub open_receivable : Portfolio → ReceiptBase → Ident → Result AccountingReceivable
open_receivable state receipt transfer_id = do
  receivable ← or_throw (find (receivable_is transfer_id) state.receivables) invalid_transition
  throw_if (ltb receipt.observed_at receivable.updated_at) invalid_transition
  ok receivable

abbrev pub set_receivable :
    Ident → (AccountingReceivable → AccountingReceivable) → Portfolio → Portfolio
set_receivable transfer_id change state = record state {
  receivables = update_first (receivable_is transfer_id) change state.receivables;
}

abbrev pub can_become_ready : TransferAccountingState → Bool
can_become_ready TransferAccountingState.ready_to_receive = false
can_become_ready _ = true

abbrev pub is_ready : TransferAccountingState → Bool
is_ready TransferAccountingState.ready_to_receive = true
is_ready _ = false

abbrev pub is_retry : TransferAccountingState → Bool
is_retry TransferAccountingState.destination_retry = true
is_retry _ = false

abbrev pub is_in_transit : TransferAccountingState → Bool
is_in_transit TransferAccountingState.in_transit = true
is_in_transit _ = false

abbrev pub become_ready : ReceiptBase → AccountingReceivable → AccountingReceivable
become_ready receipt item = record item {
  state = TransferAccountingState.ready_to_receive;
  updated_at = receipt.observed_at;
}

abbrev pub become_delayed : ReceiptBase → AccountingReceivable → AccountingReceivable
become_delayed receipt item = record item {
  state = TransferAccountingState.delayed;
  updated_at = receipt.observed_at;
}

abbrev pub become_retry : ReceiptBase → ℕ → AccountingReceivable → AccountingReceivable
become_retry receipt attempts item = record item {
  state = TransferAccountingState.destination_retry;
  destination_attempts = attempts;
  updated_at = receipt.observed_at;
}

-- `TRANSFER_READY`
unfoldable pub mark_ready : Portfolio → ReceiptBase → Ident → List AccountingCost → Result Portfolio
mark_ready state receipt transfer_id costs = do
  receivable ← open_receivable state receipt transfer_id
  throw_if (not (can_become_ready receivable.state)) invalid_transition
  throw_if
      (is_retry receivable.state
        && leb state.max_destination_attempts receivable.destination_attempts)
      invalid_transition
  charged ← apply_costs state receipt costs 0
  ok (set_receivable transfer_id (become_ready receipt) charged)

-- `TRANSFER_DELAYED`
unfoldable pub mark_delayed :
    Portfolio → ReceiptBase → Ident → List AccountingCost → Result Portfolio
mark_delayed state receipt transfer_id costs = do
  receivable ← open_receivable state receipt transfer_id
  throw_if (not (is_in_transit receivable.state)) invalid_transition
  charged ← apply_costs state receipt costs 0
  ok (set_receivable transfer_id (become_delayed receipt) charged)

-- `TRANSFER_DESTINATION_RETRY`
unfoldable pub mark_retry : Portfolio → ReceiptBase → Ident → List AccountingCost → Result Portfolio
mark_retry state receipt transfer_id costs = do
  receivable ← open_receivable state receipt transfer_id
  throw_if (not (is_ready receivable.state)) invalid_transition
  throw_if (leb state.max_destination_attempts receivable.destination_attempts) invalid_transition
  charged ← apply_costs state receipt costs 0
  attempts ← require_uint (receivable.destination_attempts + 1)
  ok (set_receivable transfer_id (become_retry receipt attempts) charged)

-- `TRANSFER_SETTLED`
unfoldable pub settle : Portfolio → ReceiptBase → Ident → ℕ → List AccountingCost → Result Portfolio
settle state receipt transfer_id credit costs = do
  receivable ← open_receivable state receipt transfer_id
  throw_if (not (is_ready receivable.state)) invalid_transition
  let book = receivable.amount_usdc_minor
  throw_if (ltb book credit) accounting_invariant
  credited ← credit_cash state receivable.destination_balance_family_id credit
  let dropped = record credited {
    receivables = filter (λ item. item.transfer_id != transfer_id) credited.receivables;
  }
  apply_costs dropped receipt costs (book - credit)
