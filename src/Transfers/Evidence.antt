-- ===== src/Transfers/Evidence.antt =====
-- Which chain evidence an event may and must carry.
-- Code: packages/transfers/src/index.ts (`verifyEvidence`).
use alpha_proof.Base.{
  Bool, true, false, not, ◌&&◌, ◌||◌, Option, none, some, is_some, if◌then◌else◌, Result, ◌>>◌,
  throw_if, accounting_invariant, data_unavailable,
}
use alpha_proof.Transfers.State.{
  Transfer, TransferEvent, EventKind, ChainReceipt, ReceiptStatus, Finality, is_live,
}

abbrev pub is_confirmed : EventKind → Bool
is_confirmed EventKind.burn_confirmed = true
is_confirmed EventKind.destination_confirmed = true
is_confirmed _ = false

abbrev pub is_failure : EventKind → Bool
is_failure EventKind.source_failed = true
is_failure EventKind.destination_failed = true
is_failure _ = false

abbrev pub is_attestation : EventKind → Bool
is_attestation EventKind.attestation_observed = true
is_attestation _ = false

abbrev pub is_final : Finality → Bool
is_final Finality.finalized = true
is_final _ = false

abbrev pub succeeded : ReceiptStatus → Bool
succeeded ReceiptStatus.success = true
succeeded ReceiptStatus.reverted = false

abbrev proves_success : Option ChainReceipt → Bool
proves_success none = false
proves_success (some receipt) = succeeded receipt.status && is_final receipt.finality

abbrev proves_revert : Option ChainReceipt → Bool
proves_revert none = true
proves_revert (some receipt) = not (succeeded receipt.status) && is_final receipt.finality

-- The chain receipt of an event of a live transfer.
unfoldable pub verify_receipt : TransferEvent → Result (Unit {0})
verify_receipt event =
    if is_confirmed event.kind
    then throw_if (not (proves_success event.chain_receipt)) data_unavailable
    else if is_failure event.kind
    then throw_if (not (proves_revert event.chain_receipt)) data_unavailable
    else throw_if (is_some event.chain_receipt) accounting_invariant

unfoldable pub verify_evidence : Transfer → TransferEvent → Result (Unit {0})
unfolding verify_receipt
verify_evidence transfer event =
    if is_live transfer.evidence_mode
    then (do
      verify_receipt event
      throw_if (is_attestation event.kind && not (is_some event.attestation_hash)) data_unavailable
      throw_if (not (is_attestation event.kind) && is_some event.attestation_hash)
          accounting_invariant)
    else throw_if (is_some event.chain_receipt || is_some event.attestation_hash)
        accounting_invariant
