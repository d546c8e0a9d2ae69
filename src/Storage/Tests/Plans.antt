-- ===== src/Storage/Tests/Plans.antt =====
-- An action, its plan and its receipt.
-- Code: packages/storage/src/m3.ts (`savePlan`, `applyActionReceipt`).
use alpha_proof.Base.{ℕ, ◌≡◌, refl, true, false, none, [], ◌∷◌, ok, err, operation_conflict}
use alpha_proof.Canonical.{Value}
use alpha_proof.Accounting.State.{Portfolio}
use alpha_proof.Accounting.Receipt.{Receipt}
use alpha_proof.Accounting.Tests.Start.{
  hasher, start, base, reserve_receipt, reserved_state, apply-reserve,
}
use alpha_proof.Storage.Repository.{ScenarioRow}
use alpha_proof.Storage.Actions.{
  ActionStatus, ActionRow, Ledger, plan_row, begin_plan, save_found, save_plan, effect_row,
  apply_found, apply_action_receipt,
}
use alpha_proof.Storage.Actions.Settled.{
  save_plan-save_plan, apply_action_receipt-apply_action_receipt,
}

abbrev content : Value → ℕ
content (Value.boolean true) = 1
content (Value.boolean false) = 2
content _ = 3

abbrev action : ActionRow
action = record {
  action_id = 5;
  experiment_id = 1;
  scenario_id = 2;
  status = ActionStatus.accepted;
  plan_hash = none;
  before_portfolio_hash = none;
}

abbrev scenario : Portfolio → ℕ → ScenarioRow
scenario portfolio version = record {
  experiment_id = 1;
  scenario_id = 2;
  portfolio = portfolio;
  portfolio_version = version;
}

abbrev ledger : Ledger
ledger = record {
  actions = action ∷ [];
  plans = [];
  action_receipts = [];
  scenarios = scenario start 0 ∷ [];
}

abbrev plan : Value
plan = Value.boolean true

abbrev planned : Ledger
planned = record ledger {
  actions = begin_plan 1 1 action ∷ [];
  plans = plan_row content 5 plan Value.null ∷ [];
}

plan_saved : save_plan content hasher 5 plan Value.null ledger ≡ ok (1, planned)
unfolding save_plan save_found
plan_saved = refl

save_plan-save_plan_example :
    save_plan content hasher 5 (Value.boolean false) Value.null planned ≡ err operation_conflict
save_plan-save_plan_example =
    save_plan-save_plan content hasher 5 plan Value.null (Value.boolean false) Value.null ledger
      plan_saved

abbrev applied : Ledger
applied = record planned {
  action_receipts = effect_row hasher 5 reserve_receipt 1 ∷ [];
  scenarios = scenario reserved_state 1 ∷ [];
}

receipt_applied :
    apply_action_receipt hasher 5 reserve_receipt planned ≡ ok (reserved_state, applied)
unfolding apply_action_receipt apply_found
receipt_applied = rw apply-reserve refl

-- The same operation at another time.
abbrev changed_receipt : Receipt
changed_receipt = record { base = base 40 0 6; kind = reserve_receipt.kind }

apply_action_receipt-apply_action_receipt_example :
    apply_action_receipt hasher 5 changed_receipt applied ≡ err operation_conflict
apply_action_receipt-apply_action_receipt_example =
    apply_action_receipt-apply_action_receipt hasher 5 reserve_receipt changed_receipt planned refl
      receipt_applied
