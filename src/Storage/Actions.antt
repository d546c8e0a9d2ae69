-- ===== src/Storage/Actions.antt =====
-- The durable plan of an action and the receipts that it is accounted for by. A transaction
-- returns its rows or an error, and then the rows are as before.
-- Code: packages/storage/src/m3.ts (`savePlan`, `loadPlan`, `applyActionReceipt`), with the keys of
-- db/migrations/0002_experiments.sql.
pub mod Settled
use alpha_proof.Base.{
  ℕ, Bool, true, false, not, ◌&&◌, ◌||◌, Option, none, some, List, find, update_first, ◌==◌, ◌!=◌,
  Result, ok, ◌>>=◌, ◌>>◌, throw_if, or_throw, data_unavailable, operation_conflict,
}
use alpha_proof.Canonical.{Value}
use alpha_proof.Accounting.State.{Ident, Hash, Portfolio}
use alpha_proof.Accounting.Receipt.{Receipt}
use alpha_proof.Accounting.Apply.{Hasher, apply_receipt}
use alpha_proof.Storage.Repository.{ScenarioRow, scenario_is, insert, set_portfolio}

pub data ActionStatus : Type 0 where
  accepted in_progress succeeded partially_succeeded failed expired : ActionStatus

-- The columns that the modelled transactions read and write.
pub record ActionRow : Type 0 where
  pub action_id : Ident
  pub experiment_id : Ident
  pub scenario_id : Ident
  pub status : ActionStatus
  pub plan_hash : Option Hash
  pub before_portfolio_hash : Option Hash

pub record PlanRow : Type 0 where
  pub action_id : Ident
  pub plan_hash : Hash
  pub payload : Value
  pub synthetic_input_bundle : Value

pub record ActionReceiptRow : Type 0 where
  pub action_id : Ident
  pub operation_id : Ident
  pub receipt_hash : Hash
  pub payload : Receipt
  pub applied_portfolio_version : ℕ

pub record Ledger : Type 0 where
  pub actions : List ActionRow
  pub plans : List PlanRow
  pub action_receipts : List ActionReceiptRow
  pub scenarios : List ScenarioRow

abbrev pub action_is : Ident → ActionRow → Bool
action_is id row = row.action_id == id

abbrev pub plan_is : Ident → PlanRow → Bool
plan_is id row = row.action_id == id

abbrev pub effect_is : Ident → Ident → ActionReceiptRow → Bool
effect_is id operation row = row.action_id == id && row.operation_id == operation

abbrev pub is_accepted : ActionStatus → Bool
is_accepted ActionStatus.accepted = true
is_accepted _ = false

abbrev pub is_terminal : ActionStatus → Bool
is_terminal ActionStatus.accepted = false
is_terminal ActionStatus.in_progress = false
is_terminal _ = true

abbrev pub plan_row : (Value → Hash) → Ident → Value → Value → PlanRow
plan_row content id plan bundle = record {
  action_id = id;
  plan_hash = content plan;
  payload = plan;
  synthetic_input_bundle = bundle;
}

abbrev pub begin_plan : Hash → Hash → ActionRow → ActionRow
begin_plan hash before row = record row {
  status = ActionStatus.in_progress;
  plan_hash = some hash;
  before_portfolio_hash = some before;
}

abbrev pub plan_differs : (Value → Hash) → Value → Value → PlanRow → Bool
plan_differs content plan bundle prior =
    prior.plan_hash != content plan || content prior.synthetic_input_bundle != content bundle

unfoldable pub save_found :
    (Value → Hash)
    → Hasher
    → Ident
    → Value
    → Value
    → ActionRow
    → ScenarioRow
    → Ledger
    → Option PlanRow
    → Result (Hash × Ledger)
save_found content hasher id plan bundle action scenario ledger (some prior) = do
  throw_if (plan_differs content plan bundle prior) operation_conflict
  ok (content plan, ledger)
save_found content hasher id plan bundle action scenario ledger none = do
  throw_if (not (is_accepted action.status)) operation_conflict
  rows ← insert (plan_is id) (plan_row content id plan bundle) ledger.plans
  ok (
    content plan,
    record ledger {
      plans = rows;
      actions =
          update_first (action_is id)
            (begin_plan (content plan) (hasher.portfolio_hash scenario.portfolio)) ledger.actions;
    },
  )

unfoldable pub save_plan :
    (Value → Hash) → Hasher → Ident → Value → Value → Ledger → Result (Hash × Ledger)
save_plan content hasher id plan bundle ledger = do
  action ← or_throw (find (action_is id) ledger.actions) data_unavailable
  scenario ←
      or_throw (find (scenario_is action.experiment_id action.scenario_id) ledger.scenarios)
        data_unavailable
  save_found content hasher id plan bundle action scenario ledger (find (plan_is id) ledger.plans)

unfoldable pub load_plan : Ident → Ledger → Option PlanRow
load_plan id ledger = find (plan_is id) ledger.plans

abbrev pub effect_row : Hasher → Ident → Receipt → ℕ → ActionReceiptRow
effect_row hasher id receipt version = record {
  action_id = id;
  operation_id = receipt.base.operation_id;
  receipt_hash = hasher.receipt_hash receipt;
  payload = receipt;
  applied_portfolio_version = version;
}

unfoldable pub apply_found :
    Hasher
    → Ident
    → Receipt
    → ActionRow
    → ScenarioRow
    → Ledger
    → Option ActionReceiptRow
    → Result (Portfolio × Ledger)
apply_found hasher id receipt action scenario ledger (some prior) = do
  throw_if (prior.receipt_hash != hasher.receipt_hash receipt) operation_conflict
  ok (scenario.portfolio, ledger)
apply_found hasher id receipt action scenario ledger none = do
  throw_if (is_terminal action.status) operation_conflict
  next ← apply_receipt hasher scenario.portfolio receipt
  rows ←
      insert (effect_is id receipt.base.operation_id) (effect_row hasher id receipt next.version)
        ledger.action_receipts
  ok (
    next,
    record ledger {
      action_receipts = rows;
      scenarios =
          update_first (scenario_is action.experiment_id action.scenario_id) (set_portfolio next)
            ledger.scenarios;
    },
  )

unfoldable pub apply_action_receipt :
    Hasher → Ident → Receipt → Ledger → Result (Portfolio × Ledger)
apply_action_receipt hasher id receipt ledger = do
  action ← or_throw (find (action_is id) ledger.actions) data_unavailable
  scenario ←
      or_throw (find (scenario_is action.experiment_id action.scenario_id) ledger.scenarios)
        data_unavailable
  apply_found hasher id receipt action scenario ledger
      (find (effect_is id receipt.base.operation_id) ledger.action_receipts)
