-- ===== src/Storage/Actions/Settled.antt =====
-- What a saved plan and an applied receipt settle for every later call.
-- Code: packages/storage/src/m3.ts (`savePlan`, `applyActionReceipt`).
use alpha_proof.Base.{
  ◌≡◌, refl, ap, subst, ◌∙◌, false, not, ◌&&◌, Option, none, some, find, find-push,
  find-update_same, ◌==◌, ◌!=◌, if◌then◌else◌, Result, ok, err, throw_if, throw_if-ok, or_throw,
  or_throw-eq-ok, ok-injective, data_unavailable, operation_conflict, >>=-elim, >>-elim, arith,
}
use alpha_proof.Canonical.{Value}
use alpha_proof.Accounting.State.{Ident, Hash, Portfolio}
use alpha_proof.Accounting.Receipt.{Receipt}
use alpha_proof.Accounting.Apply.{Hasher, apply_receipt}
use alpha_proof.Storage.Repository.{ScenarioRow, scenario_is, insert, set_portfolio}
use alpha_proof.Storage.Repository.Appended.{insert-ok}
use alpha_proof.Storage.Repository.Accounts.{own_scenario}
use alpha_proof.Storage.Actions.{
  ActionRow, PlanRow, ActionReceiptRow, Ledger, action_is, plan_is, effect_is, is_accepted,
  is_terminal, plan_row, begin_plan, plan_differs, save_found, save_plan, effect_row, apply_found,
  apply_action_receipt,
}

-- The rows that a saved plan leaves.
record Saved (content : Value → Hash) (id : Ident) (plan bundle : Value) (ledger : Ledger)
    : Type 0 where
  action : ActionRow
  scenario : ScenarioRow
  prior : PlanRow
  action_found : find (action_is id) ledger.actions ≡ some action
  scenario_found :
      find (scenario_is action.experiment_id action.scenario_id) ledger.scenarios ≡ some scenario
  stored : find (plan_is id) ledger.plans ≡ some prior
  same : plan_differs content plan bundle prior ≡ false

abbrev plan_again : (Value → Hash) → Value → Value → Value → Value → Ledger → Result (Hash × Ledger)
plan_again content plan bundle other inputs ledger =
    if content other == content plan && content inputs == content bundle
    then ok (content plan, ledger)
    else err operation_conflict

Saved-save_plan :
    (content : Value → Hash) (hasher : Hasher) (id : Ident) (plan bundle other inputs : Value)
    (ledger : Ledger)
    → Saved content id plan bundle ledger
    → save_plan content hasher id other inputs ledger
      ≡ plan_again content plan bundle other inputs ledger
unfolding save_plan save_found
Saved-save_plan content hasher id plan bundle other inputs ledger v =
    let same = v.same in rw (v.action_found, v.scenario_found, v.stored) (ground (arith, same))

save_found-Saved :
    (content : Value → Hash) (hasher : Hasher) (id : Ident) (plan bundle : Value)
    (action : ActionRow) (scenario : ScenarioRow) (ledger : Ledger) (o : Option PlanRow)
    {hash : Hash} {ledger' : Ledger}
    → find (action_is id) ledger.actions ≡ some action
    → find (scenario_is action.experiment_id action.scenario_id) ledger.scenarios ≡ some scenario
    → find (plan_is id) ledger.plans ≡ o
    → save_found content hasher id plan bundle action scenario ledger o ≡ ok (hash, ledger')
    → Saved content id plan bundle ledger'
unfolding save_found
save_found-Saved content hasher id plan bundle action scenario ledger (some prior) {hash} {ledger'}
      a s e h =
    >>-elim (throw_if (plan_differs content plan bundle prior) operation_conflict) _ h λ same rest.
      subst (Saved content id plan bundle) (ap (λ x. x.1) (ok-injective rest)) (record {
        action = action;
        scenario = scenario;
        prior = prior;
        action_found = a;
        scenario_found = s;
        stored = e;
        same = throw_if-ok _ _ same;
      })
save_found-Saved content hasher id plan bundle action scenario ledger none {hash} {ledger'} a s e
      h =
    >>-elim (throw_if (not (is_accepted action.status)) operation_conflict) _ h λ free h₁.
      >>=-elim (insert (plan_is id) (plan_row content id plan bundle) ledger.plans) _ h₁
        λ rows inserted rest.
          let i = insert-ok (plan_is id) (plan_row content id plan bundle) ledger.plans inserted in
          subst (Saved content id plan bundle) (ap (λ x. x.1) (ok-injective rest)) (record {
            action = begin_plan (content plan) (hasher.portfolio_hash scenario.portfolio) action;
            scenario = scenario;
            prior = plan_row content id plan bundle;
            action_found =
                find-update_same (λ row. row.action_id)
                  (begin_plan (content plan) (hasher.portfolio_hash scenario.portfolio)) (λ x. refl)
                  id ledger.actions action a;
            scenario_found = s;
            stored =
                ap (find (plan_is id)) i.1
                ∙ find-push (plan_is id) ledger.plans (plan_row content id plan bundle) e
                ∙ ground arith;
            same = ground arith;
          })

-- Once a plan is saved for an action, a later call with a plan and inputs of the same hashes
-- returns the same hash and changes no row, and any other call is refused as a conflict.
pub save_plan-save_plan :
    (content : Value → Hash) (hasher : Hasher) (id : Ident) (plan bundle other inputs : Value)
    (ledger : Ledger) {hash : Hash} {ledger' : Ledger}
    → save_plan content hasher id plan bundle ledger ≡ ok (hash, ledger')
    → save_plan content hasher id other inputs ledger' ≡ (
        if content other == content plan && content inputs == content bundle
        then ok (content plan, ledger')
        else err operation_conflict)
unfolding save_plan
save_plan-save_plan content hasher id plan bundle other inputs ledger {hash} {ledger'} h =
    >>=-elim (or_throw (find (action_is id) ledger.actions) data_unavailable) _ h λ action a h₁.
      >>=-elim
        (or_throw (find (scenario_is action.experiment_id action.scenario_id) ledger.scenarios)
          data_unavailable)
        _ h₁
        λ scenario s h₂. Saved-save_plan content hasher id plan bundle other inputs ledger' (
          save_found-Saved content hasher id plan bundle action scenario ledger
            (find (plan_is id) ledger.plans) (or_throw-eq-ok _ _ a) (or_throw-eq-ok _ _ s) refl h₂)

-- The rows that an applied receipt leaves.
record Applied (hasher : Hasher) (id : Ident) (receipt : Receipt) (next : Portfolio)
    (ledger : Ledger) : Type 0 where
  action : ActionRow
  scenario : ScenarioRow
  prior : ActionReceiptRow
  action_found : find (action_is id) ledger.actions ≡ some action
  scenario_found :
      find (scenario_is action.experiment_id action.scenario_id) ledger.scenarios ≡ some scenario
  stored : find (effect_is id receipt.base.operation_id) ledger.action_receipts ≡ some prior
  same : (prior.receipt_hash != hasher.receipt_hash receipt) ≡ false
  result : scenario.portfolio ≡ next

Applied-apply_action_receipt :
    (hasher : Hasher) (id : Ident) (receipt other : Receipt) (next : Portfolio) (ledger : Ledger)
    → other.base.operation_id ≡ receipt.base.operation_id
    → Applied hasher id receipt next ledger
    → apply_action_receipt hasher id other ledger ≡ (
        if hasher.receipt_hash other == hasher.receipt_hash receipt
        then ok (next, ledger)
        else err operation_conflict)
unfolding apply_action_receipt apply_found
Applied-apply_action_receipt hasher id receipt other next ledger operation v =
    let same = v.same in
    let stored = ap (λ n. find (effect_is id n) ledger.action_receipts) operation ∙ v.stored in
    rw (v.action_found, v.scenario_found, stored, v.result) (ground (arith, same))

apply_found-Applied :
    (hasher : Hasher) (id : Ident) (receipt : Receipt) (action : ActionRow) (scenario : ScenarioRow)
    (ledger : Ledger) (o : Option ActionReceiptRow) {next : Portfolio} {ledger' : Ledger}
    → find (action_is id) ledger.actions ≡ some action
    → find (scenario_is action.experiment_id action.scenario_id) ledger.scenarios ≡ some scenario
    → find (effect_is id receipt.base.operation_id) ledger.action_receipts ≡ o
    → apply_found hasher id receipt action scenario ledger o ≡ ok (next, ledger')
    → Applied hasher id receipt next ledger'
unfolding apply_found
apply_found-Applied hasher id receipt action scenario ledger (some prior) {next} {ledger'} a s e h =
    >>-elim (throw_if (prior.receipt_hash != hasher.receipt_hash receipt) operation_conflict) _ h
      λ same rest.
        subst (λ x. Applied hasher id receipt x.0 x.1) (ok-injective rest)
          (record {
            action = action;
            scenario = scenario;
            prior = prior;
            action_found = a;
            scenario_found = s;
            stored = e;
            same = throw_if-ok _ _ same;
            result = refl;
          })
apply_found-Applied hasher id receipt action scenario ledger none {next} {ledger'} a s e h =
    >>-elim (throw_if (is_terminal action.status) operation_conflict) _ h λ free h₁.
      >>=-elim (apply_receipt hasher scenario.portfolio receipt) _ h₁ λ portfolio applied h₂.
        >>=-elim
          (insert (effect_is id receipt.base.operation_id)
            (effect_row hasher id receipt portfolio.version) ledger.action_receipts)
          _ h₂
          λ rows inserted rest.
            let i =
              insert-ok (effect_is id receipt.base.operation_id)
                (effect_row hasher id receipt portfolio.version) ledger.action_receipts inserted in
            subst (λ x. Applied hasher id receipt x.0 x.1) (ok-injective rest)
              (record {
                action = action;
                scenario = set_portfolio portfolio scenario;
                prior = effect_row hasher id receipt portfolio.version;
                action_found = a;
                scenario_found =
                    own_scenario action.experiment_id action.scenario_id portfolio ledger.scenarios
                      scenario s;
                stored =
                    ap (find (effect_is id receipt.base.operation_id)) i.1
                    ∙ find-push (effect_is id receipt.base.operation_id) ledger.action_receipts
                        (effect_row hasher id receipt portfolio.version) e
                    ∙ ground arith;
                same = ground arith;
                result = refl;
              })

-- Once a receipt is applied for an action, a later call under the same operation returns the same
-- portfolio and changes no row where the receipt has the same hash,
-- and is refused as a conflict otherwise.
pub apply_action_receipt-apply_action_receipt :
    (hasher : Hasher) (id : Ident) (receipt other : Receipt) (ledger : Ledger) {next : Portfolio}
    {ledger' : Ledger}
    → other.base.operation_id ≡ receipt.base.operation_id
    → apply_action_receipt hasher id receipt ledger ≡ ok (next, ledger')
    → apply_action_receipt hasher id other ledger' ≡ (
        if hasher.receipt_hash other == hasher.receipt_hash receipt
        then ok (next, ledger')
        else err operation_conflict)
unfolding apply_action_receipt
apply_action_receipt-apply_action_receipt hasher id receipt other ledger {next} {ledger'} operation
      h =
    >>=-elim (or_throw (find (action_is id) ledger.actions) data_unavailable) _ h λ action a h₁.
      >>=-elim
        (or_throw (find (scenario_is action.experiment_id action.scenario_id) ledger.scenarios)
          data_unavailable)
        _ h₁
        λ scenario s h₂.
          Applied-apply_action_receipt hasher id receipt other next ledger' operation (
            apply_found-Applied hasher id receipt action scenario ledger
              (find (effect_is id receipt.base.operation_id) ledger.action_receipts)
              (or_throw-eq-ok _ _ a) (or_throw-eq-ok _ _ s) refl h₂)
