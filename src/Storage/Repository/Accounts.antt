-- ===== src/Storage/Repository/Accounts.antt =====
-- The portfolios of the scenarios under the events of their transfers.
-- Code: packages/storage/src/m5.ts (`appendEvent`).
use alpha_proof.Base.{
  ℕ, ◌≤◌, ◌≡◌, refl, sym, ap, subst, subst₂, ◌∙◌, ◌⊎◌, inl, inr, false, ◌&&◌, Option, none, some,
  List, [], ◌∷◌, ◌==◌, find, update_first, Bool-cases, Option-cases, eq_of_some, ok, ok-injective,
  >>=-elim, arith,
}
use alpha_proof.Accounting.State.{Ident, Timestamp, Portfolio, AccountingCost}
use alpha_proof.Accounting.Receipt.{Receipt}
use alpha_proof.Accounting.Check.Sound.{IsValid}
use alpha_proof.Accounting.Apply.{Hasher, apply_receipt, prior_receipt}
use alpha_proof.Accounting.Apply.Once.{apply_receipt-Accepted, Accepted-same, apply_receipt-Logged}
use alpha_proof.Accounting.Apply.Sequence.{apply_receipt-Advances}
use alpha_proof.Transfers.State.{Transfer, TransferEvent}
use alpha_proof.Storage.Queue.{claim_transfer}
use alpha_proof.Storage.Repository.{
  TransferRow, ScenarioRow, Database, Contents, scenario_is, insert, receipt_taken, receipt_row,
  set_portfolio, account, create,
}
use alpha_proof.Storage.Repository.Append.{claim, retry, wake_waiting}
use alpha_proof.Storage.Repository.Appended.{Recorded, append_event-Appended, Appended-cases}
use alpha_proof.Storage.Repository.Created.{transfer_ids, job_ids, create-whole}
use alpha_proof.Storage.Repository.Steps.{Step, Reaches}
use alpha_proof.Storage.Repository.Jobs.{Reaches-HasJobs}

-- The scenario has a row, its portfolio is valid and stands at the version that the row names,
-- which is not below another one.
pub record Accounted (experiment scenario : Ident) (least : ℕ) (db : Database) : Type 0 where
  pub row : ScenarioRow
  pub found : find (scenario_is experiment scenario) db.scenarios ≡ some row
  pub version : row.portfolio_version ≡ row.portfolio.version
  pub valid : IsValid row.portfolio
  pub reached : least ≤ row.portfolio.version

apply_receipt-forward :
    (h : Hasher) (s : Portfolio) (r : Receipt) {t : Portfolio}
    → apply_receipt h s r ≡ ok t
    → s.version ≤ t.version
apply_receipt-forward h s r {t} e = elim (Option-cases (prior_receipt s r)) [
  | inl absent ↦ omega (arith, (apply_receipt-Advances h s r e absent).version)
  | inr (p, found) ↦
      let same = (Accepted-same h s r (apply_receipt-Accepted h s r e) found).0 in
      omega (arith, ap (λ x. x.version) same)
]

module _ (experiment scenario : Ident) (portfolio : Portfolio) where
  pub own_scenario :
      (rows : List ScenarioRow) (row : ScenarioRow)
      → find (scenario_is experiment scenario) rows ≡ some row
      → find
          (scenario_is experiment scenario)
          (update_first (scenario_is experiment scenario) (set_portfolio portfolio) rows)
        ≡ some (set_portfolio portfolio row)
  own_scenario [] row h = ground arith
  own_scenario (x ∷ xs) row h = ground (arith, own_scenario xs row)

  other_scenario :
      (e s : Ident) (rows : List ScenarioRow)
      → (e == experiment && s == scenario) ≡ false
      → find
          (scenario_is e s)
          (update_first (scenario_is experiment scenario) (set_portfolio portfolio) rows)
        ≡ find (scenario_is e s) rows
  other_scenario e s [] h = refl
  other_scenario e s (x ∷ xs) h = ground (arith, other_scenario e s xs h)

-- The scenarios once the accounting is done.
account-scenarios :
    (c : Contents) (id : Ident) (before : Transfer) (scenario : ScenarioRow) (r : Option Receipt)
    (db : Database) {accounted : Database}
    → account c id before scenario r db ≡ ok accounted
    → (accounted.scenarios ≡ db.scenarios)
      ⊎ ((receipt : Receipt) × (portfolio : Portfolio) × (apply_receipt c.hasher scenario.portfolio
              receipt
            ≡ ok portfolio)
          × (accounted.scenarios
              ≡ update_first
                  (scenario_is before.experiment_id before.scenario_id)
                  (set_portfolio portfolio)
                  db.scenarios))
unfolding account
account-scenarios c id before scenario none db h =
    inl (ap (λ d. d.scenarios) (sym (ok-injective h)))
account-scenarios c id before scenario (some receipt) db h =
    >>=-elim (apply_receipt c.hasher scenario.portfolio receipt) _ h λ portfolio applied h₁.
      >>=-elim
        (insert (receipt_taken id receipt.base.operation_id)
          (receipt_row c id receipt portfolio.version) db.receipts)
        _ h₁
        λ rows inserted h₂.
          inr (receipt, portfolio, applied, ap (λ d. d.scenarios) (sym (ok-injective h₂)))

Accounted-kept :
    (e s : Ident) (n : ℕ) (db db' : Database)
    → db'.scenarios ≡ db.scenarios
    → Accounted e s n db
    → Accounted e s n db'
Accounted-kept e s n db db' same v = record {
  row = v.row;
  found = ap (find (scenario_is e s)) same ∙ v.found;
  version = v.version;
  valid = v.valid;
  reached = v.reached;
}

Accounted-own :
    (h : Hasher) (e s : Ident) (n : ℕ) (db db' : Database) (receipt : Receipt)
    (portfolio : Portfolio) (v : Accounted e s n db)
    → apply_receipt h v.row.portfolio receipt ≡ ok portfolio
    → db'.scenarios ≡ update_first (scenario_is e s) (set_portfolio portfolio) db.scenarios
    → Accounted e s n db'
Accounted-own h e s n db db' receipt portfolio v applied same = record {
  row = set_portfolio portfolio v.row;
  found = ap (find (scenario_is e s)) same ∙ own_scenario e s portfolio db.scenarios v.row v.found;
  version = refl;
  valid = (apply_receipt-Logged h v.row.portfolio receipt applied).0;
  reached = omega (arith, v.reached, apply_receipt-forward h v.row.portfolio receipt applied);
}

Recorded-Accounted :
    (c : Contents) (now : Timestamp) (id : Ident) (before after : Transfer) (event : TransferEvent)
    (costs : List AccountingCost) (row : TransferRow) (db db' : Database) (e s : Ident) (n : ℕ)
    → Recorded c now id before after event costs row db db'
    → Accounted e s n db
    → Accounted e s n db'
Recorded-Accounted c now id before after event costs row db db' e s n r v =
    let rows = ap (λ d. d.scenarios) r.rows in
    elim (account-scenarios c id before r.scenario r.receipt db r.accounting) [
      | inl same ↦ Accounted-kept e s n db db' (rows ∙ same) v
      | inr (receipt, portfolio, applied, same) ↦
          elim (Bool-cases (e == before.experiment_id && s == before.scenario_id)) [
            | inl own ↦
                let e₁ : e ≡ before.experiment_id = ground (arith, own) in
                let s₁ : s ≡ before.scenario_id = ground (arith, own) in
                let v' = subst₂ (λ x y. Accounted x y n db) e₁ s₁ v in
                let one = eq_of_some (sym v'.found ∙ r.scenario_found) in
                subst₂ (λ x y. Accounted x y n db') (sym e₁) (sym s₁)
                  (Accounted-own c.hasher before.experiment_id before.scenario_id n db db' receipt
                    portfolio v'
                    (subst (λ x. apply_receipt c.hasher x.portfolio receipt ≡ ok portfolio)
                      (sym one) applied)
                    (rows ∙ same))
            | inr other ↦ record {
              row = v.row;
              found =
                  ap (find (scenario_is e s)) (rows ∙ same)
                  ∙ other_scenario before.experiment_id before.scenario_id portfolio e s
                      db.scenarios other
                  ∙ v.found;
              version = v.version;
              valid = v.valid;
              reached = v.reached;
            }
          ]
    ]

Step-Accounted :
    (c : Contents) (e s : Ident) (n : ℕ) {db db' : Database}
    → Step c db db'
    → job_ids db ≡ transfer_ids db
    → Accounted e s n db
    → Accounted e s n db'
unfolding claim claim_transfer retry wake_waiting
Step-Accounted c e s n {db} {db'} (Step.created now transfer) h v =
    elim (create-whole now transfer db h) [
      | inl ran ↦ Accounted-kept e s n db (create now transfer db).1 (ap (λ x. x.1.scenarios) ran) v
      | inr (code, ran) ↦
          Accounted-kept e s n db (create now transfer db).1 (ap (λ x. x.1.scenarios) ran) v
    ]
Step-Accounted c e s n {db} {db'} (Step.appended now id event costs t ran) h v =
    let a = append_event-Appended c now id event costs db ran in
    elim (Appended-cases c now id event costs db a) [
      | inl (same, unchanged) ↦ subst (Accounted e s n) (sym unchanged) v
      | inr (applied, r) ↦
          Recorded-Accounted c now id a.row.payload t event costs a.row db db' e s n r v
    ]
Step-Accounted c e s n {db} {db'} (Step.claimed worker seconds now) h v =
    Accounted-kept e s n db (claim worker seconds now db).1 refl v
Step-Accounted c e s n {db} {db'} (Step.retried other code seconds now) h v =
    Accounted-kept e s n db (retry other code seconds now db) refl v
Step-Accounted c e s n {db} {db'} (Step.woken other now) h v =
    Accounted-kept e s n db (wake_waiting other now db) refl v

-- Where every transfer had one job: a scenario whose portfolio was valid, at the version that its
-- row named and not below another one, has such a portfolio after any steps.
pub Reaches-Accounted :
    (c : Contents) (e s : Ident) (n : ℕ) {db db' : Database}
    → job_ids db ≡ transfer_ids db
    → Accounted e s n db
    → Reaches c db db'
    → Accounted e s n db'
Reaches-Accounted c e s n h v Reaches.here = v
Reaches-Accounted c e s n h v (Reaches.step before last) =
    Step-Accounted c e s n last (Reaches-HasJobs c before h) (Reaches-Accounted c e s n h v before)
