-- ===== src/Accounting/Books/Conservation.antt =====
-- What the cash and cost helpers of the accounting do to the totals of a portfolio.
-- Code: packages/accounting/src/index.ts (`familyForView` to `creditCash`, `applyCosts`).
use alpha_proof.Base.{
  ℕ, ◌+◌, ◌-◌, ◌≡◌, List, [], ◌∷◌, arith, total_by-update_first, total_by-push, ok, >>=-eq-ok,
  >>-eq-ok, or_throw, accounting_invariant,
}
use alpha_proof.Accounting.State.{
  Ident, Portfolio, CashBalance, AccountingCost, CostFunding, FeePayable, RecognizedCost,
}
use alpha_proof.Accounting.Receipt.{ReceiptBase}
use alpha_proof.Accounting.Amounts.{require_uint}
use alpha_proof.Accounting.Books.{
  cash_total, payable_total, cost_total, family_is, payable_of, set_cash, cash_for_family,
  debit_cash, credit_cash, unique, check_cost, pay_cost, fund_cost, apply_cost, apply_cost_list,
  apply_costs,
}

-- The state differs in its cash, its payables and its recognized costs at most.
pub record SameAside (s t : Portfolio) : Type 0 where
  pub frame :
      t ≡ record s { cash = t.cash; payables = t.payables; recognized_costs = t.recognized_costs }

set_cash-total :
    (family amount : ℕ) (s : Portfolio) {cash : CashBalance}
    → cash_for_family s family ≡ ok cash
    → cash_total (set_cash family amount s).cash + cash.amount_usdc_minor
      ≡ cash_total s.cash + amount
unfolding cash_for_family
set_cash-total family amount s {cash} h = ground (
  arith,
  total_by-update_first (λ item. item.amount_usdc_minor) (family_is family)
      (λ item. record item { amount_usdc_minor = amount }) s.cash cash,
)

debit_cash-total :
    (s : Portfolio) (family amount : ℕ) {t : Portfolio}
    → debit_cash s family amount ≡ ok t
    → cash_total t.cash + amount ≡ cash_total s.cash
unfolding debit_cash
debit_cash-total s family amount h =
    let (cash, found, rest) = >>=-eq-ok (cash_for_family s family) _ h in
    ground (arith, set_cash-total family (cash.amount_usdc_minor - amount) s found)

credit_cash-total :
    (s : Portfolio) (family amount : ℕ) {t : Portfolio}
    → credit_cash s family amount ≡ ok t
    → cash_total t.cash ≡ cash_total s.cash + amount
unfolding credit_cash require_uint
credit_cash-total s family amount h =
    let (cash, found, rest) = >>=-eq-ok (cash_for_family s family) _ h in
    ground (arith, set_cash-total family (cash.amount_usdc_minor + amount) s found)

debit_cash-frame :
    (s : Portfolio) (family amount : ℕ) {t : Portfolio}
    → debit_cash s family amount ≡ ok t
    → t ≡ record s { cash = t.cash }
unfolding debit_cash
debit_cash-frame s family amount h = ground arith

credit_cash-frame :
    (s : Portfolio) (family amount : ℕ) {t : Portfolio}
    → credit_cash s family amount ≡ ok t
    → t ≡ record s { cash = t.cash }
unfolding credit_cash
credit_cash-frame s family amount h = ground arith

-- A debit and a credit change the cash alone, by the amount.
pub record Debited (s t : Portfolio) (amount : ℕ) : Type 0 where
  pub total : cash_total t.cash + amount ≡ cash_total s.cash
  pub frame : t ≡ record s { cash = t.cash }

pub record Credited (s t : Portfolio) (amount : ℕ) : Type 0 where
  pub total : cash_total t.cash ≡ cash_total s.cash + amount
  pub frame : t ≡ record s { cash = t.cash }

pub debit_cash-Debited :
    (s : Portfolio) (family amount : ℕ) {t : Portfolio}
    → debit_cash s family amount ≡ ok t
    → Debited s t amount
debit_cash-Debited s family amount h = record {
  total = debit_cash-total s family amount h;
  frame = debit_cash-frame s family amount h;
}

pub credit_cash-Credited :
    (s : Portfolio) (family amount : ℕ) {t : Portfolio}
    → credit_cash s family amount ≡ ok t
    → Credited s t amount
credit_cash-Credited s family amount h = record {
  total = credit_cash-total s family amount h;
  frame = credit_cash-frame s family amount h;
}

-- Cash and costs together, against what is owed.
pub record CostsKept (s t : Portfolio) (withheld : ℕ) : Type 0 where
  pub aside : SameAside s t
  pub balance :
      cash_total t.cash + cost_total t.recognized_costs + payable_total s.payables
      ≡ cash_total s.cash + cost_total s.recognized_costs + payable_total t.payables + withheld

pay_cost-debit :
    (c : AccountingCost) (s : Portfolio) {t : Portfolio}
    → pay_cost c s ≡ ok t
    → (family : Ident) × (debit_cash s family c.amount_usdc_minor ≡ ok t)
unfolding pay_cost
pay_cost-debit c s h =
    let (family, named, rest) =
      >>=-eq-ok (or_throw c.cash_balance_family_id accounting_invariant) _ h in
    let (cash, found, rest') = >>=-eq-ok (cash_for_family s family) _ rest in (family, ground arith)

-- What one cost does, before it is recognized.
record Funded (c : AccountingCost) (s t : Portfolio) (w : ℕ) : Type 0 where
  aside : SameAside s t
  recognized : t.recognized_costs ≡ s.recognized_costs
  balance :
      cash_total t.cash + c.amount_usdc_minor + payable_total s.payables
      ≡ cash_total s.cash + payable_total t.payables + w

fund_cost-Funded :
    (f : CostFunding) (c : AccountingCost) (s : Portfolio) {t : Portfolio} {w : ℕ}
    → fund_cost f c s ≡ ok (t, w)
    → Funded c s t w
unfolding fund_cost
fund_cost-Funded CostFunding.available_cash c s h =
    let (paid, e, rest) = >>=-eq-ok (pay_cost c s) _ h in
    let (family, debited) = pay_cost-debit c s e in
    ground (arith, debit_cash-Debited s family c.amount_usdc_minor debited)
fund_cost-Funded CostFunding.payable c s h =
    ground (
      arith,
      total_by-push (λ (item : FeePayable). item.amount_usdc_minor) s.payables (payable_of c),
    )
fund_cost-Funded CostFunding.withheld c s h = ground arith

-- What a run over a list of costs does, from what was withheld before to what is after.
record Recognized (s t : Portfolio) (w v : ℕ) : Type 0 where
  aside : SameAside s t
  balance :
      cash_total t.cash + cost_total t.recognized_costs + payable_total s.payables + w
      ≡ cash_total s.cash + cost_total s.recognized_costs + payable_total t.payables + v

apply_cost-Recognized :
    (r : ReceiptBase) (c : AccountingCost) (s : Portfolio) (w : ℕ) {t : Portfolio} {v : ℕ}
    → apply_cost r c (s, w) ≡ ok (t, v)
    → Recognized s t w v
unfolding apply_cost
apply_cost-Recognized r c s w h =
    let (checked, h₂) = >>-eq-ok (check_cost r c s) _ h in
    let (out, funding, h₃) = >>=-eq-ok (fund_cost c.funding c s) _ h₂ in
    ground (
      arith,
      fund_cost-Funded c.funding c s {t = out.0} {w = out.1} funding,
      total_by-push (λ (item : RecognizedCost). item.cost.amount_usdc_minor) out.0.recognized_costs
          (record { cost = c; operation_id = r.operation_id }),
    )

apply_cost_list-Recognized :
    (r : ReceiptBase) (cs : List AccountingCost) (s : Portfolio) (w : ℕ) {t : Portfolio} {v : ℕ}
    → apply_cost_list r cs (s, w) ≡ ok (t, v)
    → Recognized s t w v
unfolding apply_cost_list
apply_cost_list-Recognized r [] s w h = ground arith
apply_cost_list-Recognized r (c ∷ cs) s w h =
    let (mid, first, rest) = >>=-eq-ok (apply_cost r c (s, w)) _ h in
    ground (
      arith,
      apply_cost-Recognized r c s w {t = mid.0} {v = mid.1} first,
      apply_cost_list-Recognized r cs mid.0 mid.1 rest,
    )

pub apply_costs-CostsKept :
    (s : Portfolio) (r : ReceiptBase) (cs : List AccountingCost) (w : ℕ) {t : Portfolio}
    → apply_costs s r cs w ≡ ok t
    → CostsKept s t w
unfolding apply_costs
apply_costs-CostsKept s r cs w h =
    let (checked, h₁) = >>-eq-ok (unique cs (λ cost. cost.cost_id)) _ h in
    let (out, run, h₂) = >>=-eq-ok (apply_cost_list r cs (s, 0)) _ h₁ in
    ground (arith, apply_cost_list-Recognized r cs s 0 {t = out.0} {v = out.1} run)
