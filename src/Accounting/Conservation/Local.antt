-- ===== src/Accounting/Conservation/Local.antt =====
-- The value of a portfolio over reservations, costs, approvals, swaps and payables.
-- Code: packages/accounting/src/index.ts (`applyReceipt`).
use alpha_proof.Base.{
  ℕ, ◌-◌, ◌≡◌, ltb, ◌==◌, any, find, or_throw, or_throw-eq-ok, ◌!=◌, throw_if, accounting_invariant,
  payable_not_found, Option, none, some, List, arith, ok, >>=-elim, >>-elim, total_by-push,
  total_by-filter,
}
use alpha_proof.Accounting.State.{Portfolio, AccountingCost, Reservation, FeePayable, Allowance}
use alpha_proof.Accounting.Receipt.{ReceiptBase, Approval, Swap}
use alpha_proof.Accounting.Books.{family_for_view, debit_cash, credit_cash}
use alpha_proof.Accounting.Books.Conservation.{
  debit_cash-Debited, credit_cash-Credited, apply_costs-CostsKept,
}
use alpha_proof.Accounting.Effects.Local.{
  reservation_is, reservation_of, has_costs, payable_is, allowance_is, reserve, charge,
  charge_approval, approve, exchange, settle_payable,
}
use alpha_proof.Accounting.Conservation.{Kept, UniqueIds}

pub reserve-Kept :
    (s : Portfolio) (r : ReceiptBase) (id view amount : ℕ) (cs : List AccountingCost)
    {t : Portfolio}
    → reserve s r id view amount cs ≡ ok t
    → Kept s t
unfolding reserve
reserve-Kept s r id view amount cs h =
    >>-elim (throw_if (has_costs cs) accounting_invariant) _ h λ free h₁.
      >>-elim (throw_if (any (reservation_is id) s.reservations) accounting_invariant) _ h₁
        λ fresh h₂. >>=-elim (family_for_view s view) _ h₂ λ v seen h₃.
          >>=-elim (debit_cash s v.balance_family_id amount) _ h₃ λ d debited h₄. ground (
            arith,
            debit_cash-Debited s v.balance_family_id amount debited,
            total_by-push (λ (item : Reservation). item.amount_usdc_minor) d.reservations
                (reservation_of r id amount v),
          )

pub charge-Kept :
    (s : Portfolio) (r : ReceiptBase) (cs : List AccountingCost) {t : Portfolio}
    → charge s r cs ≡ ok t
    → Kept s t
unfolding charge
charge-Kept s r cs h = ground (arith, apply_costs-CostsKept s r cs 0 h)

charge_approval-Kept :
    (s : Portfolio) (r : ReceiptBase) (o : Option Allowance) (a : Approval)
    (cs : List AccountingCost) {t : Portfolio}
    → charge_approval s r o a cs ≡ ok t
    → Kept s t
unfolding charge_approval
charge_approval-Kept s r none a cs h = ground (arith, apply_costs-CostsKept s r cs 0 h)
charge_approval-Kept s r (some o) a cs {t} h =
    ground (arith, apply_costs-CostsKept s r cs 0 {t = t})

pub approve-Kept :
    (s : Portfolio) (r : ReceiptBase) (a : Approval) (cs : List AccountingCost) {t : Portfolio}
    → approve s r a cs ≡ ok t
    → Kept s t
unfolding approve
approve-Kept s r a cs h =
    let o = find (allowance_is a.allowance_id) s.allowances in
    >>=-elim (charge_approval s r o a cs) _ h
      λ c charged h₁. ground (arith, charge_approval-Kept s r o a cs charged)

pub exchange-Kept :
    (s : Portfolio) (r : ReceiptBase) (w : Swap) (cs : List AccountingCost) {t : Portfolio}
    → exchange s r w cs ≡ ok t
    → Kept s t
unfolding exchange
exchange-Kept s r w cs h =
    let debit = w.source_debit_usdc_minor in
    let credit = w.destination_credit_usdc_minor in
    >>=-elim (family_for_view s w.source_cash_view_id) _ h λ a seen h₁.
      >>=-elim (family_for_view s w.destination_cash_view_id) _ h₁ λ b seen' h₂.
        >>-elim (throw_if (a.balance_family_id == b.balance_family_id) accounting_invariant) _ h₂
          λ g₁ h₃.
            >>-elim (throw_if (a.network_id != b.network_id) accounting_invariant) _ h₃ λ g₂ h₄.
              >>-elim (throw_if (ltb debit credit) accounting_invariant) _ h₄ λ g₃ h₅.
                >>=-elim (debit_cash s a.balance_family_id debit) _ h₅ λ d debited h₆.
                  >>=-elim (credit_cash d b.balance_family_id credit) _ h₆ λ c credited h₇. ground (
                    arith,
                    debit_cash-Debited s a.balance_family_id debit debited,
                    credit_cash-Credited d b.balance_family_id credit credited,
                    apply_costs-CostsKept c r cs (debit - credit) h₇,
                  )

pub settle_payable-Kept :
    (s : Portfolio) (id view : ℕ) {t : Portfolio}
    → UniqueIds s
    → settle_payable s id view ≡ ok t
    → Kept s t
unfolding settle_payable
settle_payable-Kept s id view u h = >>=-elim (family_for_view s view) _ h λ v seen h₁.
    >>=-elim (or_throw (find (payable_is id) s.payables) payable_not_found) _ h₁ λ p found h₂.
      >>-elim (throw_if (p.network_id != v.network_id) accounting_invariant) _ h₂ λ g h₃.
        >>=-elim (debit_cash s v.balance_family_id p.amount_usdc_minor) _ h₃ λ d debited h₄.
          ground (
            arith,
            debit_cash-Debited s v.balance_family_id p.amount_usdc_minor debited,
            total_by-filter (λ (item : FeePayable). item.amount_usdc_minor)
                (λ item. item.payable_id) id s.payables p u.payables (or_throw-eq-ok _ _ found),
          )
