-- ===== src/Accounting/Conservation/Positions.antt =====
-- The value of a portfolio over deposits, withdrawals and accruals.
-- Code: packages/accounting/src/index.ts (`applyReceipt`).
use alpha_proof.Base.{
  ℕ, ◌+◌, ◌-◌, ◌≡◌, ◌||◌, ltb, leb, ◌==◌, ◌!=◌, find, or_throw, or_throw-eq-ok, throw_if,
  accounting_invariant, invalid_transition, Option-cases, Bool-cases, inl, inr, some, List, arith,
  ok, >>=-elim, >>-elim, total_by-push, total_by-filter, total_by-update_first, +ℤ_parts,
  sub_ℕ_parts, sub_ℕ,
}
use alpha_proof.Accounting.State.{Ident, Portfolio, AccountingCost, AccountingPosition}
use alpha_proof.Accounting.Receipt.{ReceiptBase, Deposit, Withdrawal}
use alpha_proof.Accounting.Books.{book_total, family_for_view, debit_cash, credit_cash}
use alpha_proof.Accounting.Books.Conservation.{
  debit_cash-Debited, credit_cash-Credited, apply_costs-CostsKept,
}
use alpha_proof.Accounting.Effects.Local.{has_costs}
use alpha_proof.Accounting.Effects.Positions.{
  position_is, rebook, credit_shares, book_before, put_position, invest, debit_shares, divest,
  accrue_index,
}
use alpha_proof.Accounting.Conservation.{Kept, UniqueIds}

abbrev book : AccountingPosition → ℕ
book item = item.book_value_usdc_minor

put_position-total :
    (id : Ident) (s : Portfolio) (p : AccountingPosition)
    → let o = find (position_is id) s.positions in
      book_total (put_position id o p s).positions + book_before o
      ≡ book_total s.positions + p.book_value_usdc_minor
put_position-total id s p =
    let o = find (position_is id) s.positions in
    elim (Option-cases o) [
      | inl absent ↦ rw absent (omega (arith, total_by-push book s.positions p))
      | inr (q, found) ↦
          rw found (
            omega (arith, total_by-update_first book (position_is id) (λ _. p) s.positions q found))
    ]

pub invest-Kept :
    (s : Portfolio) (r : ReceiptBase) (d : Deposit) (cs : List AccountingCost) {t : Portfolio}
    → invest s r d cs ≡ ok t
    → Kept s t
unfolding invest
invest-Kept s r d cs h = >>=-elim (family_for_view s d.cash_view_id) _ h λ v seen h₁.
    >>=-elim (debit_cash s v.balance_family_id d.input_usdc_minor) _ h₁ λ m debited h₂.
      let o = find (position_is d.position_id) m.positions in
      >>=-elim (credit_shares o v r d) _ h₂ λ c credited h₃.
        >>=-elim (rebook r c) _ h₃ λ p booked h₄.
          let available = d.input_usdc_minor + book_before o in
          >>-elim (throw_if (ltb available p.book_value_usdc_minor) accounting_invariant) _ h₄
            λ g h₅. ground (
              arith,
              debit_cash-Debited s v.balance_family_id d.input_usdc_minor debited,
              put_position-total d.position_id m p,
              apply_costs-CostsKept _ r cs (available - p.book_value_usdc_minor) h₅,
            )

debit_shares-total :
    (s : Portfolio) (r : ReceiptBase) (id : Ident) (p : AccountingPosition) (remaining : ℕ)
    {t : Portfolio} {after : ℕ}
    → UniqueIds s
    → find (position_is id) s.positions ≡ some p
    → debit_shares s r id p remaining ≡ ok (t, after)
    → (t ≡ record s { positions = t.positions })
      × (book_total t.positions + p.book_value_usdc_minor ≡ book_total s.positions + after)
unfolding debit_shares
debit_shares-total s r id p remaining u found h = elim (Bool-cases (remaining == 0)) [
  | inl all ↦
      ground
        (arith, total_by-filter book (λ item. item.position_id) id s.positions p u.positions found)
  | inr part ↦
      >>=-elim (rebook r (record p { shares_minor = remaining })) _ (rw part at h) λ q booked h₁.
        ground (arith, total_by-update_first book (position_is id) (λ _. q) s.positions p found)
]

pub divest-Kept :
    (s : Portfolio) (r : ReceiptBase) (w : Withdrawal) (cs : List AccountingCost) {t : Portfolio}
    → UniqueIds s
    → divest s r w cs ≡ ok t
    → Kept s t
unfolding divest
divest-Kept s r w cs u h =
    let id = w.position_id in
    let credit = w.cash_credit_usdc_minor in
    >>=-elim (family_for_view s w.cash_view_id) _ h λ v seen h₁.
      >>=-elim (or_throw (find (position_is id) s.positions) invalid_transition) _ h₁ λ p found h₂.
        >>-elim
          (throw_if (p.network_id != v.network_id || p.asset_id != v.asset_id) accounting_invariant)
          _ h₂
          λ g₁ h₃.
            >>-elim (throw_if (ltb p.shares_minor w.shares_debit_minor) invalid_transition) _ h₃
              λ g₂ h₄.
                let remaining = p.shares_minor - w.shares_debit_minor in
                >>=-elim (debit_shares s r id p remaining) _ h₄ λ out debited h₅.
                  >>-elim
                    (throw_if (ltb p.book_value_usdc_minor (out.1 + credit)) accounting_invariant) _
                    h₅
                    λ g₃ h₆.
                      >>=-elim (credit_cash out.0 v.balance_family_id credit) _ h₆ λ c credited h₇.
                        ground (
                          arith,
                          debit_shares-total s r id p remaining {t = out.0} {after = out.1} u
                              (or_throw-eq-ok _ _ found) debited,
                          credit_cash-Credited out.0 v.balance_family_id credit credited,
                          apply_costs-CostsKept c r cs (p.book_value_usdc_minor - out.1 - credit)
                              h₇,
                        )

pub accrue_index-Kept :
    (s : Portfolio) (r : ReceiptBase) (id n d : ℕ) (cs : List AccountingCost) {t : Portfolio}
    → accrue_index s r id n d cs ≡ ok t
    → Kept s t
unfolding accrue_index
accrue_index-Kept s r id n d cs h =
    >>-elim (throw_if (has_costs cs) accounting_invariant) _ h λ free h₁.
      >>=-elim (or_throw (find (position_is id) s.positions) invalid_transition) _ h₁ λ p found h₂.
        >>-elim (throw_if (leb r.observed_at p.last_observed_at) invalid_transition) _ h₂
          λ later h₃.
            >>=-elim (rebook r (record p { index_numerator = n; index_denominator = d })) _ h₃
              λ q booked h₄. ground (
                arith,
                total_by-update_first (λ (item : AccountingPosition). item.book_value_usdc_minor)
                    (position_is id) (λ _. q) s.positions p (or_throw-eq-ok _ _ found),
                +ℤ_parts s.modeled_pnl_usdc_minor
                    (sub_ℕ q.book_value_usdc_minor p.book_value_usdc_minor),
                sub_ℕ_parts q.book_value_usdc_minor p.book_value_usdc_minor,
              )
