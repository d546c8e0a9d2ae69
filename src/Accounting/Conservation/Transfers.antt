-- ===== src/Accounting/Conservation/Transfers.antt =====
-- The value of a portfolio over the stages of a cross-chain transfer.
-- Code: packages/accounting/src/index.ts (`applyReceipt`).
use alpha_proof.Base.{
  ℕ, ◌+◌, ◌-◌, ◌≡◌, refl, some, Bool, not, ◌||◌, ◌&&◌, ltb, leb, ◌==◌, ◌!=◌, find, any, or_throw,
  or_throw-eq-ok, throw_if-ok, ltb-false→le, throw_if, accounting_invariant, invalid_transition,
  List, [], ◌∷◌, arith, ok, >>=-elim, >>-elim, update_first, total_by-push, total_by-filter,
}
use alpha_proof.Accounting.State.{
  Ident, Portfolio, AccountingCost, AccountingReceivable, Reservation,
}
use alpha_proof.Accounting.Receipt.{ReceiptBase, Burn}
use alpha_proof.Accounting.Amounts.{require_uint}
use alpha_proof.Accounting.Books.{family_for_view, credit_cash, apply_costs, receivable_total}
use alpha_proof.Accounting.Books.Conservation.{credit_cash-Credited, apply_costs-CostsKept}
use alpha_proof.Accounting.Effects.Local.{reservation_is}
use alpha_proof.Accounting.Effects.Transfers.{
  receivable_is, become_ready, become_delayed, become_retry, withheld_total, drop_reservation,
  fail_source, receivable_of, confirm_burn, open_receivable, set_receivable, can_become_ready,
  is_ready, is_retry, is_in_transit, mark_ready, mark_delayed, mark_retry, settle,
}
use alpha_proof.Accounting.Conservation.{Kept, UniqueIds, costs-Kept}

pub fail_source-Kept :
    (s : Portfolio) (r : ReceiptBase) (id : Ident) (cs : List AccountingCost) {t : Portfolio}
    → UniqueIds s
    → fail_source s r id cs ≡ ok t
    → Kept s t
unfolding fail_source
fail_source-Kept s r id cs u h =
    >>=-elim (or_throw (find (reservation_is id) s.reservations) invalid_transition) _ h
      λ v found h₁.
        let back = v.amount_usdc_minor - withheld_total cs in
        let dropped = drop_reservation id s in
        >>-elim (throw_if (ltb v.amount_usdc_minor (withheld_total cs)) accounting_invariant) _ h₁
          λ g h₂. >>=-elim (credit_cash dropped v.balance_family_id back) _ h₂ λ c credited h₃.
            ground (
              arith,
              credit_cash-Credited dropped v.balance_family_id back credited,
              apply_costs-CostsKept c r cs (withheld_total cs) h₃,
              total_by-filter (λ (item : Reservation). item.amount_usdc_minor)
                  (λ item. item.reservation_id) id s.reservations v u.reservations
                  (or_throw-eq-ok _ _ found),
            )

pub confirm_burn-Kept :
    (s : Portfolio) (r : ReceiptBase) (b : Burn) (cs : List AccountingCost) {t : Portfolio}
    → UniqueIds s
    → confirm_burn s r b cs ≡ ok t
    → Kept s t
unfolding confirm_burn
confirm_burn-Kept s r b cs u h =
    >>=-elim (or_throw (find (reservation_is b.reservation_id) s.reservations) invalid_transition) _
      h
      λ v found h₁.
        >>-elim
          (throw_if
            (any
              (λ item.
                item.transfer_id == b.transfer_id || item.message_identity == b.message_identity)
              s.receivables)
            accounting_invariant)
          _ h₁
          λ g₁ h₂. >>=-elim (family_for_view s b.destination_cash_view_id) _ h₂ λ d seen h₃.
            >>-elim (throw_if (d.network_id != b.destination_network_id) accounting_invariant) _ h₃
              λ g₂ h₄.
                >>-elim (throw_if (v.network_id == d.network_id) accounting_invariant) _ h₄ λ g₃ h₅.
                  let amount = v.amount_usdc_minor in
                  let net = b.net_receivable_usdc_minor in
                  >>-elim (throw_if (ltb amount net) accounting_invariant) _ h₅ λ g₄ h₆.
                    costs-Kept s _ _ (amount - net) (apply_costs-CostsKept _ r cs (amount - net) h₆)
                      refl refl refl refl (ground arith)
                      (omega (
                        arith,
                        ltb-false→le amount net (throw_if-ok _ _ g₄),
                        total_by-filter {A = Reservation} (λ item. item.amount_usdc_minor)
                            (λ item. item.reservation_id) b.reservation_id s.reservations v
                            u.reservations (or_throw-eq-ok _ _ found),
                        total_by-push {A = AccountingReceivable} (λ item. item.amount_usdc_minor)
                            s.receivables (receivable_of r b v d),
                      ))

-- A change that keeps amounts keeps their sum.
update_first-total :
    (p : AccountingReceivable → Bool) (g : AccountingReceivable → AccountingReceivable)
    → ((x : AccountingReceivable) → (g x).amount_usdc_minor ≡ x.amount_usdc_minor)
    → (xs : List AccountingReceivable)
    → receivable_total (update_first p g xs) ≡ receivable_total xs
update_first-total p g same [] = refl
update_first-total p g same (x ∷ xs) = ground (arith, same x, update_first-total p g same xs)

-- What the receipts that only move a receivable between states have in common.
charged-Kept :
    (s : Portfolio) (r : ReceiptBase) (id : Ident) (cs : List AccountingCost)
    (g : AccountingReceivable → AccountingReceivable) (c : Portfolio) {t : Portfolio}
    → ((x : AccountingReceivable) → (g x).amount_usdc_minor ≡ x.amount_usdc_minor)
    → apply_costs s r cs 0 ≡ ok c
    → ok (set_receivable id g c) ≡ ok t
    → Kept s t
charged-Kept s r id cs g c same h e = ground (
  arith,
  apply_costs-CostsKept s r cs 0 h,
  update_first-total (receivable_is id) g same c.receivables,
)

pub mark_ready-Kept :
    (s : Portfolio) (r : ReceiptBase) (id : Ident) (cs : List AccountingCost) {t : Portfolio}
    → mark_ready s r id cs ≡ ok t
    → Kept s t
unfolding mark_ready
mark_ready-Kept s r id cs h = >>=-elim (open_receivable s r id) _ h λ v found h₁.
    >>-elim (throw_if (not (can_become_ready v.state)) invalid_transition) _ h₁ λ g₁ h₂.
      >>-elim
        (throw_if (is_retry v.state && leb s.max_destination_attempts v.destination_attempts)
          invalid_transition)
        _ h₂
        λ g₂ h₃.
          >>=-elim (apply_costs s r cs 0) _ h₃
            λ c charged h₄. charged-Kept s r id cs (become_ready r) c (λ x. refl) charged h₄

pub mark_delayed-Kept :
    (s : Portfolio) (r : ReceiptBase) (id : Ident) (cs : List AccountingCost) {t : Portfolio}
    → mark_delayed s r id cs ≡ ok t
    → Kept s t
unfolding mark_delayed
mark_delayed-Kept s r id cs h = >>=-elim (open_receivable s r id) _ h λ v found h₁.
    >>-elim (throw_if (not (is_in_transit v.state)) invalid_transition) _ h₁ λ g₁ h₂.
      >>=-elim (apply_costs s r cs 0) _ h₂
        λ c charged h₃. charged-Kept s r id cs (become_delayed r) c (λ x. refl) charged h₃

pub mark_retry-Kept :
    (s : Portfolio) (r : ReceiptBase) (id : Ident) (cs : List AccountingCost) {t : Portfolio}
    → mark_retry s r id cs ≡ ok t
    → Kept s t
unfolding mark_retry
mark_retry-Kept s r id cs h = >>=-elim (open_receivable s r id) _ h λ v found h₁.
    >>-elim (throw_if (not (is_ready v.state)) invalid_transition) _ h₁ λ g₁ h₂.
      >>-elim (throw_if (leb s.max_destination_attempts v.destination_attempts) invalid_transition)
        _ h₂
        λ g₂ h₃. >>=-elim (apply_costs s r cs 0) _ h₃ λ c charged h₄.
          >>=-elim (require_uint (v.destination_attempts + 1)) _ h₄
            λ n fits h₅. charged-Kept s r id cs (become_retry r n) c (λ x. refl) charged h₅

open_receivable-found :
    (s : Portfolio) (r : ReceiptBase) (id : Ident) {v : AccountingReceivable}
    → open_receivable s r id ≡ ok v
    → find (receivable_is id) s.receivables ≡ some v
unfolding open_receivable
open_receivable-found s r id h =
    >>=-elim (or_throw (find (receivable_is id) s.receivables) invalid_transition) _ h
      λ w found h₁. ground (arith, or_throw-eq-ok _ _ found)

pub settle-Kept :
    (s : Portfolio) (r : ReceiptBase) (id : Ident) (credit : ℕ) (cs : List AccountingCost)
    {t : Portfolio}
    → UniqueIds s
    → settle s r id credit cs ≡ ok t
    → Kept s t
unfolding settle
settle-Kept s r id credit cs u h = >>=-elim (open_receivable s r id) _ h λ v opened h₁.
    >>-elim (throw_if (not (is_ready v.state)) invalid_transition) _ h₁ λ g₁ h₂.
      >>-elim (throw_if (ltb v.amount_usdc_minor credit) accounting_invariant) _ h₂ λ g₂ h₃.
        >>=-elim (credit_cash s v.destination_balance_family_id credit) _ h₃ λ c credited h₄.
          ground (
            arith,
            credit_cash-Credited s v.destination_balance_family_id credit credited,
            apply_costs-CostsKept _ r cs (v.amount_usdc_minor - credit) h₄,
            total_by-filter {A = AccountingReceivable} (λ item. item.amount_usdc_minor)
                (λ item. item.transfer_id) id s.receivables v u.receivables
                (open_receivable-found s r id opened),
          )
