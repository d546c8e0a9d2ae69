-- ===== src/Valuation/Accruals/Steps.antt =====
-- One accrual of the index of a position.
-- Code: packages/valuation/src/index.ts (`checkpointPortfolio`).
use alpha_proof.Base.{
  ℕ, ◌+◌, ◌≡◌, ◌≢◌, refl, sym, subst, ap, ◌∙◌, false, some, [], length, find, sort_by, update_first,
  ◌==◌, Bool-cases, total_by-update_first, leb, inl, inr, ok, accounting_invariant,
  invalid_transition, throw_if-ok, throw_if, or_throw, or_throw-eq-ok, ok-injective, eq_of_some,
  ◌+ℤ◌, >>=-elim, >>-elim, pos_part, neg_part, +ℤ_parts, sub_ℕ, sub_ℕ_parts, arith,
}
use alpha_proof.Accounting.State.{Ident, Portfolio, AccountingPosition}
use alpha_proof.Accounting.Receipt.{ReceiptBase}
use alpha_proof.Accounting.Amounts.{ScaleResult}
use alpha_proof.Accounting.Books.{book_total, position_book}
use alpha_proof.Accounting.Effects.Local.{has_costs}
use alpha_proof.Accounting.Effects.Positions.{position_is, rebook, accrue_index}
use alpha_proof.Valuation.Accruals.{
  SameHolding, SameHolding-refl, CarriedOver, found-position_id, replaced_own, replaced_other,
  length-update_first,
}

-- A position booked again by another index.
pub record Rebooked (b : ReceiptBase) (p : AccountingPosition) (n d : ℕ) (q : AccountingPosition)
    : Type 0 where
  pub book : ScaleResult
  pub booked : position_book p.shares_minor n d ≡ ok book
  pub result : q ≡ record p {
    index_numerator = n;
    index_denominator = d;
    book_value_usdc_minor = book.value_minor;
    rounding_remainder_numerator = book.amount_source_minor;
    last_source_hash = b.first_source_hash;
    last_observed_at = b.observed_at;
  }

rebook-Rebooked :
    (b : ReceiptBase) (p : AccountingPosition) (n d : ℕ) {q : AccountingPosition}
    → rebook b (record p { index_numerator = n; index_denominator = d }) ≡ ok q
    → Rebooked b p n d q
unfolding rebook
rebook-Rebooked b p n d h =
    >>=-elim (position_book p.shares_minor n d) _ h
      λ book booked rest. record { book = book; booked = booked; result = sym (ok-injective rest) }

-- The position of an accrual before and after it.
pub record Accrual (s : Portfolio) (b : ReceiptBase) (id n d : ℕ) (t : Portfolio) : Type 0 where
  pub before : AccountingPosition
  pub after : AccountingPosition
  pub found : find (position_is id) s.positions ≡ some before
  pub later : leb b.observed_at before.last_observed_at ≡ false
  pub rebooked : Rebooked b before n d after
  pub result : t ≡ record s {
    positions = update_first (position_is id) (λ _. after) s.positions;
    modeled_pnl_usdc_minor =
        s.modeled_pnl_usdc_minor +ℤ sub_ℕ after.book_value_usdc_minor before.book_value_usdc_minor;
  }

pub accrue_index-Accrual :
    (s : Portfolio) (b : ReceiptBase) (id n d : ℕ) {t : Portfolio}
    → accrue_index s b id n d [] ≡ ok t
    → Accrual s b id n d t
unfolding accrue_index
accrue_index-Accrual s b id n d h =
    >>-elim (throw_if (has_costs []) accounting_invariant) _ h λ free h₁.
      >>=-elim (or_throw (find (position_is id) s.positions) invalid_transition) _ h₁ λ p found h₂.
        >>-elim (throw_if (leb b.observed_at p.last_observed_at) invalid_transition) _ h₂
          λ later h₃.
            >>=-elim (rebook b (record p { index_numerator = n; index_denominator = d })) _ h₃
              λ q booked h₄. record {
                before = p;
                after = q;
                found = or_throw-eq-ok _ _ found;
                later = throw_if-ok _ _ later;
                rebooked = rebook-Rebooked b p n d booked;
                result = sym (ok-injective h₄);
              }

module _ (s : Portfolio) (b : ReceiptBase) (id n d : ℕ) {t : Portfolio}
    (c : Accrual s b id n d t) where
  pub Accrual-SameHolding : SameHolding c.before c.after
  Accrual-SameHolding = rw c.rebooked.result (record {
    position_id = refl;
    network_id = refl;
    instrument_id = refl;
    asset_id = refl;
    shares = refl;
  })

  pub Accrual-own : find (position_is id) t.positions ≡ some c.after
  Accrual-own = rw c.result (
      replaced_own id s.positions c.before c.after c.found
        (Accrual-SameHolding.position_id ∙ found-position_id id s.positions c.before c.found))

  pub Accrual-other :
      (i : Ident) → id ≢ i → find (position_is i) t.positions ≡ find (position_is i) s.positions
  Accrual-other i differ = rw c.result (
      replaced_other id i s.positions c.after
        (Accrual-SameHolding.position_id ∙ found-position_id id s.positions c.before c.found)
        differ)

  Accrual-holdings :
      (i : Ident) (p : AccountingPosition)
      → find (position_is i) s.positions ≡ some p
      → (q : AccountingPosition) × (find (position_is i) t.positions ≡ some q) × SameHolding p q
  Accrual-holdings i p found = elim (Bool-cases (id == i)) [
    | inl same ↦
        let e : id ≡ i = ground (arith, same) in
        let here = subst (λ k. find (position_is k) s.positions ≡ some c.before) e c.found in
        (
          c.after,
          subst (λ k. find (position_is k) t.positions ≡ some c.after) e Accrual-own,
          subst (λ x. SameHolding x c.after) (eq_of_some (sym here ∙ found)) Accrual-SameHolding,
        )
    | inr differ ↦ (p, Accrual-other i (ground (arith, differ)) ∙ found, SameHolding-refl p)
  ]

  Accrual-gain :
      book_total t.positions + neg_part t.modeled_pnl_usdc_minor + pos_part s.modeled_pnl_usdc_minor
      ≡ book_total s.positions
        + neg_part s.modeled_pnl_usdc_minor
        + pos_part t.modeled_pnl_usdc_minor
  Accrual-gain = rw c.result (
      ground (
        arith,
        total_by-update_first (λ (item : AccountingPosition). item.book_value_usdc_minor)
            (position_is id) (λ _. c.after) s.positions c.before c.found,
        +ℤ_parts s.modeled_pnl_usdc_minor
            (sub_ℕ c.after.book_value_usdc_minor c.before.book_value_usdc_minor),
        sub_ℕ_parts c.after.book_value_usdc_minor c.before.book_value_usdc_minor,
      ))

  pub Accrual-CarriedOver : CarriedOver s t
  Accrual-CarriedOver = record {
    experiment_id = ap (λ x. x.experiment_id) c.result;
    scenario_id = ap (λ x. x.scenario_id) c.result;
    portfolio_id = ap (λ x. x.portfolio_id) c.result;
    result_provenance = ap (λ x. x.result_provenance) c.result;
    initial = ap (λ x. x.initial_value_usdc_minor) c.result;
    attempts = ap (λ x. x.max_destination_attempts) c.result;
    closed_at = ap (λ x. x.closed_at) c.result;
    deadline = ap (λ x. x.deadline_state_hash) c.result;
    views = ap (λ (x : Portfolio). sort_by (λ item. item.view_id) x.balance_views) c.result;
    cash = ap (λ (x : Portfolio). sort_by (λ item. item.balance_family_id) x.cash) c.result;
    reservations =
        ap (λ (x : Portfolio). sort_by (λ item. item.reservation_id) x.reservations) c.result;
    receivables = ap (λ (x : Portfolio). sort_by (λ item. item.transfer_id) x.receivables) c.result;
    payables = ap (λ (x : Portfolio). sort_by (λ item. item.payable_id) x.payables) c.result;
    allowances = ap (λ (x : Portfolio). sort_by (λ item. item.allowance_id) x.allowances) c.result;
    costs = ap (λ (x : Portfolio). sort_by (λ item. item.cost.cost_id) x.recognized_costs) c.result;
    position_count =
        ap (λ (x : Portfolio). length x.positions) c.result
        ∙ length-update_first (position_is id) (λ _. c.after) s.positions;
    holdings = Accrual-holdings;
    gain = Accrual-gain;
  }
