-- ===== src/Valuation/Mark.antt =====
-- What a checkpoint's portfolio is, and the part of its mark that the positions give.
-- Code: packages/valuation/src/index.ts (`checkpointPortfolio`, `portfolioPositionMark`).
use alpha_proof.Base.{
  length-distinct, length-map, ℕ, ◌+◌, ◌∷◌, false, true, all, any, includes, new_set, subst₂, ◌≡◌,
  refl, sym, subst, ap, ◌∙◌, not, some, List, [], map, length, sort_by, ok, ok-injective, throw_if,
  throw_if-ok, schema_rejected, >>=-elim, >>-elim, pos, -ℤ_parts, eq_of_parts, arith,
}
use alpha_proof.Accounting.State.{Ident, Portfolio, AccountingPosition}
use alpha_proof.Accounting.Check.{assert_portfolio}
use alpha_proof.Accounting.Check.Schema.{parse_portfolio}
use alpha_proof.Accounting.Check.Sound.{IsValid, assert_portfolio-IsValid}
use alpha_proof.Accounting.Conservation.Receipts.{check_unique-UniqueIds}
use alpha_proof.Accounting.Value.{
  PortfolioValuation, value_portfolio, valuation_in_range, valuation_of,
}
use alpha_proof.Accounting.Value.Laws.{mark_total, value_portfolio-Returned, value_portfolio-values}
use alpha_proof.Valuation.State.{
  AccrualInput, PortfolioCheckpointInput, CheckpointPortfolio, CheckpointHasher,
}
use alpha_proof.Valuation.{
  check_accruals, apply_accruals, parse_checkpoint_portfolio, checkpoint_portfolio,
  portfolio_position_mark,
}
use alpha_proof.Valuation.Accruals.{CarriedOver}
use alpha_proof.Valuation.Accruals.Chain.{Accrued, apply_accruals-Ran}

position_ids : Portfolio → List Ident
position_ids s = map (λ (position : AccountingPosition). position.position_id) s.positions

check_accruals-length :
    (s : Portfolio) (accruals : List AccrualInput)
    → IsValid s
    → check_accruals s accruals ≡ ok tt
    → length accruals ≡ length s.positions
unfolding check_accruals
check_accruals-length s accruals v e =
    let ids = map (λ (position : AccountingPosition). position.position_id) s.positions in
    let unique_ids = (check_unique-UniqueIds s v.unique_ids).positions in
    ground (
      arith,
      throw_if-ok _ _ e,
      length-distinct ids unique_ids,
      length-map (λ (position : AccountingPosition). position.position_id) s.positions,
    )

includes-new_set :
    (k : ℕ) (seen xs : List ℕ) → includes k (new_set seen xs) ≡ true → includes k xs ≡ true
includes-new_set k seen [] e = e
includes-new_set k seen (x ∷ xs) e =
    ground (arith, includes-new_set k (x ∷ seen) xs, includes-new_set k seen xs)

all-of_set :
    (ids set : List ℕ)
    → ((k : ℕ) → includes k set ≡ true → includes k ids ≡ true)
    → (accruals : List AccrualInput) → any (λ a. not (includes a.position_id set)) accruals ≡ false
    → all (λ a. includes a.position_id ids) accruals ≡ true
all-of_set ids set kept [] e = refl
all-of_set ids set kept (a ∷ later) e =
    ground (arith, kept a.position_id, all-of_set ids set kept later)

-- Each accrual is of a position of the portfolio.
pub OfPositions : Portfolio → List AccrualInput → Type 0
OfPositions s accruals =
    all (λ (a : AccrualInput). includes a.position_id (position_ids s)) accruals ≡ true

check_accruals-OfPositions :
    (s : Portfolio) (accruals : List AccrualInput)
    → check_accruals s accruals ≡ ok tt
    → OfPositions s accruals
unfolding check_accruals OfPositions position_ids
check_accruals-OfPositions s [] e = refl
check_accruals-OfPositions s (a ∷ later) e =
    let ids = position_ids s in
    all-of_set ids (new_set [] ids) (λ k. includes-new_set k [] ids) (a ∷ later)
      (ground (arith, throw_if-ok _ _ e))

-- What the portfolio of a checkpoint is.
pub record IsCheckpoint (h : CheckpointHasher) (id : Ident) (input : PortfolioCheckpointInput)
    (item : CheckpointPortfolio) : Type 0 where
  pub accepted : IsValid input.portfolio
  pub one_each : length input.accruals ≡ length input.portfolio.positions
  pub of_positions : OfPositions input.portfolio input.accruals
  pub steps :
      Accrued h id input.portfolio
        (sort_by (λ (a : AccrualInput). a.position_id) input.accruals)
        item.portfolio
        item.accrued_receipt_hashes
  pub carried : CarriedOver input.portfolio item.portfolio
  pub valid : IsValid item.portfolio
  pub valued : value_portfolio h.accounting item.portfolio input.valuations ≡ ok item.valuation
  pub portfolio_id : item.portfolio_id ≡ item.portfolio.portfolio_id
  pub role : item.role ≡ input.role

parse_checkpoint_portfolio-same :
    (item : CheckpointPortfolio) {out : CheckpointPortfolio}
    → parse_checkpoint_portfolio item ≡ ok out
    → item ≡ out
unfolding parse_checkpoint_portfolio
parse_checkpoint_portfolio-same item e =
    >>=-elim (parse_portfolio item.portfolio) _ e λ p parsed e₁.
      >>-elim (throw_if (not (valuation_in_range item.valuation)) schema_rejected) _ e₁
        λ g e₂. ok-injective e₂

-- A checkpoint's portfolio that is returned is valid and comes from a valid portfolio by as many
-- accruals as that has positions, each of one of its positions, in the order of their positions.
-- The receipt of each is in the log after it. Either it was there before, with the same content, and
-- changes nothing; or it adds one to the version, and of its position moves only the index to the
-- one given, the book value to the shares at that index, with its remainder, and the last time and
-- source to the accrual's, which is later, and nothing of the other positions. The hashes listed
-- are those of the receipts. Between the two portfolios the identity, the initial value, the
-- attempts, the closing, the views, cash, reservations, receivables, payables, allowances and costs
-- stay, up to order, each position keeps what it holds, and the modeled profit moves by as much as
-- the book values. The valuation is that of the portfolio returned.
pub checkpoint_portfolio-IsCheckpoint :
    (h : CheckpointHasher) (id : Ident) (input : PortfolioCheckpointInput)
    {item : CheckpointPortfolio}
    → checkpoint_portfolio h id input ≡ ok item
    → IsCheckpoint h id input item
unfolding checkpoint_portfolio
checkpoint_portfolio-IsCheckpoint h id input {item} e =
    let s = input.portfolio in
    let sorted = sort_by (λ (a : AccrualInput). a.position_id) input.accruals in
    >>=-elim (assert_portfolio s) _ e λ initial checked e₁.
      let (same, valid) = assert_portfolio-IsValid s checked in
      let start_valid = subst IsValid (sym same) valid in
      >>-elim (check_accruals initial input.accruals) _ e₁ λ counted e₂.
        >>=-elim (apply_accruals h id initial [] sorted) _ e₂ λ accrued applied e₃.
          let u =
            apply_accruals-Ran h id initial [] sorted {t = accrued.0} {out = accrued.1} start_valid
              applied in
          >>=-elim (value_portfolio h.accounting accrued.0 input.valuations) _ e₃
            λ valuation valued e₄.
              subst (IsCheckpoint h id input) (parse_checkpoint_portfolio-same _ e₄) (record {
                accepted = valid;
                one_each =
                    check_accruals-length initial input.accruals start_valid counted
                    ∙ ap (λ (x : Portfolio). length x.positions) same;
                of_positions =
                    subst (λ x. OfPositions x input.accruals) same
                      (check_accruals-OfPositions initial input.accruals counted);
                steps =
                    subst₂ (λ x hashes. Accrued h id x sorted accrued.0 hashes) same
                      (sym u.all_hashes) u.steps;
                carried = subst (λ x. CarriedOver x accrued.0) same u.carried;
                valid = u.valid;
                valued = valued;
                portfolio_id = refl;
                role = refl;
              })

-- The mark of the positions of a checkpoint's portfolio, where there is a mark, is the sum of the
-- marks that were observed.
pub portfolio_position_mark-mark_total :
    (h : CheckpointHasher) (id : Ident) (input : PortfolioCheckpointInput)
    {item : CheckpointPortfolio} {m : ℕ}
    → checkpoint_portfolio h id input ≡ ok item
    → item.valuation.mark_value_usdc_minor ≡ some m
    → portfolio_position_mark item ≡ some (pos (mark_total input.valuations))
unfolding portfolio_position_mark valuation_of
portfolio_position_mark-mark_total h id input {item} {m} e em =
    let c = checkpoint_portfolio-IsCheckpoint h id input e in
    let r = value_portfolio-Returned h.accounting item.portfolio input.valuations c.valued in
    let (l, b, fl, fb, valued) =
      value_portfolio-values h.accounting item.portfolio input.valuations c.valued em in
    let v = item.valuation in
    let available = ap (λ (x : PortfolioValuation). x.available_usdc_minor) r.result in
    let reserved = ap (λ (x : PortfolioValuation). x.reserved_usdc_minor) r.result in
    let moving = ap (λ (x : PortfolioValuation). x.in_transit_usdc_minor) r.result in
    let fees = ap (λ (x : PortfolioValuation). x.fees_payable_usdc_minor) r.result in
    let components = v.available_usdc_minor + v.reserved_usdc_minor + v.in_transit_usdc_minor in
    rw em (
      ap some (
        eq_of_parts _ _ (
          omega (
            arith,
            valued.marked,
            available,
            reserved,
            moving,
            fees,
            -ℤ_parts (pos (m + v.fees_payable_usdc_minor)) (pos components),
          ))))
