-- ===== src/Accounting/Value/Laws.antt =====
-- A valuation against its inputs and against the book value.
-- Code: packages/accounting/src/index.ts (`valuePortfolio`).
use alpha_proof.Base.{
  ℕ, ◌+◌, ◌-◌, ◌≤◌, ◌≡◌, sym, ap, ◌∙◌, subst, subst₂, eq_of_some, ok-injective, is_some,
  eq_of_parts, not, Option, none, some, List, [], ◌∷◌, ltb, total_by, throw_if, or_throw,
  or_throw-eq-ok, schema_rejected, accounting_invariant, ok, >>=-elim, >>-elim, >>=-elim, arith,
  pos, ◌+ℤ◌, +ℤ_parts, -ℤ_parts,
}
use alpha_proof.Accounting.State.{Portfolio}
use alpha_proof.Accounting.Books.{
  cash_total, reserved_total, book_total, receivable_total, payable_total, cost_total, gross_assets,
}
use alpha_proof.Accounting.Check.{assert_portfolio, expected_net}
use alpha_proof.Accounting.Check.Sound.{
  IsValid, IsValid-assert_portfolio, assert_portfolio-IsValid, check_solvency-le,
}
use alpha_proof.Accounting.Conservation.Receipts.{IsValid-Balanced}
use alpha_proof.Accounting.Apply.{Hasher}
use alpha_proof.Accounting.Value.{
  PositionValuation, PortfolioValuation, Sums, DataQuality, sum_inputs, value_positions, values_of,
  quality_of, check_inputs, value_portfolio, global_book_value, mark_of, liquidation_of, blocked_of,
  valuation_in_range, valuation_of, is_unavailable,
}

abbrev pub value_or_zero : Option ℕ → ℕ
value_or_zero none = 0
value_or_zero (some value) = value

abbrev pub mark_total : List PositionValuation → ℕ
mark_total = total_by (λ input. value_or_zero input.mark_value_usdc_minor)

abbrev pub recoverable_total : List PositionValuation → ℕ
recoverable_total = total_by (λ input. value_or_zero input.recoverable_usdc_minor)

abbrev pub exit_total : List PositionValuation → ℕ
exit_total = total_by (λ input. value_or_zero input.exit_cost_usdc_minor)

-- The sums of a run over the inputs, from `x` to `y`.
record Summed (inputs : List PositionValuation) (x y : Sums) : Type 0 where
  marks : y.marks ≡ x.marks + mark_total inputs
  liquidation : y.liquidation + exit_total inputs ≡ x.liquidation + recoverable_total inputs
  blocked : x.blocked + mark_total inputs ≤ y.blocked + recoverable_total inputs

sum_inputs-Summed :
    (inputs : List PositionValuation) (x : Sums) {y : Sums}
    → sum_inputs inputs x ≡ ok y
    → Summed inputs x y
unfolding sum_inputs
sum_inputs-Summed [] x e = ground arith
sum_inputs-Summed (i ∷ is) x e =
    >>=-elim (or_throw i.mark_value_usdc_minor accounting_invariant) _ e λ mark m e₁.
      >>=-elim (or_throw i.recoverable_usdc_minor accounting_invariant) _ e₁ λ recoverable r e₂.
        >>=-elim (or_throw i.exit_cost_usdc_minor accounting_invariant) _ e₂ λ exit c e₃.
          >>-elim (throw_if (ltb recoverable exit) accounting_invariant) _ e₃ λ g e₄. ground (
            arith,
            sum_inputs-Summed is _ e₄,
            or_throw-eq-ok _ _ m,
            or_throw-eq-ok _ _ r,
            or_throw-eq-ok _ _ c,
          )

-- What the mark, liquidation and blocked values of a portfolio are.
pub record Valued (s : Portfolio) (inputs : List PositionValuation) (mark liquidation blocked : ℕ)
    : Type 0 where
  pub marked :
      mark + payable_total s.payables
      ≡ cash_total s.cash
        + reserved_total s.reservations
        + receivable_total s.receivables
        + mark_total inputs
  pub liquidated :
      liquidation + payable_total s.payables + exit_total inputs
      ≡ cash_total s.cash + reserved_total s.reservations + recoverable_total inputs
  pub gap : mark ≤ liquidation + receivable_total s.receivables + blocked + exit_total inputs

value_positions-Valued :
    (s : Portfolio) (inputs : List PositionValuation) {m l b : ℕ}
    → value_positions s inputs ≡ ok (m, l, b)
    → Valued s inputs m l b
unfolding value_positions
value_positions-Valued s inputs e =
    >>=-elim (sum_inputs inputs (record { marks = 0; liquidation = 0; blocked = 0 })) _ e
      λ sums summed e₁. ground (arith, sum_inputs-Summed inputs _ summed)

-- What a call that returns a valuation has done.
pub record Returned (h : Hasher) (s : Portfolio) (inputs : List PositionValuation)
    (v : PortfolioValuation) : Type 0 where
  pub accepted : IsValid s
  pub values : Option (ℕ × ℕ × ℕ)
  pub computed : values_of s inputs (quality_of inputs) ≡ ok values
  pub result : v ≡ valuation_of h s inputs values

pub value_portfolio-Returned :
    (h : Hasher) (s : Portfolio) (inputs : List PositionValuation) {v : PortfolioValuation}
    → value_portfolio h s inputs ≡ ok v
    → Returned h s inputs v
unfolding value_portfolio
value_portfolio-Returned h s inputs e = >>=-elim (assert_portfolio s) _ e λ t checked e₁.
    let (same, valid) = assert_portfolio-IsValid s checked in
    >>-elim (check_inputs t inputs) _ e₁ λ inputs_fit e₂.
      >>=-elim (values_of t inputs (quality_of inputs)) _ e₂ λ values computed e₃.
        let w = valuation_of h t inputs values in
        >>-elim (throw_if (not (valuation_in_range w)) schema_rejected) _ e₃ λ fits e₄. record {
          accepted = valid;
          values = values;
          computed = rw same at computed;
          result = rw same at (sym (ok-injective e₄));
        }

values_of-some :
    (s : Portfolio) (inputs : List PositionValuation) (q : DataQuality) {m l b : ℕ}
    → values_of s inputs q ≡ ok (some (m, l, b))
    → value_positions s inputs ≡ ok (m, l, b)
unfolding values_of
values_of-some s inputs DataQuality.unavailable e = ground arith
values_of-some s inputs DataQuality.stale e =
    >>=-elim (value_positions s inputs) _ e λ x p e₁. ground arith
values_of-some s inputs DataQuality.fresh e =
    >>=-elim (value_positions s inputs) _ e λ x p e₁. ground arith

-- The three values come together or not at all, and not at all exactly where data is unavailable.
pub record IsComplete (v : PortfolioValuation) : Type 0 where
  pub marked : is_some v.mark_value_usdc_minor ≡ not (is_unavailable v.data_quality)
  pub liquidated : is_some v.liquidation_value_usdc_minor ≡ not (is_unavailable v.data_quality)
  pub blocked : is_some v.blocked_value_usdc_minor ≡ not (is_unavailable v.data_quality)

valuation_of-IsComplete :
    (h : Hasher) (s : Portfolio) (inputs : List PositionValuation) (values : Option (ℕ × ℕ × ℕ))
    → values_of s inputs (quality_of inputs) ≡ ok values
    → IsComplete (valuation_of h s inputs values)
unfolding values_of valuation_of
valuation_of-IsComplete h s inputs values e = ground arith

-- A returned valuation has a mark, a liquidation and a blocked value, all three, exactly if its data
-- quality is not unavailable.
pub value_portfolio-IsComplete :
    (h : Hasher) (s : Portfolio) (inputs : List PositionValuation) {v : PortfolioValuation}
    → value_portfolio h s inputs ≡ ok v
    → IsComplete v
value_portfolio-IsComplete h s inputs e =
    let r = value_portfolio-Returned h s inputs e in
    subst IsComplete (sym r.result) (valuation_of-IsComplete h s inputs r.values r.computed)

values_with_mark :
    (x : Option (ℕ × ℕ × ℕ)) {m : ℕ} → mark_of x ≡ some m → (l : ℕ) × (b : ℕ) × (x ≡ some (m, l, b))
values_with_mark none e = absurd (cc e)
values_with_mark (some (a, l, b)) e = (l, b, ground arith)

pub value_portfolio-values :
    (h : Hasher) (s : Portfolio) (inputs : List PositionValuation) {v : PortfolioValuation} {m : ℕ}
    → value_portfolio h s inputs ≡ ok v
    → v.mark_value_usdc_minor ≡ some m
    → (l : ℕ) × (b : ℕ) × (v.liquidation_value_usdc_minor ≡ some l)
      × (v.blocked_value_usdc_minor ≡ some b)
      × Valued s inputs m l b
unfolding valuation_of
value_portfolio-values h s inputs e em =
    let r = value_portfolio-Returned h s inputs e in
    let marked = ap (λ x. x.mark_value_usdc_minor) (sym r.result) ∙ em in
    let (l, b, is) = values_with_mark r.values marked in
    (
      l,
      b,
      ap (λ x. x.liquidation_value_usdc_minor) r.result ∙ ap liquidation_of is,
      ap (λ x. x.blocked_value_usdc_minor) r.result ∙ ap blocked_of is,
      value_positions-Valued s inputs
          (values_of-some s inputs (quality_of inputs) (r.computed ∙ ap ok is)),
    )

-- A returned mark and liquidation value add up the holdings, the observations and the payables,
-- and the mark exceeds the liquidation by transfers, blocked value and exit costs at most.
pub value_portfolio-Valued :
    (h : Hasher) (s : Portfolio) (inputs : List PositionValuation) {v : PortfolioValuation}
    {m l b : ℕ}
    → value_portfolio h s inputs ≡ ok v
    → v.mark_value_usdc_minor ≡ some m
    → v.liquidation_value_usdc_minor ≡ some l
    → v.blocked_value_usdc_minor ≡ some b
    → Valued s inputs m l b
value_portfolio-Valued h s inputs {m = m} e em el eb =
    let (l', b', fl, fb, valued) = value_portfolio-values h s inputs e em in
    subst₂ (λ x y. Valued s inputs m x y) (eq_of_some (sym fl ∙ el)) (eq_of_some (sym fb ∙ eb))
      valued

-- The global book value is the capital with the modeled profit, less the costs.
pub global_book_value-expected_net :
    (s : Portfolio) {g : ℕ} → global_book_value s ≡ ok g → pos g ≡ expected_net s
unfolding global_book_value
global_book_value-expected_net s {g} e = >>=-elim (assert_portfolio s) _ e λ t checked e₁.
    let (same, valid) = assert_portfolio-IsValid s checked in
    let b = IsValid-Balanced s valid in
    let q : g ≡ gross_assets s - payable_total s.payables = rw same at (sym (ok-injective e₁)) in
    rw q (
      eq_of_parts _ _ (
        omega (
          arith,
          b,
          check_solvency-le s valid.solvent,
          +ℤ_parts (pos s.initial_value_usdc_minor) s.modeled_pnl_usdc_minor,
          -ℤ_parts (pos s.initial_value_usdc_minor +ℤ s.modeled_pnl_usdc_minor)
              (pos (cost_total s.recognized_costs)),
        )))

-- If the marks that are observed add up to the book values of the positions, then the mark value
-- of a returned valuation is the global book value.
pub value_portfolio-global_book_value :
    (h : Hasher) (s : Portfolio) (inputs : List PositionValuation) {v : PortfolioValuation} {m : ℕ}
    → value_portfolio h s inputs ≡ ok v
    → v.mark_value_usdc_minor ≡ some m
    → mark_total inputs ≡ book_total s.positions
    → global_book_value s ≡ ok m
unfolding global_book_value
value_portfolio-global_book_value h s inputs e em at_book =
    let valid = (value_portfolio-Returned h s inputs e).accepted in
    let (l, b, fl, fb, valued) = value_portfolio-values h s inputs e em in
    rw (IsValid-assert_portfolio s valid)
      (ap ok (omega (arith, at_book, valued.marked, check_solvency-le s valid.solvent)))
