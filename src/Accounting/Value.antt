-- ===== src/Accounting/Value.antt =====
-- Valuing a portfolio from one observation for each open position.
-- Code: packages/accounting/src/index.ts (`valuePortfolio`, `globalBookValue`),
-- packages/schemas/src/accounting.ts.
pub mod Laws
use alpha_proof.Base.{
  ℕ, ◌+◌, ◌-◌, Bool, true, false, not, ◌&&◌, ◌||◌, Option, none, some, List, [], ◌∷◌, ◌++◌, map,
  all, any, length, ltb, ◌==◌, ◌!=◌, is_some, if◌then◌else◌, sort_by, when_some,
  accounting_invariant, schema_rejected, Result, ok, ◌>>=◌, ◌>>◌, throw_if, or_throw,
}
use alpha_proof.Accounting.State.{Ident, Hash, Timestamp, Portfolio}
use alpha_proof.Accounting.Amounts.{uint}
use alpha_proof.Accounting.Books.{
  cash_total, reserved_total, receivable_total, payable_total, gross_assets, unique,
}
use alpha_proof.Accounting.Check.{assert_portfolio}
use alpha_proof.Accounting.Check.Schema.{is_uint}
use alpha_proof.Accounting.Apply.{Hasher}

pub data DataQuality : Type 0 where
  fresh stale unavailable : DataQuality

pub data ReasonCode : Type 0 where
  data_unavailable stale_data in_transit_unavailable blocked_liquidity : ReasonCode

pub record PositionValuation : Type 0 where
  pub position_id : Ident
  pub mark_value_usdc_minor : Option ℕ
  pub recoverable_usdc_minor : Option ℕ
  pub exit_cost_usdc_minor : Option ℕ
  pub data_quality : DataQuality
  pub source_hash : Hash
  pub observed_at : Timestamp

pub record PortfolioValuation : Type 0 where
  pub portfolio_hash : Hash
  pub portfolio_version : ℕ
  pub mark_value_usdc_minor : Option ℕ
  pub liquidation_value_usdc_minor : Option ℕ
  pub available_usdc_minor : ℕ
  pub reserved_usdc_minor : ℕ
  pub in_transit_usdc_minor : ℕ
  pub blocked_value_usdc_minor : Option ℕ
  pub fees_payable_usdc_minor : ℕ
  pub data_quality : DataQuality
  pub source_hashes : List Hash
  pub reason_codes : List ReasonCode

abbrev pub opt_is_uint : Option ℕ → Bool
opt_is_uint none = true
opt_is_uint (some value) = is_uint value

abbrev pub input_in_range : PositionValuation → Bool
input_in_range input =
    opt_is_uint input.mark_value_usdc_minor
    && opt_is_uint input.recoverable_usdc_minor
    && opt_is_uint input.exit_cost_usdc_minor

abbrev pub valuation_in_range : PortfolioValuation → Bool
valuation_in_range valuation =
    is_uint valuation.portfolio_version
    && opt_is_uint valuation.mark_value_usdc_minor
    && opt_is_uint valuation.liquidation_value_usdc_minor
    && is_uint valuation.available_usdc_minor
    && is_uint valuation.reserved_usdc_minor
    && is_uint valuation.in_transit_usdc_minor
    && opt_is_uint valuation.blocked_value_usdc_minor
    && is_uint valuation.fees_payable_usdc_minor

abbrev pub is_unavailable : DataQuality → Bool
is_unavailable DataQuality.unavailable = true
is_unavailable _ = false

abbrev pub is_stale : DataQuality → Bool
is_stale DataQuality.stale = true
is_stale _ = false

abbrev pub lacks_data : PositionValuation → Bool
lacks_data input =
    is_unavailable input.data_quality
    || not (is_some input.mark_value_usdc_minor)
    || not (is_some input.recoverable_usdc_minor)
    || not (is_some input.exit_cost_usdc_minor)

-- The quality of the whole from the qualities of the inputs.
unfoldable pub quality_of : List PositionValuation → DataQuality
quality_of inputs =
    if any lacks_data inputs
    then DataQuality.unavailable
    else if any (λ input. is_stale input.data_quality) inputs
    then DataQuality.stale
    else DataQuality.fresh

-- `positionMarks`, `positionLiquidation` and `blocked`
pub record Sums : Type 0 where
  pub marks : ℕ
  pub liquidation : ℕ
  pub blocked : ℕ

-- The loop over the inputs. `uint` of a missing value throws.
unfoldable pub sum_inputs : List PositionValuation → Sums → Result Sums
sum_inputs [] sums = ok sums
sum_inputs (input ∷ inputs) sums = do
  mark ← or_throw input.mark_value_usdc_minor accounting_invariant
  recoverable ← or_throw input.recoverable_usdc_minor accounting_invariant
  exit_cost ← or_throw input.exit_cost_usdc_minor accounting_invariant
  throw_if (ltb recoverable exit_cost) accounting_invariant
  sum_inputs inputs (record {
    marks = sums.marks + mark;
    liquidation = sums.liquidation + (recoverable - exit_cost);
    blocked = sums.blocked + (if ltb recoverable mark then mark - recoverable else 0);
  })

-- Mark value, liquidation value and blocked value, when the data is there.
unfoldable pub value_positions : Portfolio → List PositionValuation → Result (ℕ × ℕ × ℕ)
value_positions state inputs = do
  sums ← sum_inputs inputs (record { marks = 0; liquidation = 0; blocked = 0 })
  let held = cash_total state.cash + reserved_total state.reservations
  let payables = payable_total state.payables
  let gross_mark = held + receivable_total state.receivables + sums.marks
  let gross_liquidation = held + sums.liquidation
  throw_if (ltb gross_mark payables || ltb gross_liquidation payables) accounting_invariant
  ok (gross_mark - payables, gross_liquidation - payables, sums.blocked)

-- The three values, or none of them.
unfoldable pub values_of :
    Portfolio → List PositionValuation → DataQuality → Result (Option (ℕ × ℕ × ℕ))
values_of state inputs DataQuality.unavailable = ok none
values_of state inputs DataQuality.stale = do
  values ← value_positions state inputs
  ok (some values)
values_of state inputs DataQuality.fresh = do
  values ← value_positions state inputs
  ok (some values)

abbrev pub reason_if : Bool → ReasonCode → List ReasonCode
reason_if b code = if b then code ∷ [] else []

abbrev pub blocked_of : Option (ℕ × ℕ × ℕ) → Option ℕ
blocked_of none = none
blocked_of (some (_, _, blocked)) = some blocked

abbrev pub mark_of : Option (ℕ × ℕ × ℕ) → Option ℕ
mark_of none = none
mark_of (some (mark, _, _)) = some mark

abbrev pub liquidation_of : Option (ℕ × ℕ × ℕ) → Option ℕ
liquidation_of none = none
liquidation_of (some (_, liquidation, _)) = some liquidation

unfoldable pub reasons_of : DataQuality → ℕ → Option (ℕ × ℕ × ℕ) → List ReasonCode
reasons_of quality in_transit values =
    reason_if (is_unavailable quality) ReasonCode.data_unavailable
    ++ (reason_if (is_stale quality) ReasonCode.stale_data
        ++ (reason_if (ltb 0 in_transit) ReasonCode.in_transit_unavailable
            ++ reason_if (when_some (blocked_of values) (λ blocked. ltb 0 blocked))
                ReasonCode.blocked_liquidity))

unfoldable pub check_inputs : Portfolio → List PositionValuation → Result (Unit {0})
check_inputs state inputs = do
  throw_if (not (all input_in_range inputs)) schema_rejected
  unique inputs (λ input. input.position_id)
  throw_if
      (length inputs != length state.positions
        || any (λ position. not (any (λ input. input.position_id == position.position_id) inputs))
            state.positions)
      accounting_invariant

unfoldable pub valuation_of :
    Hasher → Portfolio → List PositionValuation → Option (ℕ × ℕ × ℕ) → PortfolioValuation
valuation_of hasher state inputs values =
    let quality = quality_of inputs in
    let in_transit = receivable_total state.receivables in
    record {
      portfolio_hash = hasher.portfolio_hash state;
      portfolio_version = state.version;
      mark_value_usdc_minor = mark_of values;
      liquidation_value_usdc_minor = liquidation_of values;
      available_usdc_minor = cash_total state.cash;
      reserved_usdc_minor = reserved_total state.reservations;
      in_transit_usdc_minor = in_transit;
      blocked_value_usdc_minor = blocked_of values;
      fees_payable_usdc_minor = payable_total state.payables;
      data_quality = quality;
      source_hashes = sort_by (λ hash. hash) (map (λ input. input.source_hash) inputs);
      reason_codes = reasons_of quality in_transit values;
    }

unfoldable pub value_portfolio :
    Hasher → Portfolio → List PositionValuation → Result PortfolioValuation
value_portfolio hasher state_input inputs = do
  state ← assert_portfolio state_input
  check_inputs state inputs
  values ← values_of state inputs (quality_of inputs)
  let valuation = valuation_of hasher state inputs values
  throw_if (not (valuation_in_range valuation)) schema_rejected
  ok valuation

-- The state is accepted, so the difference is not truncated.
unfoldable pub global_book_value : Portfolio → Result ℕ
global_book_value state_input = do
  state ← assert_portfolio state_input
  ok (gross_assets state - payable_total state.payables)
