-- ===== src/Valuation/Accruals/Fresh.antt =====
-- An accrual that is applied for the first time.
-- Code: packages/valuation/src/index.ts (`checkpointPortfolio`).
use alpha_proof.Base.{
  ℕ, ◌≡◌, refl, sym, subst, ap, ◌∙◌, [], find, find-sort_by, length-sort_by, sort_by-sort_by,
  total_by-sort_by, ok, arith,
}
use alpha_proof.Accounting.State.{
  Ident, Portfolio, BalanceView, CashBalance, Reservation, AccountingPosition, AccountingReceivable,
  FeePayable, Allowance, RecognizedCost,
}
use alpha_proof.Accounting.Receipt.{Receipt, ReceiptKind}
use alpha_proof.Accounting.Effects.Positions.{position_is}
use alpha_proof.Accounting.Apply.{Hasher, sort_state, record_receipt, effect}
use alpha_proof.Accounting.Apply.Once.{Fresh}
use alpha_proof.Valuation.State.{AccrualInput}
use alpha_proof.Valuation.Accruals.{SameHolding-refl, CarriedOver, CarriedOver-trans, Accrues}
use alpha_proof.Valuation.Accruals.Steps.{
  Accrual, accrue_index-Accrual, Accrual-SameHolding, Accrual-own, Accrual-other,
  Accrual-CarriedOver,
}

sort_state-CarriedOver : (s : Portfolio) → CarriedOver s (sort_state s)
unfolding sort_state
sort_state-CarriedOver s = record {
  experiment_id = refl;
  scenario_id = refl;
  portfolio_id = refl;
  result_provenance = refl;
  initial = refl;
  attempts = refl;
  closed_at = refl;
  deadline = refl;
  views = sort_by-sort_by (λ (item : BalanceView). item.view_id) s.balance_views;
  cash = sort_by-sort_by (λ (item : CashBalance). item.balance_family_id) s.cash;
  reservations = sort_by-sort_by (λ (item : Reservation). item.reservation_id) s.reservations;
  receivables = sort_by-sort_by (λ (item : AccountingReceivable). item.transfer_id) s.receivables;
  payables = sort_by-sort_by (λ (item : FeePayable). item.payable_id) s.payables;
  allowances = sort_by-sort_by (λ (item : Allowance). item.allowance_id) s.allowances;
  costs = sort_by-sort_by (λ (item : RecognizedCost). item.cost.cost_id) s.recognized_costs;
  position_count = length-sort_by (λ (item : AccountingPosition). item.position_id) s.positions;
  holdings = λ id p found. (
    p,
    find-sort_by (λ (item : AccountingPosition). item.position_id) id s.positions ∙ found,
    SameHolding-refl p,
  );
  gain = omega (
    arith,
    total_by-sort_by {A = AccountingPosition} (λ item. item.book_value_usdc_minor)
        (λ item. item.position_id) s.positions,
  );
}

record_receipt-CarriedOver :
    (h : Hasher) (s : Portfolio) (r : Receipt) (t : Portfolio)
    → CarriedOver t (record_receipt h s r t)
unfolding record_receipt
record_receipt-CarriedOver h s r t = record {
  experiment_id = refl;
  scenario_id = refl;
  portfolio_id = refl;
  result_provenance = refl;
  initial = refl;
  attempts = refl;
  closed_at = refl;
  deadline = refl;
  views = refl;
  cash = refl;
  reservations = refl;
  receivables = refl;
  payables = refl;
  allowances = refl;
  costs = refl;
  position_count = refl;
  holdings = λ id p found. (p, found, SameHolding-refl p);
  gain = omega arith;
}

-- The positions after the sort at the end of a receipt.
sorted-position :
    (h : Hasher) (s : Portfolio) (r : Receipt) (u : Portfolio) (id : Ident)
    → find (position_is id) (sort_state (record_receipt h s r u)).positions
      ≡ find (position_is id) u.positions
unfolding sort_state record_receipt
sorted-position h s r u id =
    find-sort_by (λ (item : AccountingPosition). item.position_id) id u.positions

Fresh-Accrual :
    (h : Hasher) (s : Portfolio) (r : Receipt) (id n d : ℕ) {t : Portfolio}
    → r.kind ≡ ReceiptKind.accrue id n d []
    → (f : Fresh h s r t) → Accrual s r.base id n d f.state
unfolding effect
Fresh-Accrual h s r id n d kind f =
    accrue_index-Accrual s r.base id n d
      (subst (λ k. effect h s r.base k ≡ ok f.state) kind f.applied)

pub Fresh-CarriedOver :
    (h : Hasher) (s : Portfolio) (r : Receipt) (id n d : ℕ) {t : Portfolio}
    → r.kind ≡ ReceiptKind.accrue id n d []
    → Fresh h s r t
    → CarriedOver s t
Fresh-CarriedOver h s r id n d kind f =
    let first = Accrual-CarriedOver s r.base id n d (Fresh-Accrual h s r id n d kind f) in
    let recorded = record_receipt h s r f.state in
    subst (CarriedOver s) (sym f.result) (
      CarriedOver-trans s recorded (sort_state recorded)
        (CarriedOver-trans s f.state recorded first (record_receipt-CarriedOver h s r f.state))
        (sort_state-CarriedOver recorded))

pub Fresh-Accrues :
    (h : Hasher) (s : Portfolio) (r : Receipt) (a : AccrualInput) {t : Portfolio}
    → r.kind ≡ ReceiptKind.accrue a.position_id a.next_index_numerator a.next_index_denominator []
    → r.base.observed_at ≡ a.observed_at
    → r.base.first_source_hash ≡ a.source_hash
    → Fresh h s r t
    → Accrues a s t
Fresh-Accrues h s r a {t} kind time source f =
    let id = a.position_id in
    let n = a.next_index_numerator in
    let d = a.next_index_denominator in
    let c = Fresh-Accrual h s r id n d kind f in
    let b = c.rebooked in
    let same : (i : Ident)
        → find (position_is i) t.positions ≡ find (position_is i) f.state.positions =
      λ i.
        ap (λ (x : Portfolio). find (position_is i) x.positions) f.result
        ∙ sorted-position h s r f.state i in
    record {
      before = c.before;
      after = c.after;
      book = b.book;
      found = c.found;
      left = same id ∙ Accrual-own s r.base id n d c;
      later = ground (arith, c.later, time);
      holding = Accrual-SameHolding s r.base id n d c;
      numerator = ap (λ x. x.index_numerator) b.result;
      denominator = ap (λ x. x.index_denominator) b.result;
      source = ap (λ x. x.last_source_hash) b.result ∙ source;
      observed = ap (λ x. x.last_observed_at) b.result ∙ time;
      booked = b.booked;
      value = ap (λ x. x.book_value_usdc_minor) b.result;
      remainder = ap (λ x. x.rounding_remainder_numerator) b.result;
      others = λ i differ. same i ∙ Accrual-other s r.base id n d c i differ;
    }
