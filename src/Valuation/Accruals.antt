-- ===== src/Valuation/Accruals.antt =====
-- What the accruals of a checkpoint leave alone, and what each of them changes.
-- Code: packages/valuation/src/index.ts (`checkpointPortfolio`).
pub mod Steps
pub mod Fresh
pub mod Chain
use alpha_proof.Base.{
  ℕ, ◌+◌, ◌<◌, ◌≡◌, ◌≢◌, refl, sym, subst, ap, ◌∙◌, Bool, true, false, some, List, [], ◌∷◌, length,
  find, find-sort_by, length-sort_by, sort_by, sort_by-sort_by, total_by-sort_by, update_first,
  ◌==◌, ==_iff, Bool-cases, total_by-update_first, leb, inl, inr, ok, accounting_invariant,
  invalid_transition, throw_if-ok, throw_if, or_throw, or_throw-eq-ok, ok-injective, >>=-elim,
  >>-elim, pos_part, neg_part, +ℤ_parts, sub_ℕ, sub_ℕ_parts, arith,
}
use alpha_proof.Accounting.State.{
  Ident, Portfolio, BalanceView, CashBalance, Reservation, AccountingPosition, AccountingReceivable,
  FeePayable, Allowance, RecognizedCost,
}
use alpha_proof.Accounting.Receipt.{Receipt, ReceiptBase}
use alpha_proof.Accounting.Amounts.{ScaleResult}
use alpha_proof.Accounting.Books.{book_total, position_book}
use alpha_proof.Accounting.Effects.Local.{has_costs}
use alpha_proof.Accounting.Effects.Positions.{position_is, rebook, accrue_index}
use alpha_proof.Accounting.Apply.{Hasher, sort_state, record_receipt}
use alpha_proof.Valuation.State.{AccrualInput}

-- What stays of a position: all but its index, its book value and its source.
pub record SameHolding (p q : AccountingPosition) : Type 0 where
  pub position_id : q.position_id ≡ p.position_id
  pub network_id : q.network_id ≡ p.network_id
  pub instrument_id : q.instrument_id ≡ p.instrument_id
  pub asset_id : q.asset_id ≡ p.asset_id
  pub shares : q.shares_minor ≡ p.shares_minor

pub SameHolding-refl : (p : AccountingPosition) → SameHolding p p
SameHolding-refl p = record {
  position_id = refl;
  network_id = refl;
  instrument_id = refl;
  asset_id = refl;
  shares = refl;
}

SameHolding-trans :
    (p q r : AccountingPosition) → SameHolding p q → SameHolding q r → SameHolding p r
SameHolding-trans p q r a b = record {
  position_id = b.position_id ∙ a.position_id;
  network_id = b.network_id ∙ a.network_id;
  instrument_id = b.instrument_id ∙ a.instrument_id;
  asset_id = b.asset_id ∙ a.asset_id;
  shares = b.shares ∙ a.shares;
}

-- From one portfolio to a later one the same items are there, which an order by key compares, but
-- the positions' indices, book values and sources, and the modeled profit, which moves by as much
-- as the book values. The version, the log and the time of the last receipt are not spoken of.
pub record CarriedOver (s t : Portfolio) : Type 0 where
  pub experiment_id : t.experiment_id ≡ s.experiment_id
  pub scenario_id : t.scenario_id ≡ s.scenario_id
  pub portfolio_id : t.portfolio_id ≡ s.portfolio_id
  pub result_provenance : t.result_provenance ≡ s.result_provenance
  pub initial : t.initial_value_usdc_minor ≡ s.initial_value_usdc_minor
  pub attempts : t.max_destination_attempts ≡ s.max_destination_attempts
  pub closed_at : t.closed_at ≡ s.closed_at
  pub deadline : t.deadline_state_hash ≡ s.deadline_state_hash
  pub views :
      sort_by (λ (item : BalanceView). item.view_id) t.balance_views
      ≡ sort_by (λ (item : BalanceView). item.view_id) s.balance_views
  pub cash :
      sort_by (λ (item : CashBalance). item.balance_family_id) t.cash
      ≡ sort_by (λ (item : CashBalance). item.balance_family_id) s.cash
  pub reservations :
      sort_by (λ (item : Reservation). item.reservation_id) t.reservations
      ≡ sort_by (λ (item : Reservation). item.reservation_id) s.reservations
  pub receivables :
      sort_by (λ (item : AccountingReceivable). item.transfer_id) t.receivables
      ≡ sort_by (λ (item : AccountingReceivable). item.transfer_id) s.receivables
  pub payables :
      sort_by (λ (item : FeePayable). item.payable_id) t.payables
      ≡ sort_by (λ (item : FeePayable). item.payable_id) s.payables
  pub allowances :
      sort_by (λ (item : Allowance). item.allowance_id) t.allowances
      ≡ sort_by (λ (item : Allowance). item.allowance_id) s.allowances
  pub costs :
      sort_by (λ (item : RecognizedCost). item.cost.cost_id) t.recognized_costs
      ≡ sort_by (λ (item : RecognizedCost). item.cost.cost_id) s.recognized_costs
  pub position_count : length t.positions ≡ length s.positions
  pub holdings :
      (id : Ident) (p : AccountingPosition)
      → find (position_is id) s.positions ≡ some p
      → (q : AccountingPosition) × (find (position_is id) t.positions ≡ some q) × SameHolding p q
  pub gain :
      book_total t.positions + neg_part t.modeled_pnl_usdc_minor + pos_part s.modeled_pnl_usdc_minor
      ≡ book_total s.positions
        + neg_part s.modeled_pnl_usdc_minor
        + pos_part t.modeled_pnl_usdc_minor

pub CarriedOver-refl : (s : Portfolio) → CarriedOver s s
CarriedOver-refl s = record {
  experiment_id = refl;
  scenario_id = refl;
  portfolio_id = refl;
  result_provenance = refl;
  initial = refl;
  attempts = refl;
  closed_at = refl;
  deadline = refl;
  views = refl;
  cash = refl;
  reservations = refl;
  receivables = refl;
  payables = refl;
  allowances = refl;
  costs = refl;
  position_count = refl;
  holdings = λ id p found. (p, found, SameHolding-refl p);
  gain = omega arith;
}

pub CarriedOver-trans : (s t u : Portfolio) → CarriedOver s t → CarriedOver t u → CarriedOver s u
CarriedOver-trans s t u a b = record {
  experiment_id = b.experiment_id ∙ a.experiment_id;
  scenario_id = b.scenario_id ∙ a.scenario_id;
  portfolio_id = b.portfolio_id ∙ a.portfolio_id;
  result_provenance = b.result_provenance ∙ a.result_provenance;
  initial = b.initial ∙ a.initial;
  attempts = b.attempts ∙ a.attempts;
  closed_at = b.closed_at ∙ a.closed_at;
  deadline = b.deadline ∙ a.deadline;
  views = b.views ∙ a.views;
  cash = b.cash ∙ a.cash;
  reservations = b.reservations ∙ a.reservations;
  receivables = b.receivables ∙ a.receivables;
  payables = b.payables ∙ a.payables;
  allowances = b.allowances ∙ a.allowances;
  costs = b.costs ∙ a.costs;
  position_count = b.position_count ∙ a.position_count;
  holdings = λ id p found.
      let (q, found_q, pq) = a.holdings id p found in
      let (r, found_r, qr) = b.holdings id q found_q in (r, found_r, SameHolding-trans p q r pq qr);
  gain = omega (arith, a.gain, b.gain);
}

-- What an accrual does to its position, and that it leaves the others.
pub record Accrues (a : AccrualInput) (s t : Portfolio) : Type 0 where
  pub before : AccountingPosition
  pub after : AccountingPosition
  pub book : ScaleResult
  pub found : find (position_is a.position_id) s.positions ≡ some before
  pub left : find (position_is a.position_id) t.positions ≡ some after
  pub later : before.last_observed_at < a.observed_at
  pub holding : SameHolding before after
  pub numerator : after.index_numerator ≡ a.next_index_numerator
  pub denominator : after.index_denominator ≡ a.next_index_denominator
  pub source : after.last_source_hash ≡ a.source_hash
  pub observed : after.last_observed_at ≡ a.observed_at
  pub booked :
      position_book before.shares_minor a.next_index_numerator a.next_index_denominator ≡ ok book
  pub value : after.book_value_usdc_minor ≡ book.value_minor
  pub remainder : after.rounding_remainder_numerator ≡ book.amount_source_minor
  pub others :
      (id : Ident)
      → a.position_id ≢ id
      → find (position_is id) t.positions ≡ find (position_is id) s.positions

pub found-position_id :
    (id : Ident) (xs : List AccountingPosition) (p : AccountingPosition)
    → find (position_is id) xs ≡ some p
    → p.position_id ≡ id
found-position_id id [] p h = ground arith
found-position_id id (x ∷ xs) p h =
    ground (arith, ==_iff x.position_id id, found-position_id id xs p)

pub replaced_own :
    (id : Ident) (xs : List AccountingPosition) (p q : AccountingPosition)
    → find (position_is id) xs ≡ some p
    → q.position_id ≡ id
    → find (position_is id) (update_first (position_is id) (λ _. q) xs) ≡ some q
replaced_own id [] p q h e = ground arith
replaced_own id (x ∷ xs) p q h e =
    ground (arith, e, ==_iff q.position_id id, replaced_own id xs p q)

pub replaced_other :
    (id other : Ident) (xs : List AccountingPosition) (q : AccountingPosition)
    → q.position_id ≡ id
    → id ≢ other
    → find (position_is other) (update_first (position_is id) (λ _. q) xs)
      ≡ find (position_is other) xs
replaced_other id other [] q e differ = refl
replaced_other id other (x ∷ xs) q e differ = ground (
  arith,
  e,
  ==_iff x.position_id id,
  ==_iff x.position_id other,
  ==_iff q.position_id other,
  replaced_other id other xs q e differ,
)

pub length-update_first {ℓ} :
    {A : Type ℓ} (p : A → Bool) (g : A → A) (xs : List A) → length (update_first p g xs) ≡ length xs
length-update_first p g [] = refl
length-update_first p g (x ∷ xs) = ground (arith, length-update_first p g xs)
