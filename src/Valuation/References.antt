-- ===== src/Valuation/References.antt =====
-- The two references that start beside an agent.
-- Code: packages/valuation/src/index.ts (`initialDistributionHash`, `makeReferences`).
use alpha_proof.Base.{
  false, ◌↔◌, Bool-cases, inl, inr, true, ◌≡◌, refl, sym, ap, ◌∙◌, map, ◌!=◌, accounting_invariant,
  ok, ok-injective, throw_if, throw_if-ok, >>=-elim, >>-elim, arith,
}
use alpha_proof.Accounting.State.{Ident, Timestamp, Portfolio}
use alpha_proof.Accounting.Check.{
  assert_portfolio, check_unique, check_versions, check_references, check_solvency,
  check_conservation, check_closure, check_cash, check_reservation, check_receivable,
  check_position, check_payable, check_cost_operation, check_allowance,
}
use alpha_proof.Accounting.Check.Schema.{parse_portfolio, portfolio_in_range}
use alpha_proof.Accounting.Check.Sound.{IsValid, assert_portfolio-IsValid, IsValid-assert_portfolio}
use alpha_proof.Valuation.State.{
  ReferenceKind, ReferencePortfolio, CheckpointHasher, ReferenceStatus,
}
use alpha_proof.Valuation.{
  holding_of, initial_distribution_hash, make_reference, make_references, frozen_instrument,
}

-- The reference of a kind: a copy of the agent's portfolio under a name of its own.
abbrev pub reference_of :
    CheckpointHasher → Portfolio → Timestamp → Timestamp → ReferenceKind → ReferencePortfolio
reference_of h s starts ends kind = record {
  experiment_id = s.experiment_id;
  scenario_id = s.scenario_id;
  reference_id = h.reference_name s.experiment_id s.scenario_id kind;
  kind = kind;
  frozen_instrument_id = frozen_instrument kind;
  status = ReferenceStatus.active;
  initial_distribution_hash = h.distribution_hash (record {
    initial_value_usdc_minor = s.initial_value_usdc_minor;
    holdings = map holding_of s.cash;
  });
  period_starts_at = starts;
  period_ends_at = ends;
  portfolio = record s { portfolio_id = h.reference_name s.experiment_id s.scenario_id kind };
}

parse_portfolio-in_range : (s : Portfolio) → parse_portfolio s ≡ ok s → portfolio_in_range s ≡ true
unfolding parse_portfolio
parse_portfolio-in_range s e = elim (Bool-cases (portfolio_in_range s)) [
  | inl fits ↦ fits
  | inr fails ↦ absurd (cc (rw fails at e))
]

in_range-parse_portfolio : (s : Portfolio) → portfolio_in_range s ≡ true → parse_portfolio s ≡ ok s
unfolding parse_portfolio
in_range-parse_portfolio s e = rw e refl

renamed-in_range :
    (name : Ident) (s : Portfolio)
    → portfolio_in_range (record s { portfolio_id = name }) ≡ portfolio_in_range s
unfolding portfolio_in_range
renamed-in_range name s = refl

-- A copy of a portfolio under another name passes the same checks.
renamed-IsValid :
    (name : Ident) (s : Portfolio) → IsValid s → IsValid (record s { portfolio_id = name })
unfolding check_unique check_versions check_references check_solvency check_conservation
    check_closure check_cash check_reservation check_receivable check_position check_payable
    check_cost_operation check_allowance
renamed-IsValid name s v = record {
  parsed =
      in_range-parse_portfolio (record s { portfolio_id = name })
        (renamed-in_range name s ∙ parse_portfolio-in_range s v.parsed);
  unique_ids = v.unique_ids;
  versions = v.versions;
  references = v.references;
  solvent = v.solvent;
  conserved = v.conserved;
  closure = v.closure;
}

make_reference-reference_of :
    (h : CheckpointHasher) (s : Portfolio) (starts ends : Timestamp) (kind : ReferenceKind)
    → IsValid s
    → let r = reference_of h s starts ends kind in
      make_reference h s r.initial_distribution_hash starts ends kind ≡ ok r
unfolding make_reference
make_reference-reference_of h s starts ends kind v =
    rw (renamed-IsValid (h.reference_name s.experiment_id s.scenario_id kind) s v).parsed refl

valid-initial_distribution_hash :
    (h : CheckpointHasher) (s : Portfolio)
    → IsValid s
    → initial_distribution_hash h s
      ≡ ok (reference_of h s 0 0 ReferenceKind.cash).initial_distribution_hash
unfolding initial_distribution_hash
valid-initial_distribution_hash h s v = rw (IsValid-assert_portfolio s v) refl

valid_fresh-make_references :
    (h : CheckpointHasher) (s : Portfolio) (starts ends : Timestamp)
    → IsValid s
    → s.version ≡ 0
    → make_references h s starts ends
      ≡ ok (
        reference_of h s starts ends ReferenceKind.cash,
        reference_of h s starts ends ReferenceKind.conservative_yield,
      )
unfolding make_references
valid_fresh-make_references h s starts ends v fresh =
    let untouched : (s.version != 0) ≡ false = ground arith in
    rw
      (
        IsValid-assert_portfolio s v,
        untouched,
        valid-initial_distribution_hash h s v,
        make_reference-reference_of h s starts ends ReferenceKind.cash v,
        make_reference-reference_of h s starts ends ReferenceKind.conservative_yield v,
      )
      refl

make_references-IsValid :
    (h : CheckpointHasher) (s : Portfolio) (starts ends : Timestamp)
    {out : ReferencePortfolio × ReferencePortfolio}
    → make_references h s starts ends ≡ ok out
    → IsValid s × (s.version ≡ 0)
unfolding make_references
make_references-IsValid h s starts ends e = >>=-elim (assert_portfolio s) _ e λ t checked e₁.
    let (same, valid) = assert_portfolio-IsValid s checked in
    >>-elim (throw_if (t.version != 0) accounting_invariant) _ e₁
      λ fresh e₂. (valid, ground (arith, throw_if-ok (t.version != 0) _ fresh, same))

-- The call returns two portfolios exactly if the agent's portfolio is valid and no receipt has
-- touched it, and they are the references: copies of it under names of their own, with the hash of
-- its capital and cash, one for each kind, over the period given.
pub make_references_iff :
    (h : CheckpointHasher) (s : Portfolio) (starts ends : Timestamp)
    (out : ReferencePortfolio × ReferencePortfolio)
    → (make_references h s starts ends ≡ ok out) ↔ (
        IsValid s
        × (s.version ≡ 0)
        × (out ≡ (
          reference_of h s starts ends ReferenceKind.cash,
          reference_of h s starts ends ReferenceKind.conservative_yield,
        )))
make_references_iff h s starts ends out = (
  (λ e.
      let (valid, fresh) = make_references-IsValid h s starts ends e in
      (
        valid,
        fresh,
        ok-injective (sym e ∙ valid_fresh-make_references h s starts ends valid fresh),
      )),
  (λ (valid, fresh, same).
      valid_fresh-make_references h s starts ends valid fresh ∙ ap ok (sym same)),
)
