-- ===== src/Accounting/Check/Sound.antt =====
-- What an accepted portfolio satisfies.
-- Code: packages/accounting/src/index.ts (`assertPortfolio`).
use alpha_proof.Base.{
  ◌+◌, ◌≤◌, ◌≡◌, ok, >>=-elim, >>-elim, arith, pos_part, neg_part, pos, ◌+ℤ◌, +ℤ_parts, -ℤ_parts,
}
use alpha_proof.Accounting.State.{Portfolio}
use alpha_proof.Accounting.Books.{gross_assets, payable_total, cost_total}
use alpha_proof.Accounting.Check.{
  check_unique, check_versions, check_references, check_solvency, check_conservation, check_closure,
  assert_portfolio,
}
use alpha_proof.Accounting.Check.Schema.{parse_portfolio}

-- All the checks of `assert_portfolio` pass.
pub record IsValid (s : Portfolio) : Type 0 where
  pub parsed : parse_portfolio s ≡ ok s
  pub unique_ids : check_unique s ≡ ok tt
  pub versions : check_versions s ≡ ok tt
  pub references : check_references s ≡ ok tt
  pub solvent : check_solvency s ≡ ok tt
  pub conserved : check_conservation s ≡ ok tt
  pub closure : check_closure s ≡ ok tt

pub parse_portfolio-same : (s : Portfolio) {t : Portfolio} → parse_portfolio s ≡ ok t → t ≡ s
unfolding parse_portfolio
parse_portfolio-same s h = ground arith

-- An accepted portfolio is returned as it is, and passed every check.
pub assert_portfolio-IsValid :
    (s : Portfolio) {t : Portfolio} → assert_portfolio s ≡ ok t → (t ≡ s) × IsValid s
unfolding assert_portfolio
assert_portfolio-IsValid s h = >>=-elim (parse_portfolio s) _ h λ u parsed h₁.
    let e : u ≡ s = parse_portfolio-same s parsed in
    >>-elim (check_unique u) _ h₁ λ unique_ids h₂. >>-elim (check_versions u) _ h₂ λ versions h₃.
      >>-elim (check_references u) _ h₃ λ references h₄.
        >>-elim (check_solvency u) _ h₄ λ solvent h₅.
          >>-elim (check_conservation u) _ h₅
            λ conserved h₆. >>-elim (check_closure u) _ h₆ λ closure h₇. ground arith

pub IsValid-assert_portfolio : (s : Portfolio) → IsValid s → assert_portfolio s ≡ ok s
unfolding assert_portfolio
IsValid-assert_portfolio s v =
    rw (v.parsed, v.unique_ids, v.versions, v.references, v.solvent, v.conserved, v.closure)

-- The conservation law, in natural numbers.
abbrev pub Balanced : Portfolio → Type 0
Balanced s =
    gross_assets s + cost_total s.recognized_costs + neg_part s.modeled_pnl_usdc_minor
    ≡ s.initial_value_usdc_minor + pos_part s.modeled_pnl_usdc_minor + payable_total s.payables

pub check_solvency-le :
    (s : Portfolio) → check_solvency s ≡ ok tt → payable_total s.payables ≤ gross_assets s
unfolding check_solvency
check_solvency-le s h = ground arith

pub check_conservation-Balanced :
    (s : Portfolio)
    → payable_total s.payables ≤ gross_assets s
    → check_conservation s ≡ ok tt
    → Balanced s
unfolding check_conservation
check_conservation-Balanced s solvent h = ground (
  arith,
  +ℤ_parts (pos s.initial_value_usdc_minor) s.modeled_pnl_usdc_minor,
  -ℤ_parts (pos s.initial_value_usdc_minor +ℤ s.modeled_pnl_usdc_minor)
      (pos (cost_total s.recognized_costs)),
)

pub Balanced-check_conservation :
    (s : Portfolio)
    → payable_total s.payables ≤ gross_assets s
    → Balanced s
    → check_conservation s ≡ ok tt
unfolding check_conservation
Balanced-check_conservation s solvent h = ground (
  arith,
  +ℤ_parts (pos s.initial_value_usdc_minor) s.modeled_pnl_usdc_minor,
  -ℤ_parts (pos s.initial_value_usdc_minor +ℤ s.modeled_pnl_usdc_minor)
      (pos (cost_total s.recognized_costs)),
)
