-- ===== src/Accounting/Tests/Numbers.antt =====
-- Scaled division and decimal rescaling.
-- Code: packages/accounting/src/index.ts.
use alpha_proof.Base.{◌*◌, ◌<◌, ◌≡◌, refl, ok, ◌==◌}
use alpha_proof.Accounting.Amounts.{
  uint256_limit, Rounding, RemainderKind, ScaleResult, uint, require_uint, mul_div, rescale_minor,
  scale_up,
}
use alpha_proof.Accounting.Amounts.Scaling.{Accounts, is_exact, mul_div-Accounts}

abbrev third : ScaleResult
third = record {
  value_minor = 4;
  kind = RemainderKind.added;
  amount_source_minor = 2;
  denominator = 3;
}

mul_div-third : mul_div 5 2 3 Rounding.ceil ≡ ok third
unfolding uint require_uint mul_div
mul_div-third = refl

mul_div-Accounts_example :
    Accounts Rounding.ceil (5 * 2) 3 third
    × (2 < 3)
    × (is_exact third.kind ≡ (2 == 0))
    × (4 < uint256_limit)
mul_div-Accounts_example = mul_div-Accounts 5 2 3 Rounding.ceil mul_div-third

abbrev scaled : ScaleResult
scaled = record {
  value_minor = 7000;
  kind = RemainderKind.exact;
  amount_source_minor = 0;
  denominator = 1;
}

rescale-scaled : rescale_minor 7 6 9 Rounding.floor ≡ ok scaled
unfolding uint require_uint scale_up rescale_minor
rescale-scaled = refl
