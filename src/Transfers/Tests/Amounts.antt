-- ===== src/Transfers/Tests/Amounts.antt =====
-- A balance with two views, and the cost of gas.
-- Code: packages/transfers/src/index.ts.
use alpha_proof.Base.{◌≡◌, refl, ok, pos}
use alpha_proof.Transfers.Receipts.{ArcBalance, normalize_arc_balance, gas_cost_usdc_minor}

abbrev balance : ArcBalance
balance = record { canonical_usdc_minor = 3; native_dust_minor18 = 5 }

normalize-balance : normalize_arc_balance (pos 3_000_000_000_005) (pos 3) ≡ ok balance
unfolding normalize_arc_balance
normalize-balance = refl

gas-cost : gas_cost_usdc_minor 7 3 1 5 2 ≡ ok 6
unfolding gas_cost_usdc_minor
gas-cost = refl
