-- ===== src/Transfers/Receipts/Conversions.antt =====
-- What the conversions of balances and of gas costs keep.
-- Code: packages/transfers/src/index.ts (`normalizeArcBalance`, `gasCostUsdcMinor`).
use native.Mathlib.Nat.{div-add-mod, mod-lt}
use alpha_proof.Base.{
  ℕ, false, ◌+◌, ◌-◌, ◌*◌, ◌/◌, ◌^◌, ◌≤◌, ◌<◌, ◌≡◌, subst, ok, >>-elim, arith, ℤ, pos, throw_if,
  throw_if-ok, ok-injective, ◌==◌, accounting_invariant,
}
use alpha_proof.Transfers.Receipts.{ArcBalance, normalize_arc_balance, gas_cost_usdc_minor}

-- The two parts of a normalized balance recombine to the native balance, the dust is less than
-- one canonical unit, and the canonical part is the balance of the token.
pub normalize_arc_balance-recombines :
    (native erc20 : ℤ) {b : ArcBalance}
    → normalize_arc_balance native erc20 ≡ ok b
    → (native ≡ pos (b.canonical_usdc_minor * 1_000_000_000_000 + b.native_dust_minor18))
      × (b.native_dust_minor18 < 1_000_000_000_000)
      × (erc20 ≡ pos b.canonical_usdc_minor)
unfolding normalize_arc_balance
normalize_arc_balance-recombines native erc20 h = ground arith

==-false→pos : (d : ℕ) → (d == 0) ≡ false → 0 < d
==-false→pos d h = ground arith

ceiling : (p d : ℕ) → 0 < d → (p ≤ (p + d - 1) / d * d) × ((p + d - 1) / d * d < p + d)
ceiling p d h = omega (arith, div-add-mod (p + d - 1) d, mod-lt (p + d - 1) h)

-- The cost of gas in the minor unit of USDC is the exact quotient rounded up.
pub gas_cost_usdc_minor-ceiling :
    (gas_used gas_price native_decimals numerator unit_denominator : ℕ) {v : ℕ}
    → gas_cost_usdc_minor gas_used gas_price native_decimals numerator unit_denominator ≡ ok v
    → let product = gas_used * gas_price * numerator in
      let denominator = 10 ^ native_decimals * unit_denominator in
      (product ≤ v * denominator) × (v * denominator < product + denominator)
unfolding gas_cost_usdc_minor
gas_cost_usdc_minor-ceiling g p n k u h =
    let product = g * p * k in
    let denominator = 10 ^ n * u in
    >>-elim (throw_if (denominator == 0) accounting_invariant) _ h λ checked rest.
      let c = ceiling product denominator (==-false→pos denominator (throw_if-ok _ _ checked)) in
      subst (λ v. (product ≤ v * denominator) × (v * denominator < product + denominator))
        (ok-injective rest) c
