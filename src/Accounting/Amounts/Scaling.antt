-- ===== src/Accounting/Amounts/Scaling.antt =====
-- What scaled division and decimal rescaling keep and report.
-- Code: packages/accounting/src/index.ts (`mulDiv`, `rescaleMinor`).
use native.Mathlib.Nat.{
  div-add-mod, mod-lt, pow-le-pow_right, mul-div_cancel, mul-mod_left, mul-one,
}
use alpha_proof.Base.{
  ℕ, ◌+◌, ◌-◌, ◌*◌, ◌%◌, ◌^◌, ◌≤◌, ◌<◌, ◌≡◌, refl, Bool, true, false, inl, inr, Bool-cases, ltb,
  ◌==◌, ok, accounting_invariant, throw_if, lt→leb-false, pos→==-false, le→leb, le→ltb-false,
  >>=-elim, >>-elim, arith, if◌then◌else◌, ◌||◌,
}
use alpha_proof.Accounting.Amounts.{
  uint256_limit, Rounding, RemainderKind, ScaleResult, uint, rounded, mul_div, scale_up,
  rescale_minor,
}

abbrev pub is_exact : RemainderKind → Bool
is_exact RemainderKind.exact = true
is_exact _ = false

-- The result accounts for the whole product: what rounding down drops, or rounding up adds.
abbrev pub Accounts : Rounding → ℕ → ℕ → ScaleResult → Type 0
Accounts Rounding.floor product d s = s.value_minor * d + s.amount_source_minor ≡ product
Accounts Rounding.ceil product d s = s.value_minor * d ≡ product + s.amount_source_minor

rounded-floor : (p d : ℕ) → rounded Rounding.floor p d * d + p % d ≡ p
rounded-floor p d = grind (arith, div-add-mod p d)

rounded-ceil :
    (p d : ℕ) → 0 < d → rounded Rounding.ceil p d * d ≡ p + (if p % d == 0 then 0 else d - p % d)
rounded-ceil p d pos = elim (Bool-cases (p % d == 0)) [
  | inl e ↦ rw e (grind (arith, div-add-mod p d))
  | inr e ↦ rw e (omega (arith, div-add-mod p d, mod-lt p pos))
]

-- Multiplying and dividing accounts for the product exactly: floor reports what it drops, ceiling
-- what it adds, in either case less than one unit of the result, and exactness when it is zero.
pub mul_div-Accounts :
    (a b d : ℕ) (m : Rounding) {s : ScaleResult}
    → mul_div a b d m ≡ ok s
    → Accounts m (a * b) d s
      × (s.amount_source_minor < d)
      × (is_exact s.kind ≡ (s.amount_source_minor == 0))
      × (s.value_minor < uint256_limit)
unfolding mul_div
mul_div-Accounts a b d Rounding.floor e =
    ground (arith, rounded-floor (a * b) d, λ (pos : 0 < d). mod-lt (a * b) pos)
mul_div-Accounts a b d Rounding.ceil e =
    ground (arith, λ (pos : 0 < d). rounded-ceil (a * b) d pos, λ (pos : 0 < d). mod-lt (a * b) pos)

-- Within range, and with a divisor that is not zero, a division gives a result.
pub mul_div-returns :
    (a b d : ℕ) (m : Rounding)
    → a < uint256_limit
    → b < uint256_limit
    → d < uint256_limit
    → 0 < d
    → rounded m (a * b) d < uint256_limit
    → (s : ScaleResult) × (mul_div a b d m ≡ ok s)
unfolding mul_div
mul_div-returns a b d m ha hb hd pos hr =
    rw
      (
        lt→leb-false _ _ ha,
        lt→leb-false _ _ hb,
        lt→leb-false _ _ hd,
        pos→==-false _ pos,
        lt→leb-false _ _ hr,
      )
      (_, refl)

pow-pos : (n : ℕ) → 0 < 10 ^ n
pow-pos n = pow-le-pow_right {n = 10} (omega arith) {i = 0} {j = n} (omega arith)

pow-lt : (n : ℕ) → n ≤ 36 → 10 ^ n < uint256_limit
pow-lt n h = omega (arith, pow-le-pow_right {n = 10} (omega arith) {i = n} {j = 36} h)

uint-value : (n : ℕ) {a : ℕ} → uint n ≡ ok a → (a ≡ n) × (n < uint256_limit)
unfolding uint
uint-value n e = ground arith

-- What scaling up by a factor returns.
scale_up-value :
    (n k : ℕ) {s : ScaleResult}
    → scale_up n k ≡ ok s
    → (s.value_minor ≡ n * k) × (n * k < uint256_limit)
unfolding scale_up
scale_up-value n k e = ground arith

-- What scaling up to more decimals has tested and returned.
record ScaledUp (n f t : ℕ) (s : ScaleResult) : Type 0 where
  from_range : f ≤ 36
  to_range : t ≤ 36
  value : s.value_minor ≡ n * 10 ^ (t - f)
  fits : n * 10 ^ (t - f) < uint256_limit
  amount_fits : n < uint256_limit

rescale_minor-ScaledUp :
    (n f t : ℕ) (m : Rounding) {s : ScaleResult}
    → f < t
    → rescale_minor n f t m ≡ ok s
    → ScaledUp n f t s
unfolding rescale_minor
rescale_minor-ScaledUp n f t m {s} below e =
    >>-elim (throw_if (ltb 36 f || ltb 36 t) accounting_invariant) _ e λ range e₁.
      >>=-elim (uint n) _ e₁ λ amount read e₂.
        let (same, fits) = uint-value n read in
        let up : scale_up amount (10 ^ (t - f)) ≡ ok s = rw (le→leb f t (omega arith)) at e₂ in
        let (value, small) = scale_up-value amount (10 ^ (t - f)) up in
        record {
          from_range = ground arith;
          to_range = ground arith;
          value = rw same at value;
          fits = rw same at small;
          amount_fits = fits;
        }

-- Dividing a multiple by its factor is exact.
mul_div-multiple :
    (n k : ℕ) (m : Rounding)
    → 0 < k
    → k < uint256_limit
    → n < uint256_limit
    → n * k < uint256_limit
    → mul_div (n * k) 1 k m
      ≡ ok (record {
        value_minor = n;
        kind = RemainderKind.exact;
        amount_source_minor = 0;
        denominator = k;
      })
unfolding mul_div
mul_div-multiple n k m pos hk hn hnk =
    rw (lt→leb-false _ _ hnk, lt→leb-false _ _ hk, pos→==-false _ pos)
      (simp (mul-one, mul-mod_left, mul-div_cancel n pos) (ground arith))

-- An amount that is scaled up to more decimals, under either rounding, is scaled down again,
-- under either rounding, exactly to itself.
pub rescale_minor-rescale_minor :
    (n f t : ℕ) (m m' : Rounding) {s : ScaleResult}
    → f < t
    → rescale_minor n f t m ≡ ok s
    → (r : ScaleResult) × (rescale_minor s.value_minor t f m' ≡ ok r)
      × (r.value_minor ≡ n)
      × (r.kind ≡ RemainderKind.exact)
unfolding rescale_minor
rescale_minor-rescale_minor n f t m m' {s} below e =
    let u = rescale_minor-ScaledUp n f t m below e in
    let k = 10 ^ (t - f) in
    (
      record {
        value_minor = n;
        kind = RemainderKind.exact;
        amount_source_minor = 0;
        denominator = k;
      },
      rw
          (
            le→ltb-false t 36 u.to_range,
            le→ltb-false f 36 u.from_range,
            u.value,
            lt→leb-false _ _ u.fits,
            lt→leb-false f t below,
          )
          (mul_div-multiple n k m' (pow-pos (t - f)) (pow-lt (t - f) (omega (arith, u.to_range)))
            u.amount_fits u.fits),
      refl,
      refl,
    )
