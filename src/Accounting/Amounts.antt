-- ===== src/Accounting/Amounts.antt =====
-- Amounts of 256 bits, scaled division and decimal rescaling.
-- Code: packages/accounting/src/index.ts, its first 120 lines.

pub mod Scaling
use alpha_proof.Base.{
  ℕ, ◌+◌, ◌-◌, ◌*◌, ◌/◌, ◌%◌, ◌^◌, Bool, ◌&&◌, ◌||◌, not, leb, ltb, ◌==◌, if◌then◌else◌,
  accounting_invariant, Result, ok, ◌>>=◌, ◌>>◌, throw_if,
}

abbrev pub uint256_limit : ℕ
uint256_limit = 2 ^ 256

pub data Rounding : Type 0 where
  floor ceil : Rounding

pub data RemainderKind : Type 0 where
  exact discarded added : RemainderKind

pub record ScaleResult : Type 0 where
  pub value_minor : ℕ
  pub kind : RemainderKind
  pub amount_source_minor : ℕ
  pub denominator : ℕ

-- `uint`, after the text is read as a number.
unfoldable pub uint : ℕ → Result ℕ
uint value = do throw_if (leb uint256_limit value) accounting_invariant; ok value

-- `requireUInt` of a value that is not negative
unfoldable pub require_uint : ℕ → Result ℕ
require_uint value = do throw_if (leb uint256_limit value) accounting_invariant; ok value

abbrev is_ceil : Rounding → Bool
is_ceil Rounding.ceil = Bool.true
is_ceil Rounding.floor = Bool.false

-- The quotient after rounding, and what it leaves of the product.
abbrev pub rounded : Rounding → ℕ → ℕ → ℕ
rounded rounding product d =
    if is_ceil rounding && not (product % d == 0) then product / d + 1 else product / d

abbrev remainder_kind : Rounding → ℕ → RemainderKind
remainder_kind rounding remainder =
    if remainder == 0
    then RemainderKind.exact
    else if is_ceil rounding
    then RemainderKind.added
    else RemainderKind.discarded

abbrev remainder_amount : Rounding → ℕ → ℕ → ℕ
remainder_amount rounding remainder d =
    if remainder == 0 || not (is_ceil rounding) then remainder else d - remainder

unfoldable pub mul_div : ℕ → ℕ → ℕ → Rounding → Result ScaleResult
unfolding uint require_uint
mul_div multiplicand multiplier divisor rounding = do
  a ← uint multiplicand
  b ← uint multiplier
  d ← uint divisor
  throw_if (d == 0) accounting_invariant
  value ← require_uint (rounded rounding (a * b) d)
  ok (record {
    value_minor = value;
    kind = remainder_kind rounding (a * b % d);
    amount_source_minor = remainder_amount rounding (a * b % d) d;
    denominator = d;
  })

-- The branch that scales up, which is exact.
unfoldable pub scale_up : ℕ → ℕ → Result ScaleResult
unfolding require_uint
scale_up amount power = do
  value ← require_uint (amount * power)
  ok (record {
    value_minor = value;
    kind = RemainderKind.exact;
    amount_source_minor = 0;
    denominator = 1;
  })

unfoldable pub rescale_minor : ℕ → ℕ → ℕ → Rounding → Result ScaleResult
unfolding uint scale_up
rescale_minor amount_minor from_decimals to_decimals rounding = do
  throw_if (ltb 36 from_decimals || ltb 36 to_decimals) accounting_invariant
  amount ← uint amount_minor
  if leb from_decimals to_decimals
      then scale_up amount (10 ^ (to_decimals - from_decimals))
      else mul_div amount_minor 1 (10 ^ (from_decimals - to_decimals)) rounding
