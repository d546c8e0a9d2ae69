-- ===== src/Base/Errors.antt =====
-- Fallible code: `throw new PoaError(code, message)` is `err code`; the message is dropped.
-- A refusal by a schema (a ZodError) is `err schema_rejected`.
-- Code: packages/domain/src/index.ts.
use mathlib.Core.Bool.{Bool, true, false}
use mathlib.Core.Path.{◌≡◌, refl}
use mathlib.Core.Logic.{◌⊎◌, inl, inr}
use mathlib.Core.Option.{Option, none, some}
use mathlib.Core.List.{List, [], ◌∷◌}
use native.Mathlib.Omega.{arith}

-- The codes that the modelled code throws.
pub data ErrorCode : Type 0 where
  schema_rejected accounting_invariant invalid_transition insufficient_available_balance : ErrorCode
  operation_conflict stale_portfolio closed_portfolio payable_not_found : ErrorCode
  data_unavailable environment_mismatch invalid_schema policy_violation : ErrorCode
  unsupported_instrument commitment_invalid batch_continuity provenance_splice : ErrorCode
  publication_reorged archive_integrity data_stale replay_mismatch : ErrorCode
  limit_exceeded liquidity_unavailable slippage_exceeded : ErrorCode
  version_drift export_incomplete invalid_canonical_value : ErrorCode
  -- The database refused: a key that is taken, a reference to nothing, a trigger.
  constraint_violated : ErrorCode
  -- A loop of the model ran out of rounds; theorems show that it does not.
  out_of_fuel : ErrorCode

pub data Result {ℓ} (A : Type ℓ) : Type ℓ where
  ok : A → Result A
  err : ErrorCode → Result A

infixl 5 ◌>>=◌ ◌>>◌
-- The code after a call, which a thrown error skips.
abbrev pub ◌>>=◌ {ℓ ℓ'} :
    {Value : Type ℓ} {Out : Type ℓ'} → Result Value → (Value → Result Out) → Result Out
err code >>= after = err code
ok value >>= after = after value

abbrev pub ◌>>◌ {ℓ} : {Out : Type ℓ} → Result (Unit {0}) → Result Out → Result Out
checked >> after = checked >>= λ _. after

-- `if (test) throw …`
abbrev pub throw_if : Bool → ErrorCode → Result (Unit {0})
throw_if true e = err e
throw_if false e = ok tt

-- `if (!value) throw …`, and the value from there on
abbrev pub or_throw {ℓ} : {A : Type ℓ} → Option A → ErrorCode → Result A
or_throw none e = err e
or_throw (some a) e = ok a

abbrev pub is_ok {ℓ} : {A : Type ℓ} → Result A → Bool
is_ok (ok _) = true
is_ok (err _) = false

-- A `for` loop whose body may throw.
abbrev pub for_each {ℓ} : {A : Type ℓ} → (A → Result (Unit {0})) → List A → Result (Unit {0})
for_each f [] = ok tt
for_each f (x ∷ xs) = f x >> for_each f xs

-- What a successful run of a call and the code after it says of both, as a continuation.
pub >>=-elim {ℓ κ μ} :
    {Value : Type ℓ} {Out : Type κ} {Goal : Type μ} (call : Result Value)
    (after : Value → Result Out) {out : Out}
    → (call >>= after) ≡ ok out
    → ((value : Value) → call ≡ ok value → after value ≡ ok out → Goal)
    → Goal
>>=-elim (err code) after ran use' = absurd (cc ran)
>>=-elim (ok value) after ran use' = use' value refl ran

pub >>-elim {ℓ μ} :
    {Out : Type ℓ} {Goal : Type μ} (check : Result (Unit {0})) (after : Result Out) {out : Out}
    → (check >> after) ≡ ok out
    → (check ≡ ok tt → after ≡ ok out → Goal)
    → Goal
>>-elim (err code) after ran use' = absurd (cc ran)
>>-elim (ok tt) after ran use' = use' refl ran

-- The same as pairs.
pub >>=-eq-ok {ℓ κ} :
    {Value : Type ℓ} {Out : Type κ} (call : Result Value) (after : Value → Result Out) {out : Out}
    → (call >>= after) ≡ ok out
    → (value : Value) × (call ≡ ok value) × (after value ≡ ok out)
>>=-eq-ok call after ran = >>=-elim call after ran λ value called rest. (value, called, rest)

pub >>-eq-ok {ℓ} :
    {Out : Type ℓ} (check : Result (Unit {0})) (after : Result Out) {out : Out}
    → (check >> after) ≡ ok out
    → (check ≡ ok tt) × (after ≡ ok out)
>>-eq-ok check after ran = >>-elim check after ran λ checked rest. (checked, rest)

pub or_throw-eq-ok {ℓ} :
    {A : Type ℓ} (o : Option A) (e : ErrorCode) {a : A} → or_throw o e ≡ ok a → o ≡ some a
or_throw-eq-ok none e h = cc
or_throw-eq-ok (some x) e h = ground (arith)

pub throw_if-ok : (b : Bool) (e : ErrorCode) → throw_if b e ≡ ok tt → b ≡ false
throw_if-ok true e h = cc
throw_if-ok false e h = refl

pub Result-cases {ℓ} :
    {A : Type ℓ} (m : Result A) → ((a : A) × (m ≡ ok a)) ⊎ ((e : ErrorCode) × (m ≡ err e))
Result-cases (ok a) = inl (a, refl)
Result-cases (err e) = inr (e, refl)

pub ok-injective {ℓ} : {A : Type ℓ} {a b : A} → ok a ≡ ok b → a ≡ b
ok-injective h = cc
