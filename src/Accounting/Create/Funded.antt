-- ===== src/Accounting/Create/Funded.antt =====
-- A new portfolio against the cash that it was given.
-- Code: packages/accounting/src/index.ts (`createPortfolio`).
use alpha_proof.Base.{
  ℕ, ◌+◌, ◌≡◌, refl, Bool, true, false, ◌||◌, some, List, [], ◌∷◌, ◌==◌, ◌!=◌, find, all, includes,
  push, update_first, total_by, total_by-push, total_by-update_first, total_by-sort_by, ok, arith,
  >>=-elim, >>-elim, throw_if, throw_if-ok, or_throw, or_throw-eq-ok, accounting_invariant,
}
use alpha_proof.Accounting.State.{Ident, Portfolio, BalanceView, CashBalance}
use alpha_proof.Accounting.Amounts.{uint, require_uint}
use alpha_proof.Accounting.Books.{cash_total, view_is, family_is, gross_assets}
use alpha_proof.Accounting.Check.Sound.{IsValid, assert_portfolio-IsValid}
use alpha_proof.Accounting.Apply.{sort_state}
use alpha_proof.Accounting.Create.{
  InitialCash, empty_cash, CreatePortfolioInput, open_family, open_families, set_amount, fund,
  new_state, create_portfolio,
}

-- A family that is not funded has no cash.
abbrev untouched : List Ident → List CashBalance → Bool
untouched funded cash =
    all (λ c. includes c.balance_family_id funded || c.amount_usdc_minor == 0) cash

untouched-push :
    (f : List Ident) (cash : List CashBalance) (c : CashBalance)
    → untouched f cash ≡ true
    → (c.amount_usdc_minor == 0) ≡ true
    → untouched f (push cash c) ≡ true
untouched-push f [] c h k = ground arith
untouched-push f (x ∷ xs) c h k = ground (arith, untouched-push f xs c)

open_family-empty :
    (f : List Ident) (cash : List CashBalance) (v : BalanceView)
    → untouched f cash ≡ true
    → cash_total cash ≡ 0
    → (untouched f (open_family cash v) ≡ true) × (cash_total (open_family cash v) ≡ 0)
open_family-empty f cash v h k = ground (
  arith,
  untouched-push f cash (empty_cash v) h refl,
  total_by-push (λ b. b.amount_usdc_minor) cash (empty_cash v),
)

open_families-empty :
    (f : List Ident) (cash : List CashBalance) (views : List BalanceView)
    → untouched f cash ≡ true
    → cash_total cash ≡ 0
    → (untouched f (open_families cash views) ≡ true) × (cash_total (open_families cash views) ≡ 0)
unfolding open_families
open_families-empty f cash [] h k = ground arith
open_families-empty f cash (v ∷ vs) h k =
    let step = open_family-empty f cash v h k in
    open_families-empty f (open_family cash v) vs step.0 step.1

untouched-find :
    (f : List Ident) (cash : List CashBalance) (k : Ident) (c : CashBalance)
    → untouched f cash ≡ true
    → includes k f ≡ false
    → find (family_is k) cash ≡ some c
    → c.amount_usdc_minor ≡ 0
untouched-find f [] k c h u e = ground arith
untouched-find f (x ∷ xs) k c h u e = ground (arith, untouched-find f xs k c)

untouched-more :
    (f : List Ident) (cash : List CashBalance) (k : Ident)
    → untouched f cash ≡ true
    → untouched (k ∷ f) cash ≡ true
untouched-more f [] k h = refl
untouched-more f (x ∷ xs) k h = ground (arith, untouched-more f xs k)

untouched-fund :
    (f : List Ident) (cash : List CashBalance) (k : Ident) (amount : ℕ)
    → untouched f cash ≡ true
    → untouched (k ∷ f) (update_first (family_is k) (set_amount amount) cash) ≡ true
untouched-fund f [] k amount h = refl
untouched-fund f (x ∷ xs) k amount h =
    ground (arith, untouched-fund f xs k amount, untouched-more f xs k)

!=-false : (a b : ℕ) → (a != b) ≡ false → a ≡ b
!=-false a b h = ground arith

uint-same : (n : ℕ) {a : ℕ} → uint n ≡ ok a → a ≡ n
unfolding uint
uint-same n h = ground arith

require_uint-same : (n : ℕ) {a : ℕ} → require_uint n ≡ ok a → a ≡ n
unfolding require_uint
require_uint-same n h = ground arith

abbrev pub given_total : List InitialCash → ℕ
given_total = total_by (λ item. item.amount_usdc_minor)

-- Each item of cash is added to a balance that was empty.
fund-total :
    (views : List BalanceView) (f : List Ident) (cash : List CashBalance) (items : List InitialCash)
    {t : List CashBalance}
    → untouched f cash ≡ true
    → fund views f cash items ≡ ok t
    → cash_total t ≡ cash_total cash + given_total items
unfolding fund
fund-total views f cash [] u h = ground arith
fund-total views f cash (item ∷ items) u h =
    >>=-elim (or_throw (find (view_is item.view_id) views) accounting_invariant) _ h λ view _ h₁.
      let k = view.balance_family_id in
      >>-elim (throw_if (includes k f) accounting_invariant) _ h₁ λ fresh h₂.
        >>=-elim (or_throw (find (family_is k) cash) accounting_invariant) _ h₂ λ c found h₃.
          >>=-elim (uint item.amount_usdc_minor) _ h₃ λ value exact h₄.
            >>=-elim (require_uint value) _ h₄ λ amount exact' h₅.
              let at = or_throw-eq-ok _ _ found in
              let empty = untouched-find f cash k c u (throw_if-ok _ _ fresh) at in
              let moved =
                total_by-update_first (λ b. b.amount_usdc_minor) (family_is k) (set_amount amount)
                  cash c at in
              let rest =
                fund-total views (k ∷ f) (update_first (family_is k) (set_amount amount) cash) items
                  (untouched-fund f cash k amount u) h₅ in
              omega (arith, rest, moved, empty, uint-same _ exact, require_uint-same _ exact')

-- What is said of a new portfolio.
pub record IsCreated (input : CreatePortfolioInput) (s : Portfolio) : Type 0 where
  pub valid : IsValid s
  pub version : s.version ≡ 0
  pub initial : s.initial_value_usdc_minor ≡ input.initial_value_usdc_minor
  pub assets : gross_assets s ≡ input.initial_value_usdc_minor
  pub given : given_total input.initial_cash ≡ input.initial_value_usdc_minor

-- A portfolio that is created passes every check of the accounting, has version zero, and the
-- initial value is both the sum of its assets and the sum of the cash that was given, each item
-- of it counted once.
pub create_portfolio-IsCreated :
    (input : CreatePortfolioInput) {s : Portfolio}
    → create_portfolio input ≡ ok s
    → IsCreated input s
unfolding create_portfolio sort_state
create_portfolio-IsCreated input h =
    let views = input.balance_views in
    >>=-elim (fund views [] (open_families [] views) input.initial_cash) _ h λ cash funded h₁.
      let state = sort_state (new_state input cash) in
      >>=-elim (uint input.initial_value_usdc_minor) _ h₁ λ initial exact h₂.
        >>-elim (throw_if (cash_total state.cash != initial) accounting_invariant) _ h₂ λ whole h₃.
          let (same, valid) = assert_portfolio-IsValid state h₃ in
          let empty = open_families-empty [] [] views refl refl in
          let total =
            fund-total views [] (open_families [] views) input.initial_cash empty.0 funded in
          let sorted =
            total_by-sort_by (λ b. b.amount_usdc_minor) (λ b. b.balance_family_id) cash in
          let equal = !=-false _ _ (throw_if-ok _ _ whole) in
          rw same (record {
            valid = valid;
            version = refl;
            initial = refl;
            assets = omega (arith, equal, uint-same _ exact);
            given = omega (arith, total, empty.1, sorted, equal, uint-same _ exact);
          })
