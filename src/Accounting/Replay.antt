-- ===== src/Accounting/Replay.antt =====
-- Replaying receipts from an initial portfolio.
-- Code: packages/accounting/src/index.ts (`replay`).
pub mod Laws
use alpha_proof.Base.{Bool, List, [], ◌∷◌, push, if◌then◌else◌, Result, ok, ◌>>=◌}
use alpha_proof.Accounting.State.{Portfolio, Hash}
use alpha_proof.Accounting.Receipt.{Receipt}
use alpha_proof.Accounting.Check.{assert_portfolio}
use alpha_proof.Accounting.Apply.{Hasher, apply_receipt}

pub record ReplayResult : Type 0 where
  pub state : Portfolio
  pub state_hashes : List Hash

-- Writing a state as JSON and reading it back gives the same state, which is checked again.
unfoldable pub after_serialization : Bool → Portfolio → Result Portfolio
after_serialization serialize state = if serialize then assert_portfolio state else ok state

unfoldable pub replay_from : Hasher → Bool → List Receipt → ReplayResult → Result ReplayResult
replay_from hasher serialize [] result = ok result
replay_from hasher serialize (receipt ∷ receipts) result = do
  applied ← apply_receipt hasher result.state receipt
  state ← after_serialization serialize applied
  replay_from hasher serialize receipts (record {
    state = state;
    state_hashes = push result.state_hashes (hasher.portfolio_hash state);
  })

unfoldable pub replay : Hasher → Portfolio → List Receipt → Bool → Result ReplayResult
replay hasher initial receipts serialize = do
  state ← assert_portfolio initial
  replay_from hasher serialize receipts
      (record { state = state; state_hashes = hasher.portfolio_hash state ∷ [] })
