-- ===== src/Transfers/Replay.antt =====
-- What a replay of events has counted: sequence numbers, hashes and settlements.
-- Code: packages/transfers/src/index.ts (`replayTransfer`).
use alpha_proof.Base.{
  ℕ, suc, ◌+◌, ◌≤◌, ◌≡◌, refl, sym, some, List, [], ◌∷◌, length, push, length-append, ok, >>=-elim,
  arith, subst,
}
use alpha_proof.Accounting.State.{Hash}
use alpha_proof.Transfers.State.{Transfer, TransferEvent, EventKind, LifecycleState, parse_transfer}
use alpha_proof.Transfers.Lifecycle.{
  check_event, apply_transfer_event, replay_events, replay_transfer,
}
use alpha_proof.Transfers.Table.{
  transition, parse_transfer-same, Applied, apply_transfer_event-Applied,
  apply_transfer_event-transition,
}
use alpha_proof.Transfers.Invariant.{IsSound, apply_transfer_event-IsSound}

-- One for a settled state, nothing for any other.
abbrev pub settled_count : LifecycleState → ℕ
settled_count LifecycleState.settled = 1
settled_count _ = 0

abbrev confirmation : EventKind → ℕ
confirmation EventKind.destination_confirmed = 1
confirmation _ = 0

abbrev pub confirmations : List TransferEvent → ℕ
confirmations [] = 0
confirmations (e ∷ es) = confirmation e.kind + confirmations es

transition-settled :
    (s : LifecycleState) (k : EventKind) {s' : LifecycleState}
    → transition s k ≡ some s'
    → confirmation k + settled_count s ≡ settled_count s'
unfolding transition
transition-settled LifecycleState.reserved k h = ground arith
transition-settled s k h = ground arith

-- What a run over events from `c` to `t` has counted.
pub record Counted (c : Transfer) (es : List TransferEvent) (t : Transfer) : Type 0 where
  pub sequence : t.next_sequence ≡ c.next_sequence + length es
  pub settled : confirmations es + settled_count c.state ≡ settled_count t.state
  pub time : c.updated_at ≤ t.updated_at

pub check_event-forward :
    (c : Transfer) (e : TransferEvent) → check_event c e ≡ ok tt → c.updated_at ≤ e.occurred_at
unfolding check_event
check_event-forward c e h = ground arith

Applied-forward :
    (hash : Transfer → Hash) (c : Transfer) (e : TransferEvent) {t : Transfer}
    → Applied hash c e t
    → (t.next_sequence ≡ c.next_sequence + 1) × (c.updated_at ≤ t.updated_at)
Applied-forward hash c e a = rw a.result (refl, check_event-forward c e a.checked)

replay_events-Counted :
    (hash : Transfer → Hash) (c : Transfer) (hs : List Hash) (es : List TransferEvent)
    {t : Transfer} {gs : List Hash}
    → IsSound c
    → replay_events hash c hs es ≡ ok (t, gs)
    → Counted c es t × IsSound t × (length gs ≡ length hs + length es)
unfolding replay_events
replay_events-Counted hash c hs [] v h = ground arith
replay_events-Counted hash c hs (e ∷ es) v h =
    >>=-elim (apply_transfer_event hash c e) _ h λ a applied h₁.
      >>=-elim (parse_transfer a) _ h₁ λ n parsed h₂.
        let same = parse_transfer-same a parsed in
        let sound = subst IsSound (sym same) (apply_transfer_event-IsSound hash c e v applied) in
        let forward = Applied-forward hash c e (apply_transfer_event-Applied hash c e applied) in
        let step =
          transition-settled c.state e.kind (apply_transfer_event-transition hash c e applied) in
        let rest = replay_events-Counted hash n (push hs (hash n)) es sound h₂ in
        ground (arith, forward, step, rest, length-append hs (hash n ∷ []))

-- A replay from a sound transfer leads to a sound transfer, whose next sequence number is up by
-- the number of events and whose time is not before the initial one; it has a hash for each
-- state, and as many destination confirmations as the state reached has settlements more than the
-- initial one, so one at most.
pub replay_transfer-Counted :
    (hash : Transfer → Hash) (c : Transfer) (es : List TransferEvent) {t : Transfer}
    {gs : List Hash}
    → IsSound c
    → replay_transfer hash c es ≡ ok (t, gs)
    → Counted c es t × IsSound t × (length gs ≡ suc (length es))
unfolding replay_transfer
replay_transfer-Counted hash c es v h = >>=-elim (parse_transfer c) _ h λ n parsed h₁.
    let same = parse_transfer-same c parsed in
    let r = replay_events-Counted hash n (hash n ∷ []) es (subst IsSound (sym same) v) h₁ in
    ground (arith, r)
