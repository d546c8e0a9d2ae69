-- ===== src/Storage/Queue/Drained.antt =====
-- The queue of transfers under claims one after another.
-- Code: packages/storage/src/m5.ts (`claim`).
use alpha_proof.Base.{
  ℕ, map-update_first, find, filter, find-update_same, find-update_other, Bool-cases, subst, sym,
  ◌+◌, ◌≤◌, Bool, true, false, Option, none, some, List, [], ◌∷◌, map, distinct, any, if◌then◌else◌,
  length, total_by, total_by-update_first, arith, ◌≡◌, refl, ◌⊎◌, inl, inr, ap, ◌∙◌, ◌==◌,
}
use alpha_proof.Accounting.State.{Ident, Timestamp}
use alpha_proof.Storage.Queue.{
  Lease, TransferJob, ClaimedTransfer, claim_transfer, claim_transfers, claimed_transfer_of,
  with_transfer, leased_transfer, next_row, take_row, runnable,
}
use alpha_proof.Storage.Queue.Leases.{next_row-find, next_row-runnable, next_row-none}

abbrev lease_of : TransferJob → Lease
lease_of row = row.lease

abbrev pub transfer_ids : List TransferJob → List Ident
transfer_ids rows = map (λ row. row.lease.identity) rows

abbrev weight : Bool → ℕ
weight b = if b then 1 else 0

-- How many rows a claim could take.
abbrev pub waiting : Timestamp → List TransferJob → ℕ
waiting now rows = total_by (λ row. weight (runnable now row.lease)) rows

any-waiting :
    (now : Timestamp) (rows : List TransferJob)
    → any (λ row. runnable now row.lease) rows ≡ false
    → waiting now rows ≡ 0
any-waiting now [] h = refl
any-waiting now (row ∷ rows) h = ground (arith, any-waiting now rows)

leased-runnable :
    (worker : Ident) (now seconds : ℕ) (row : TransferJob)
    → runnable now (leased_transfer worker (now + seconds) row).lease ≡ false
unfolding runnable
leased-runnable worker now seconds row = ground arith

-- One claim, whatever its query returned.
claim-counts :
    (worker : Ident) (seconds now : ℕ) (rows : List TransferJob) (o : Option TransferJob)
    → distinct (transfer_ids rows) ≡ true
    → next_row lease_of now rows ≡ o
    → length (with_transfer (claimed_transfer_of o) [])
        + waiting now (take_row lease_of (leased_transfer worker) (now + seconds) rows o)
      ≡ waiting now rows
claim-counts worker seconds now rows none d e = omega arith
claim-counts worker seconds now rows (some row) d e =
    let counted =
      total_by-update_first (λ row. weight (runnable now row.lease))
        (λ other. other.lease.identity == row.lease.identity)
        (leased_transfer worker (now + seconds)) rows row (next_row-find lease_of now rows d e) in
    let before = next_row-runnable lease_of now rows e in
    ground (arith, counted, before, leased-runnable worker now seconds row)

claim_transfer-distinct :
    (worker : Ident) (seconds now : ℕ) (rows : List TransferJob) (o : Option TransferJob)
    → transfer_ids (take_row lease_of (leased_transfer worker) (now + seconds) rows o)
      ≡ transfer_ids rows
claim_transfer-distinct worker seconds now rows none = refl
claim_transfer-distinct worker seconds now rows (some row) =
    map-update_first (λ other. other.lease.identity) (leased_transfer worker (now + seconds))
      (λ x. refl) _ rows

length-with_transfer :
    (o : Option TransferJob) (claims : List ClaimedTransfer)
    → length (with_transfer (claimed_transfer_of o) claims)
      ≡ length (with_transfer (claimed_transfer_of o) []) + length claims
length-with_transfer none claims = omega arith
length-with_transfer (some row) claims = omega arith

-- A claim takes a row, unless there are none.
claim-advances :
    (now : Timestamp) (rows : List TransferJob) (o : Option TransferJob)
    → next_row lease_of now rows ≡ o
    → (length (with_transfer (claimed_transfer_of o) []) ≡ 1) ⊎ (waiting now rows ≡ 0)
claim-advances now rows none e = inr (any-waiting now rows (next_row-none lease_of now rows e))
claim-advances now rows (some row) e = inl refl

-- The claims that are due for a transfer, by its row.
abbrev pub due : Timestamp → Option TransferJob → List ClaimedTransfer
due now none = []
due now (some row) =
    if runnable now row.lease
    then record { transfer_id = row.lease.identity; attempt = row.attempt + 1 } ∷ []
    else []

abbrev pub job_of : Ident → List TransferJob → Option TransferJob
job_of id rows = find (λ row. row.lease.identity == id) rows

abbrev pub claims_of : Ident → List ClaimedTransfer → List ClaimedTransfer
claims_of id claims = filter (λ claim. claim.transfer_id == id) claims

idle-due :
    (now : Timestamp) (id : Ident) (rows : List TransferJob)
    → waiting now rows ≡ 0
    → due now (job_of id rows) ≡ []
idle-due now id [] h = refl
idle-due now id (row ∷ rows) h = ground (arith, idle-due now id rows)

due-runnable :
    (now : Timestamp) (row : TransferJob)
    → runnable now row.lease ≡ true
    → due now (some row)
      ≡ record { transfer_id = row.lease.identity; attempt = row.attempt + 1 } ∷ []
due-runnable now row h = rw h refl

due-held :
    (now : Timestamp) (row : TransferJob) → runnable now row.lease ≡ false → due now (some row) ≡ []
due-held now row h = rw h refl

-- One claim, and what is due after it.
claim-due :
    (worker id : Ident) (seconds now : ℕ) (rows : List TransferJob) (o : Option TransferJob)
    (claims : List ClaimedTransfer)
    → distinct (transfer_ids rows) ≡ true
    → next_row lease_of now rows ≡ o
    → claims_of id claims
      ≡ due now (job_of id (take_row lease_of (leased_transfer worker) (now + seconds) rows o))
    → claims_of id (with_transfer (claimed_transfer_of o) claims) ≡ due now (job_of id rows)
claim-due worker id seconds now rows none claims d e h = h
claim-due worker id seconds now rows (some row) claims d e h =
    let found = next_row-find lease_of now rows d e in
    let before = next_row-runnable lease_of now rows e in
    let g = leased_transfer worker (now + seconds) in
    let key : TransferJob → Ident = λ other. other.lease.identity in
    elim (Bool-cases (row.lease.identity == id)) [
      | inl same ↦
          let i : row.lease.identity ≡ id = ground (arith, same) in
          let here = subst (λ k. job_of k rows ≡ some row) i found in
          let taken = find-update_same key g (λ x. refl) row.lease.identity rows row found in
          let held = due-held now (g row) (leased-runnable worker now seconds row) in
          let nothing =
            h
            ∙ subst
                (λ k.
                  due now (
                    job_of k
                      (take_row lease_of (leased_transfer worker) (now + seconds) rows (some row)))
                  ≡ [])
                i (ap (due now) taken ∙ held) in
          rw same (
            ap (λ x. record { transfer_id = row.lease.identity; attempt = row.attempt + 1 } ∷ x)
              nothing
            ∙ sym (ap (due now) here ∙ due-runnable now row before))
      | inr differ ↦
          let other =
            find-update_other key g (λ x. refl) id row.lease.identity rows
              (ground (arith, differ)) in
          rw differ (h ∙ ap (due now) other)
    ]

-- Workers that claim transfers at one moment, as many as there are transfers that can be claimed,
-- where no two rows have the same identity: the claims of each transfer are one, with its next
-- attempt, if it could be claimed, and none otherwise; there are as many claims as such transfers,
-- and none is left.
pub claim_transfers-drain :
    (workers : List Ident) (seconds now : ℕ) (rows : List TransferJob) (id : Ident)
    → distinct (transfer_ids rows) ≡ true
    → waiting now rows ≤ length workers
    → (claims_of id (claim_transfers workers seconds now rows).0 ≡ due now (job_of id rows))
      × (length (claim_transfers workers seconds now rows).0 ≡ waiting now rows)
      × (waiting now (claim_transfers workers seconds now rows).1 ≡ 0)
unfolding claim_transfers claim_transfer
claim_transfers-drain [] seconds now rows id d h =
    let idle : waiting now rows ≡ 0 = omega (arith, h) in
    (sym (idle-due now id rows idle), sym idle, idle)
claim_transfers-drain (worker ∷ workers) seconds now rows id d h =
    let o = next_row lease_of now rows in
    let after = take_row lease_of (leased_transfer worker) (now + seconds) rows o in
    let counted = claim-counts worker seconds now rows o d refl in
    let distinct_after = ap distinct (claim_transfer-distinct worker seconds now rows o) ∙ d in
    let rest =
      claim_transfers-drain workers seconds now after id distinct_after
        (ground (arith, counted, claim-advances now rows o refl)) in
    let sizes = length-with_transfer o (claim_transfers workers seconds now after).0 in
    (
      claim-due worker id seconds now rows o _ d refl rest.0,
      omega (arith, counted, rest.1, sizes),
      rest.2,
    )
