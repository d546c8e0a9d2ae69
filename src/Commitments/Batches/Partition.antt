-- ===== src/Commitments/Batches/Partition.antt =====
-- The sequence numbers that a chain of batches covers.
-- Code: packages/commitments/src/index.ts (`assertBatchContinuity`).
use alpha_proof.Base.{
  ℕ, ◌+◌, ◌≤◌, ◌≡◌, Bool, ◌&&◌, Option, none, some, List, [], ◌∷◌, leb, ltb, if◌then◌else◌, length,
  filter, ok, arith, >>-elim, for_each,
}
use alpha_proof.Accounting.State.{Ident, Hash}
use alpha_proof.Commitments.Hashing.{Hashing}
use alpha_proof.Commitments.Batches.{
  CommitmentBatch, BatchEncoding, batch_in_range, check_batch, commitment_batch_hash, batch_loop,
  assert_batch_continuity,
}

-- Whether a sequence number is in the range of a batch.
abbrev pub covers : ℕ → CommitmentBatch → Bool
covers n batch = leb batch.first_sequence n && leb n batch.last_sequence

abbrev pub batches_with : ℕ → List CommitmentBatch → ℕ
batches_with n batches = length (filter (covers n) batches)

check_batch-ordered :
    (b : CommitmentBatch) → check_batch b ≡ ok tt → b.first_sequence ≤ b.last_sequence
unfolding batch_in_range
check_batch-ordered b h = ground arith

module _ (H : Hashing) (B : BatchEncoding) where
  pub batch_loop-cons :
      (e : Option Ident) (last : ℕ) (p : Option Hash) (b : CommitmentBatch)
      (bs : List CommitmentBatch) {l : ℕ}
      → batch_loop H B e last p (b ∷ bs) ≡ ok l
      → (b.first_sequence ≡ last + 1)
        × (batch_loop H B
              (some b.experiment_id)
              b.last_sequence
              (some (commitment_batch_hash H B b))
              bs
            ≡ ok l)
  unfolding batch_loop
  batch_loop-cons e last p b bs h = ground arith

  batch_loop-batches_with :
      (e : Option Ident) (last : ℕ) (p : Option Hash) (bs : List CommitmentBatch) (n : ℕ) {l : ℕ}
      → for_each check_batch bs ≡ ok tt
      → batch_loop H B e last p bs ≡ ok l
      → (last ≤ l) × (batches_with n bs ≡ (if ltb last n && leb n l then 1 else 0))
  unfolding batch_loop
  batch_loop-batches_with e last p [] n parsed h = ground arith
  batch_loop-batches_with e last p (b ∷ bs) n parsed h =
      >>-elim (check_batch b) _ parsed λ first others.
        let (start, rest) = batch_loop-cons e last p b bs h in
        let ordered = check_batch-ordered b first in
        let (up, ih) =
          batch_loop-batches_with (some b.experiment_id) b.last_sequence
            (some (commitment_batch_hash H B b)) bs n others rest in
        ground (arith, start, ordered, up, ih)

  -- In a chain of batches every sequence number from one to the last one is in the range of
  -- exactly one batch, and no other number is in the range of any.
  pub assert_batch_continuity-batches_with :
      (bs : List CommitmentBatch) (n : ℕ) {l : ℕ}
      → assert_batch_continuity H B bs ≡ ok l
      → batches_with n bs ≡ (if ltb 0 n && leb n l then 1 else 0)
  unfolding assert_batch_continuity
  assert_batch_continuity-batches_with bs n h =
      >>-elim (for_each check_batch bs) _ h
        λ parsed loop. (batch_loop-batches_with none 0 none bs n parsed loop).1
