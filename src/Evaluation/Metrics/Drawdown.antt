-- ===== src/Evaluation/Metrics/Drawdown.antt =====
-- The drawdown of a mark: how far it stands below the greatest mark so far, in basis points.
-- Code: packages/evaluation/src/index.ts (`metrics`).
use alpha_proof.Base.{
  ℕ, suc, true, ==_iff, ◌+◌, ◌-◌, ◌*◌, ◌/◌, ◌≤◌, ◌<◌, ◌≡◌, some, List, [], ◌∷◌, includes, arith,
}
use native.Mathlib.Nat.{div-add-mod, mod-lt}
use alpha_proof.Evaluation.Metrics.{peak_of, drawdown_of, max_of}

-- The greatest of the marks: one of them, and none is above it.
pub record IsPeak (mark : ℕ) (prior : List ℕ) (peak : ℕ) : Type 0 where
  pub above : mark ≤ peak
  pub above_all : (m : ℕ) → includes m prior ≡ true → m ≤ peak
  pub among : includes peak (mark ∷ prior) ≡ true

peak_of-IsPeak : (mark : ℕ) (prior : List ℕ) → IsPeak mark prior (peak_of mark prior)
unfolding peak_of
peak_of-IsPeak mark [] = record {
  above = omega arith;
  above_all = λ m e. absurd (cc e);
  among = ground arith;
}
peak_of-IsPeak mark (x ∷ xs) =
    let r = peak_of-IsPeak (max_of mark x) xs in
    record {
      above = ground (arith, r.above);
      above_all = λ m e. ground (arith, r.above, r.above_all m, ==_iff m x);
      among = ground (arith, r.among);
    }

-- A mark's fall from the peak, in basis points, rounded down.
pub record IsDrawdown (mark : ℕ) (prior : List ℕ) (bps : ℕ) : Type 0 where
  pub peak : ℕ
  pub is_peak : IsPeak mark prior peak
  pub at_most : bps * peak + mark * 10000 ≤ peak * 10000
  pub at_least : peak * 10000 < suc bps * peak + mark * 10000
  pub bounded : bps ≤ 10000

floor_bounds : (n d : ℕ) → 0 < d → (n / d * d ≤ n) × (n < suc (n / d) * d)
floor_bounds n d positive = ground (arith, div-add-mod n d, mod-lt n positive)

share_bounded : (q d n : ℕ) → 0 < d → q * d ≤ n * d → q ≤ n
share_bounded q d n positive h = grind arith

-- A drawdown that is returned is the fall from the greatest of the mark and the marks before it,
-- as the part of that greatest mark in basis points, rounded down, and is at most all of it.
pub drawdown_of-IsDrawdown :
    (mark : ℕ) (prior : List ℕ) {bps : ℕ}
    → drawdown_of mark prior ≡ some bps
    → IsDrawdown mark prior bps
unfolding drawdown_of
drawdown_of-IsDrawdown mark prior {bps} e =
    let peak = peak_of mark prior in
    let p = peak_of-IsPeak mark prior in
    let n = (peak - mark) * 10000 in
    let positive : 0 < peak = ground arith in
    let same : bps ≡ n / peak = ground arith in
    let (low, high) = floor_bounds n peak positive in
    let low' : bps * peak ≤ n = rw same low in
    let high' : n < suc bps * peak = rw same high in
    record {
      peak = peak;
      is_peak = p;
      at_most = omega (arith, low', p.above);
      at_least = omega (arith, high', p.above);
      bounded = share_bounded bps peak 10000 positive (omega (arith, low', p.above));
    }
