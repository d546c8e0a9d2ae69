-- ===== src/Commitments/Merkle/Laws.antt =====
-- The loops over the levels of a tree, and a proof that is created.
-- Code: packages/commitments/src/index.ts (`merkleRoot`, `createProof`, `verifyProof`).
use native.Mathlib.Nat.{pow-suc}
use alpha_proof.Base.{
  ℕ, zero, suc, ◌+◌, ◌*◌, ◌/◌, ◌^◌, ◌≤◌, ◌<◌, ◌≡◌, refl, sym, ap, ◌∙◌, ◌⊎◌, inl, inr, false, some,
  List, [], ◌∷◌, ◌==◌, ◌!=◌, length, get_elem?, ok, lt→leb-false, eq_of_some, arith,
}
use alpha_proof.Accounting.State.{Ident, Hash}
use alpha_proof.Commitments.Hashing.{Hashing, node_hash}
use alpha_proof.Commitments.Merkle.{
  Sibling, MerkleProof, safe_limit, parse_proof, next_level, root_loop, merkle_root, sibling_index,
  sibling_side, sibling_of, climb, create_proof, combine, fold_siblings, verify_proof,
}

pub next_level-length :
    (H : Hashing) (level : List Hash) → length (next_level H level) ≡ (length level + 1) / 2
unfolding next_level
next_level-length H [] = refl
next_level-length H (a ∷ []) = refl
next_level-length H (a ∷ b ∷ rest) = omega (arith, next_level-length H rest)

sibling_index-suc : (index : ℕ) → sibling_index (suc (suc index)) ≡ suc (suc (sibling_index index))
sibling_index-suc index = ground arith

sibling_side-suc : (index : ℕ) → sibling_side (suc (suc index)) ≡ sibling_side index
sibling_side-suc index = ground arith

sibling_of-suc :
    (a b : Hash) (level : List Hash) (index : ℕ)
    → sibling_of (a ∷ b ∷ level) (suc (suc index)) ≡ sibling_of level index
unfolding sibling_of
sibling_of-suc a b level index = rw (sibling_side-suc index, sibling_index-suc index) refl

half-suc : (n : ℕ) → suc (suc n) / 2 ≡ suc (n / 2)
half-suc n = omega arith

-- One round: the sibling is there, and the pair's hash stands at half the index.
pub next_level-sibling :
    (H : Hashing) (level : List Hash) (index : ℕ) (v : Hash)
    → get_elem? level index ≡ some v
    → (s : Sibling) × (sibling_of level index ≡ ok s)
      × (get_elem? (next_level H level) (index / 2) ≡ some (combine H s.side s.hash v))
unfolding sibling_of next_level
next_level-sibling H [] index v h = ground arith
next_level-sibling H (a ∷ []) zero v h = (_, refl, ap (λ x. some (node_hash H x a)) (eq_of_some h))
next_level-sibling H (a ∷ []) (suc index) v h = ground arith
next_level-sibling H (a ∷ b ∷ rest) zero v h =
    (_, refl, ap (λ x. some (node_hash H x b)) (eq_of_some h))
next_level-sibling H (a ∷ b ∷ rest) (suc zero) v h =
    (_, refl, ap (λ x. some (node_hash H a x)) (eq_of_some h))
next_level-sibling H (a ∷ b ∷ rest) (suc (suc index)) v h =
    let (s, found, above) = next_level-sibling H rest index v h in
    (s, sibling_of-suc a b rest index ∙ found, rw (half-suc index) above)

high_step : (n m k : ℕ) → m ≡ (n + 1) / 2 → m ≤ 2 ^ k → n ≤ 2 ^ suc k
high_step n m k half h = omega (arith, pow-suc 2 k)

low_step :
    (n m k : ℕ)
    → m ≡ (n + 1) / 2
    → 1 < n
    → ((k ≡ 0) × (m ≡ 1)) ⊎ (2 ^ k + 2 ≤ 2 * m)
    → 2 ^ suc k + 2 ≤ 2 * n
low_step n m k half more (inl (flat, one)) = rw flat (omega arith)
low_step n m k half more (inr h) = omega (arith, pow-suc 2 k)

-- The proof's loop and the root's loop reach the same hash, to which the siblings fold the leaf.
record Climbed (H : Hashing) (fuel : ℕ) (level : List Hash) (index : ℕ) (v : Hash) : Type 0 where
  siblings : List Sibling
  root : Hash
  climbs : climb H fuel level index ≡ ok (siblings, root)
  roots : root_loop H fuel level ≡ ok root
  folds : fold_siblings H siblings v ≡ root
  high : length level ≤ 2 ^ length siblings
  low : ((length siblings ≡ 0) × (length level ≡ 1)) ⊎ (2 ^ length siblings + 2 ≤ 2 * length level)

climb-Climbed :
    (H : Hashing) (fuel : ℕ) (level : List Hash) (index : ℕ) (v : Hash)
    → get_elem? level index ≡ some v
    → length level ≤ suc fuel
    → Climbed H fuel level index v
unfolding climb root_loop
climb-Climbed H fuel [] index v h enough = absurd (ground arith)
climb-Climbed H fuel (a ∷ []) zero v h enough = record {
  siblings = [];
  root = a;
  climbs = refl;
  roots = refl;
  folds = sym (eq_of_some h);
  high = omega arith;
  low = inl (refl, refl);
}
climb-Climbed H fuel (a ∷ []) (suc index) v h enough = absurd (ground arith)
climb-Climbed H zero (a ∷ b ∷ rest) index v h enough = absurd (omega arith)
climb-Climbed H (suc fuel) (a ∷ b ∷ rest) index v h enough =
    let (s, found, above) = next_level-sibling H (a ∷ b ∷ rest) index v h in
    let shorter = next_level-length H (a ∷ b ∷ rest) in
    let up =
      climb-Climbed H fuel (next_level H (a ∷ b ∷ rest)) (index / 2) (combine H s.side s.hash v)
        above (omega arith) in
    record {
      siblings = s ∷ up.siblings;
      root = up.root;
      climbs = rw (found, up.climbs) refl;
      roots = up.roots;
      folds = up.folds;
      high = high_step _ _ _ shorter up.high;
      low = inr (low_step (length (a ∷ b ∷ rest)) _ _ shorter (omega arith) up.low);
    }

get_elem?-within : (xs : List Hash) (i : ℕ) → i < length xs → (v : Hash) × (get_elem? xs i ≡ some v)
get_elem?-within [] i h = absurd (omega arith)
get_elem?-within (x ∷ xs) zero h = (x, refl)
get_elem?-within (x ∷ xs) (suc i) h = get_elem?-within xs i (omega arith)

-- What is said of a proof for a leaf of a tree.
pub record Proves (H : Hashing) (hashes : List Hash) (index : ℕ) (p : MerkleProof) : Type 0 where
  pub leaf : get_elem? hashes index ≡ some p.leaf_hash
  pub position : (p.leaf_index ≡ index) × (p.leaf_count ≡ length hashes)
  pub root : merkle_root H hashes ≡ ok p.root
  pub verified : verify_proof H p ≡ ok tt
  pub high : length hashes ≤ 2 ^ length p.siblings
  pub low : 2 ^ length p.siblings < 2 * length hashes

low-lt : (n k : ℕ) → ((k ≡ 0) × (n ≡ 1)) ⊎ (2 ^ k + 2 ≤ 2 * n) → 2 ^ k < 2 * n
low-lt n k (inl (flat, one)) = rw (flat, one) (omega arith)
low-lt n k (inr h) = omega arith

length-pos :
    (xs : List Hash) (i : ℕ) (v : Hash) → get_elem? xs i ≡ some v → (length xs == 0) ≡ false
length-pos [] i v h = ground arith
length-pos (x ∷ xs) i v h = ground arith

pub parse_proof-eq :
    (p : MerkleProof)
    → p.leaf_index < safe_limit
    → 0 < p.leaf_count
    → p.leaf_count < safe_limit
    → parse_proof p ≡ ok p
unfolding parse_proof
parse_proof-eq p h₁ h₂ h₃ = ground arith

!=-same : (a b : ℕ) → a ≡ b → (a != b) ≡ false
!=-same a b h = ground arith

pub verify_proof-eq :
    (H : Hashing) (p : MerkleProof)
    → parse_proof p ≡ ok p
    → fold_siblings H p.siblings p.leaf_hash ≡ p.root
    → verify_proof H p ≡ ok tt
unfolding verify_proof
verify_proof-eq H p parsed folds = rw (parsed, !=-same _ _ folds) refl

-- In a tree of fewer than 2 ^ 53 leaves a proof is created for each place; it names the leaf and
-- its place, carries the tree's root, is accepted by the verification, and has as many siblings
-- as the tree is high: the logarithm of its length, rounded up.
pub create_proof-Proves :
    (H : Hashing) (batch_id : Ident) (hashes : List Hash) (index : ℕ)
    → index < length hashes
    → length hashes < safe_limit
    → (p : MerkleProof) × (create_proof H batch_id hashes index ≡ ok p) × Proves H hashes index p
unfolding create_proof merkle_root
create_proof-Proves H batch_id hashes index h safe =
    let (v, at) = get_elem?-within hashes index h in
    let c = climb-Climbed H (length hashes) hashes index v at (omega arith) in
    let inside = lt→leb-false index (length hashes) h in
    let p : MerkleProof = record {
      batch_id = batch_id;
      leaf_hash = v;
      leaf_index = index;
      leaf_count = length hashes;
      siblings = c.siblings;
      root = c.root;
    } in
    let parsed = parse_proof-eq p (omega arith) (omega arith) safe in
    (
      p,
      rw (inside, c.climbs, at) parsed,
      record {
        leaf = at;
        position = (refl, refl);
        root = rw (length-pos hashes index v at) c.roots;
        verified = verify_proof-eq H p parsed c.folds;
        high = c.high;
        low = low-lt _ _ c.low;
      },
    )
