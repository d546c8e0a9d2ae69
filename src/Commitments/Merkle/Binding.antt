-- ===== src/Commitments/Merkle/Binding.antt =====
-- Two proofs for one place of one tree.
-- Code: packages/commitments/src/index.ts (`verifyProof`).
use alpha_proof.Base.{
  ℕ, ◌<◌, ◌≡◌, ◌≢◌, sym, ap, ◌∙◌, ◌⊎◌, inl, inr, false, some, List, [], ◌∷◌, Bool-cases, ◌==◌,
  length, get_elem?, map, ok, arith, subst, ok-injective,
}
use alpha_proof.Accounting.State.{Ident, Hash}
use alpha_proof.Commitments.Hashing.{Hashing, node_hash}
use alpha_proof.Commitments.Merkle.{
  Side, Sibling, MerkleProof, safe_limit, parse_proof, merkle_root, create_proof, combine,
  fold_siblings, verify_proof,
}
use alpha_proof.Commitments.Merkle.Laws.{Proves, create_proof-Proves}

-- Two different pairs with one hash.
pub record Collision (H : Hashing) : Type 0 where
  pub first : Hash × Hash
  pub second : Hash × Hash
  pub different : first ≢ second
  pub same : node_hash H first.0 first.1 ≡ node_hash H second.0 second.1

abbrev pub sides : List Sibling → List Side
sides siblings = map (λ s. s.side) siblings

differs : (a b : ℕ) → (a == b) ≡ false → a ≢ b
differs a b h e = absurd (ground arith)

node-cases :
    (H : Hashing) (a b c d : Hash)
    → node_hash H a b ≡ node_hash H c d
    → ((a ≡ c) × (b ≡ d)) ⊎ Collision H
node-cases H a b c d h = elim (Bool-cases (a == c)) [
  | inl e ↦ elim (Bool-cases (b == d)) [
    | inl f ↦ inl (ground arith)
    | inr f ↦ inr (record {
      first = (a, b);
      second = (c, d);
      different = λ k. differs b d f (ap (λ x. x.1) k);
      same = h;
    })
  ]
  | inr e ↦ inr (record {
    first = (a, b);
    second = (c, d);
    different = λ k. differs a c e (ap (λ x. x.0) k);
    same = h;
  })
]

combine-cases :
    (H : Hashing) (s t : Side) (a b h k : Hash)
    → s ≡ t
    → combine H s h a ≡ combine H t k b
    → (a ≡ b) ⊎ Collision H
combine-cases H Side.left Side.left a b h k e same = elim (node-cases H h a k b same) [
  | inl both ↦ inl both.1
  | inr c ↦ inr c
]
combine-cases H Side.right Side.right a b h k e same = elim (node-cases H a h b k same) [
  | inl both ↦ inl both.0
  | inr c ↦ inr c
]
combine-cases H s t a b h k e same = absurd (ground arith)

cons-injective : {x y : Side} {xs ys : List Side} → x ∷ xs ≡ y ∷ ys → (x ≡ y) × (xs ≡ ys)
cons-injective e = (cc, cc)

fold_siblings-cases :
    (H : Hashing) (xs ys : List Sibling) (a b : Hash)
    → sides xs ≡ sides ys
    → fold_siblings H xs a ≡ fold_siblings H ys b
    → (a ≡ b) ⊎ Collision H
fold_siblings-cases H [] [] a b e same = inl same
fold_siblings-cases H [] (y ∷ ys) a b e same = absurd (cc e)
fold_siblings-cases H (x ∷ xs) [] a b e same = absurd (cc e)
fold_siblings-cases H (x ∷ xs) (y ∷ ys) a b e same =
    let (head, tail) = cons-injective e in
    elim (fold_siblings-cases H xs ys _ _ tail same) [
      | inl below ↦ combine-cases H x.side y.side a b x.hash y.hash head below
      | inr c ↦ inr c
    ]

verify_proof-folds :
    (H : Hashing) (p : MerkleProof)
    → verify_proof H p ≡ ok tt
    → fold_siblings H p.siblings p.leaf_hash ≡ p.root
unfolding verify_proof parse_proof
verify_proof-folds H p h = ground arith

-- In a tree of fewer than 2 ^ 53 leaves, an accepted proof with the tree's root, which goes up
-- from a place the way that the tree's own proof does, is for the leaf at that place, or two
-- different pairs of hashes have one hash.
pub verify_proof-binds :
    (H : Hashing) (batch_id : Ident) (hashes : List Hash) (index : ℕ) (p q : MerkleProof)
    → index < length hashes
    → length hashes < safe_limit
    → create_proof H batch_id hashes index ≡ ok q
    → verify_proof H p ≡ ok tt
    → merkle_root H hashes ≡ ok p.root
    → sides p.siblings ≡ sides q.siblings
    → (get_elem? hashes index ≡ some p.leaf_hash) ⊎ Collision H
verify_proof-binds H batch_id hashes index p q h safe created verified root way =
    let (q', created', proves) = create_proof-Proves H batch_id hashes index h safe in
    let same = ok-injective (sym created' ∙ created) in
    let own = subst (Proves H hashes index) same proves in
    let roots = ok-injective (sym root ∙ own.root) in
    let folds =
      verify_proof-folds H p verified ∙ roots ∙ sym (verify_proof-folds H q own.verified) in
    elim (fold_siblings-cases H p.siblings q.siblings p.leaf_hash q.leaf_hash way folds) [
      | inl e ↦ inl (own.leaf ∙ ap some (sym e))
      | inr c ↦ inr c
    ]
