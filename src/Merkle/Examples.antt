-- ===== src/Merkle/Examples.antt =====
-- Runs of the tree, and the theorems at concrete batches.
use auditchain_gateway_backe.Prelude.{
  ℕ, ◌≤◌, ◌<◌, ◌%◌, ◌≡◌, refl, ◌≢◌, true, false, none, some, List, [], ◌∷◌, length, replicate,
  arith,
}
use auditchain_gateway_backe.Prelude.Text.{Text, text_eq, text_eq_iff}
use auditchain_gateway_backe.Prelude.Counts.{count, Distinct, Distinct-nil, Distinct-cons}
use auditchain_gateway_backe.Hex.{hex_encode}
use auditchain_gateway_backe.Merkle.{
  ProofStep, MerkleResult, build_merkle_tree, proof_of, verify_merkle_proof, hash_nodes,
}
use auditchain_gateway_backe.Merkle.Complete.{every_leaf_verifies, upto, levels_of}
use auditchain_gateway_backe.Merkle.Collision.{
  Collision, replay_inputs, IsDigest, IsHash, forged_leaf_collides,
}

abbrev zeros : List ℕ
zeros = replicate 32 0

-- a stand-in digest: the length of the input in each byte
abbrev toy_sha3 : List ℕ → List ℕ
toy_sha3 bs = replicate 32 (length bs % 256)

abbrev leaf : ℕ → Text
leaf n = hex_encode (n ∷ zeros)

batch-Distinct : Distinct (leaf 1 ∷ leaf 2 ∷ leaf 3 ∷ [])
unfolding count text_eq hex_encode
batch-Distinct =
    Distinct-cons (leaf 1) (leaf 2 ∷ leaf 3 ∷ []) refl
      (Distinct-cons (leaf 2) (leaf 3 ∷ []) refl (Distinct-cons (leaf 3) [] refl Distinct-nil))

one_of_three : 1 ≤ count (leaf 3) (leaf 1 ∷ leaf 2 ∷ leaf 3 ∷ [])
unfolding count text_eq hex_encode
one_of_three = omega arith

every_leaf_verifies_example :
    (r : MerkleResult) × (rounds : ℕ) × (build_merkle_tree toy_sha3 (leaf 1 ∷ leaf 2 ∷ leaf 3 ∷ [])
      ≡ some r)
    × (verify_merkle_proof toy_sha3 (leaf 3) (proof_of r.proofs (leaf 3)) r.root ≡ true)
    × (levels_of (proof_of r.proofs (leaf 3)) ≡ upto rounds)
every_leaf_verifies_example =
    every_leaf_verifies toy_sha3 (leaf 1) (leaf 2 ∷ leaf 3 ∷ []) (leaf 3) batch-Distinct
      one_of_three

-- an empty batch has no tree
empty_batch : build_merkle_tree toy_sha3 [] ≡ none
unfolding build_merkle_tree
empty_batch = refl

-- with a constant digest every pair of leaves collides
abbrev constant_sha3 : List ℕ → List ℕ
constant_sha3 bs = zeros

zeros-IsDigest : IsDigest zeros
zeros-IsDigest = record { size = refl; bytes = omega arith }

abbrev filled : ℕ → List ℕ
filled n = replicate 32 n

filled-IsHash : (n : ℕ) → n < 256 → IsHash (hex_encode (filled n))
filled-IsHash n h = record {
  digest = filled n;
  is_digest = record { size = refl; bytes = omega arith };
  encoded = refl;
}

filled_differ : hex_encode (filled 1) ≢ hex_encode (filled 2)
unfolding hex_encode text_eq
filled_differ e = cc ((text_eq_iff (hex_encode (filled 1)) (hex_encode (filled 2))).1 e)

abbrev right_of : ℕ → ProofStep
right_of n = record { sibling_hash = hex_encode (filled n); is_left = false; tree_level = 0 }

same_root :
    verify_merkle_proof constant_sha3 (hex_encode (filled 1)) (right_of 3 ∷ []) (hex_encode zeros)
    ≡ true
unfolding verify_merkle_proof hash_nodes hex_encode
same_root = refl

forged_leaf_collides_example :
    Collision constant_sha3
      (replay_inputs constant_sha3 (hex_encode (filled 1)) (right_of 3 ∷ []))
      (replay_inputs constant_sha3 (hex_encode (filled 2)) (right_of 4 ∷ []))
unfolding verify_merkle_proof hash_nodes
forged_leaf_collides_example =
    forged_leaf_collides constant_sha3 (λ bs. zeros-IsDigest) (right_of 3 ∷ []) (right_of 4 ∷ [])
      (hex_encode (filled 1)) (hex_encode (filled 2)) (filled-IsHash 1 (omega arith))
      (filled-IsHash 2 (omega arith)) (filled-IsHash 3 (omega arith), tt)
      (filled-IsHash 4 (omega arith), tt) refl filled_differ refl
