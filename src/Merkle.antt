-- ===== src/Merkle.antt =====
-- Merkle trees over hex-encoded hashes (pkg/crypto/merkle.go, pkg/crypto/hash.go).
-- `sha3` stands for golang.org/x/crypto/sha3.Sum256, from bytes to bytes.
pub mod Groups
pub mod Complete
pub mod Collision
mod Examples
use auditchain_gateway_backe.Prelude.{
  ℕ, zero, suc, ◌+◌, Bool, true, false, Option, none, some, List, [], ◌∷◌, ◌++◌, map, length,
  if◌then◌else◌,
}
use auditchain_gateway_backe.Prelude.Text.{Text, text_eq}
use auditchain_gateway_backe.Hex.{hex_encode, hex_decode}

pub record ProofStep : Type 0 where
  pub sibling_hash : Text
  pub is_left : Bool
  pub tree_level : ℕ

-- The map from a leaf hash to its proof; the last entry of a key is in front.
abbrev pub Proofs : Type 0
Proofs = List (Text × List ProofStep)

pub record MerkleResult : Type 0 where
  pub root : Text
  pub proofs : Proofs

-- A node of the current level: an element of currentLevel with its element of currentGroups.
pub record Node : Type 0 where
  pub hash : Text
  pub group : List Text

-- `proofs[leaf]`; a missing key gives the nil slice
unfoldable pub proof_of : Proofs → Text → List ProofStep
proof_of [] leaf = []
proof_of ((k, p) ∷ m) leaf = if text_eq k leaf then p else proof_of m leaf

-- for _, leaf := range group { proofs[leaf] = append(proofs[leaf], step) }
unfoldable pub append_step : List Text → ProofStep → Proofs → Proofs
append_step [] s m = m
append_step (leaf ∷ group) s m = append_step group s ((leaf, proof_of m leaf ++ s ∷ []) ∷ m)

unfoldable pub initial_proofs : List Text → Proofs
initial_proofs [] = []
initial_proofs (h ∷ hs) = (h, []) ∷ initial_proofs hs

abbrev pub leaf_node : Text → Node
leaf_node h = record { hash = h; group = h ∷ [] }

-- the proof steps of a pair, and of an odd last node
abbrev pub pair_proofs : ℕ → Node → Node → Proofs → Proofs
pair_proofs level l r m =
    append_step r.group (record { sibling_hash = l.hash; is_left = true; tree_level = level })
      (append_step l.group (record { sibling_hash = r.hash; is_left = false; tree_level = level })
        m)

abbrev pub self_proofs : ℕ → Node → Proofs → Proofs
self_proofs level l m =
    append_step l.group (record { sibling_hash = l.hash; is_left = false; tree_level = level }) m

module _ (sha3 : List ℕ → List ℕ) where
  -- GenerateSHA3_256, over the bytes of the text
  unfoldable pub generate_sha3_256 : List ℕ → Text
  generate_sha3_256 bytes = hex_encode (sha3 bytes)

  unfoldable pub hash_nodes : Text → Text → Text
  hash_nodes left right = hex_encode (sha3 (hex_decode left ++ hex_decode right))

  -- one round of the outer loop: the nodes in pairs, an odd last one with itself
  unfoldable pub next_level : ℕ → List Node → Proofs → List Node × Proofs
  next_level level [] m = ([], m)
  next_level level (l ∷ []) m =
      (record { hash = hash_nodes l.hash l.hash; group = l.group } ∷ [], self_proofs level l m)
  next_level level (l ∷ r ∷ rest) m =
      let (nodes, m') = next_level level rest (pair_proofs level l r m) in
      (record { hash = hash_nodes l.hash r.hash; group = l.group ++ r.group } ∷ nodes, m')

  -- for len(currentLevel) > 1 { … }, on fuel; `none` means that the fuel ran out
  unfoldable pub climb : ℕ → ℕ → List Node → Proofs → Option MerkleResult
  climb fuel level [] m = none
  climb fuel level (n ∷ []) m = some (record { root = n.hash; proofs = m })
  climb zero level (n ∷ k ∷ ns) m = none
  climb (suc fuel) level (n ∷ k ∷ ns) m =
      let (nodes, m') = next_level level (n ∷ k ∷ ns) m in climb fuel (level + 1) nodes m'

  -- BuildMerkleTree; nil for no leaves
  unfoldable pub build_merkle_tree : List Text → Option MerkleResult
  unfolding initial_proofs climb next_level append_step
  build_merkle_tree leaves = climb (length leaves) 0 (map leaf_node leaves) (initial_proofs leaves)

  -- the body of the loop of ReconstructMerkleRoot
  unfoldable pub replay_step : Text → ProofStep → Text
  replay_step current p =
      if p.is_left then hash_nodes p.sibling_hash current else hash_nodes current p.sibling_hash

  unfoldable pub reconstruct_merkle_root : Text → List ProofStep → Text
  unfolding replay_step
  reconstruct_merkle_root current [] = current
  reconstruct_merkle_root current (p ∷ ps) = reconstruct_merkle_root (replay_step current p) ps

  unfoldable pub verify_merkle_proof : Text → List ProofStep → Text → Bool
  unfolding reconstruct_merkle_root text_eq
  verify_merkle_proof hash proofs expected = text_eq (reconstruct_merkle_root hash proofs) expected
