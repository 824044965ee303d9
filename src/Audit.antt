-- ===== src/Audit.antt =====
-- How the gateway judges one audit log (internal/modules/audit/service.go): the row is hashed
-- again, and its Merkle proof is compared with the root that Fabric has for the log's anchor.
pub mod Evidence
pub mod Verify
pub mod Scanner
pub mod Agree
pub mod Anchored
pub mod Sound
mod Examples
use auditchain_gateway_backe.Prelude.{
  ℕ, Bool, true, false, not, ◌&&◌, ◌||◌, Option, none, some, List, [], ◌∷◌, map, leb, if◌then◌else◌,
}
use auditchain_gateway_backe.Prelude.Text.{
  Text, codes, text_eq, is_empty, has_prefix, trim_space, is_blank,
}
use auditchain_gateway_backe.Prelude.Table.{select, order_by}
use auditchain_gateway_backe.Merkle.{ProofStep, reconstruct_merkle_root}
use auditchain_gateway_backe.Model.{
  LogStatus, received, anchored, IntegrityStatus, AuditLog, MerkleProofRow,
}

-- What GetAnchorFromLedger and the parse of its reply give for an anchor's id: an error, text
-- that is no JSON, or the field merkle_root (empty where the reply has none).
pub data AnchorReply : Type 0 where
  no_reply bad_reply : AnchorReply
  root_reply : Text → AnchorReply

-- `none` is the nil FabricService.
abbrev pub Fabric : Type 0
Fabric = Option (Text → AnchorReply)

-- GetProofsByHash; `none` is its error.
abbrev pub Lookup : Type 0
Lookup = Text → Option (List MerkleProofRow)

-- TamperIncident.IncidentType of the gateway's own incidents
pub data IncidentType : Type 0 where
  metadata_hash_mismatch merkle_root_mismatch merkle_proof_mismatch : IncidentType

-- The arguments of recordTamperIncident beside the log.
pub record Finding : Type 0 where
  pub incident_type : IncidentType
  pub detected_hash : Text

abbrev pub is_received : LogStatus → Bool
is_received received = true
is_received _ = false

abbrev pub is_anchored : LogStatus → Bool
is_anchored anchored = true
is_anchored _ = false

unfoldable pub is_hash_still_pending : AuditLog → Bool
unfolding has_prefix
is_hash_still_pending l =
    is_received l.status || is_empty l.hash_value || has_prefix l.hash_value (codes "PENDING-")

unfoldable pub canonicalize_log : AuditLog → AuditLog
unfolding text_eq
canonicalize_log l =
    if text_eq l.authorization_context (codes "null")
      || text_eq l.authorization_context (codes "<nil>")
    then record l { authorization_context = [] }
    else l

-- the query of GetProofsByHash
unfoldable pub get_proofs_by_hash : Text → List MerkleProofRow → List MerkleProofRow
get_proofs_by_hash hash rows =
    order_by (λ (a b : MerkleProofRow). leb a.tree_level b.tree_level)
      (select (λ (r : MerkleProofRow). text_eq r.transaction_hash hash) rows)

abbrev pub or_else : List MerkleProofRow → List MerkleProofRow → List MerkleProofRow
or_else [] rows = rows
or_else (m ∷ ms) rows = m ∷ ms

unfoldable pub proofs_for_anchor_root : List MerkleProofRow → Text → List MerkleProofRow
proofs_for_anchor_root proofs root =
    if is_blank root
    then proofs
    else or_else
        (select (λ (p : MerkleProofRow). text_eq (trim_space p.merkle_root) (trim_space root))
          proofs)
        proofs

unfoldable pub to_merkle_proof_data : List MerkleProofRow → List ProofStep
to_merkle_proof_data = map (λ (p : MerkleProofRow). record {
  sibling_hash = p.sibling_hash;
  is_left = p.is_left;
  tree_level = p.tree_level;
})

-- some proof row names another root
unfoldable pub names_other_root : Text → List MerkleProofRow → Bool
names_other_root root [] = false
names_other_root root (p ∷ ps) =
    (not (is_empty p.merkle_root) && not (text_eq p.merkle_root root)) || names_other_root root ps

-- reconstructedRoot; with no proof the hash is its own root
unfoldable pub reconstructed_root : (List ℕ → List ℕ) → Text → List MerkleProofRow → Text
unfolding to_merkle_proof_data
reconstructed_root sha3 hash [] = hash
reconstructed_root sha3 hash (p ∷ ps) =
    reconstruct_merkle_root sha3 hash (to_merkle_proof_data (p ∷ ps))

abbrev pub has_no_proof : List MerkleProofRow → Bool
has_no_proof [] = true
has_no_proof (_ ∷ _) = false
