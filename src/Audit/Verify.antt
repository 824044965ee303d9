-- ===== src/Audit/Verify.antt =====
-- verifyLogIntegrity up to the proof: what a verification of one log says before the client's
-- Agent is asked (all that it says where skipAgent is set, as in a verification of a range).
use auditchain_gateway_backe.Prelude.{
  ℕ, Bool, true, false, not, ◌&&◌, Option, none, some, List, if◌then◌else◌,
}
use auditchain_gateway_backe.Prelude.Text.{Text, codes, text_eq, is_empty, trim_space}
use auditchain_gateway_backe.Model.{
  AuditLog, MerkleProofRow, IntegrityStatus, valid, tampered, pending, unreachable,
}
use auditchain_gateway_backe.LogHash.{generate_log_hash}
use auditchain_gateway_backe.Audit.{
  Fabric, AnchorReply, no_reply, bad_reply, root_reply, Lookup, IncidentType, Finding,
  metadata_hash_mismatch, merkle_root_mismatch, merkle_proof_mismatch, is_hash_still_pending,
  canonicalize_log, proofs_for_anchor_root, names_other_root, reconstructed_root, has_no_proof,
}

-- VerificationResult.Status
pub data ResultStatus : Type 0 where
  success pending_result inconclusive failed_local failed_onchain failed_source : ResultStatus

-- VerificationResult.ProofStatus
pub data ResultProof : Type 0 where
  proof_pending proof_failed_local_hash proof_pending_anchor proof_unavailable_fabric
        proof_unavailable_anchor_invalid proof_unavailable_root proof_unavailable_lookup
        proof_failed_anchor_root proof_failed_batch_root proof_unavailable proof_failed
        proof_verified proof_legacy_limited :
      ResultProof

pub record VerificationResult : Type 0 where
  pub status : ResultStatus
  pub proof_status : ResultProof
  pub is_valid : Bool
  pub incident : Option Finding

abbrev pub waiting : ResultProof → VerificationResult
waiting p = record { status = pending_result; proof_status = p; is_valid = true; incident = none }

abbrev pub undecided : ResultProof → VerificationResult
undecided p = record { status = inconclusive; proof_status = p; is_valid = false; incident = none }

abbrev pub failed : ResultStatus → ResultProof → IncidentType → Text → VerificationResult
failed status p kind detected = record {
  status = status;
  proof_status = p;
  is_valid = false;
  incident = some (record { incident_type = kind; detected_hash = detected });
}

abbrev pub authentic : ResultProof → VerificationResult
authentic p = record { status = success; proof_status = p; is_valid = true; incident = none }

unfoldable pub verify_proofs :
    (List ℕ → List ℕ) → Text → AuditLog → Text → List MerkleProofRow → VerificationResult
verify_proofs sha3 hash l root proofs =
    if not (is_empty l.merkle_root) && not (text_eq l.merkle_root root)
    then failed failed_onchain proof_failed_anchor_root merkle_root_mismatch hash
    else if names_other_root root proofs
    then failed failed_onchain proof_failed_batch_root merkle_proof_mismatch hash
    else if not (text_eq (reconstructed_root sha3 l.hash_value proofs) root)
    then (if text_eq l.merkle_root root
        then authentic proof_legacy_limited
        else if has_no_proof proofs && is_empty l.merkle_root
        then undecided proof_unavailable
        else failed failed_onchain proof_failed merkle_root_mismatch hash)
    else authentic proof_verified

unfoldable pub verify_lookup :
    (List ℕ → List ℕ) → Text → AuditLog → Text → Option (List MerkleProofRow) → VerificationResult
unfolding verify_proofs
verify_lookup sha3 hash l root none = undecided proof_unavailable_lookup
verify_lookup sha3 hash l root (some proofs) =
    verify_proofs sha3 hash l root (proofs_for_anchor_root proofs root)

unfoldable pub verify_reply :
    (List ℕ → List ℕ) → Lookup → Text → AuditLog → AnchorReply → VerificationResult
unfolding verify_lookup
verify_reply sha3 lookup hash l no_reply = undecided proof_unavailable_fabric
verify_reply sha3 lookup hash l bad_reply = undecided proof_unavailable_anchor_invalid
verify_reply sha3 lookup hash l (root_reply raw) =
    if is_empty (trim_space raw)
    then undecided proof_unavailable_root
    else verify_lookup sha3 hash l (trim_space raw) (lookup l.hash_value)

unfoldable pub verify_fabric :
    (List ℕ → List ℕ) → Lookup → Fabric → Text → AuditLog → Text → VerificationResult
unfolding verify_reply
verify_fabric sha3 lookup none hash l id = undecided proof_unavailable_fabric
verify_fabric sha3 lookup (some anchors) hash l id = verify_reply sha3 lookup hash l (anchors id)

-- no anchor yet: a null id, or the placeholder of older releases
unfoldable pub verify_anchor :
    (List ℕ → List ℕ) → Lookup → Fabric → Text → AuditLog → Option Text → VerificationResult
unfolding verify_fabric text_eq
verify_anchor sha3 lookup fabric hash l none = waiting proof_pending_anchor
verify_anchor sha3 lookup fabric hash l (some id) =
    if text_eq id (codes "PENDING_OR_FAILED")
    then waiting proof_pending_anchor
    else verify_fabric sha3 lookup fabric hash l id

module _ (remarshal : Text → Option Text) (sha3 : List ℕ → List ℕ) where
  unfoldable pub verify_canonical : Lookup → Fabric → AuditLog → VerificationResult
  unfolding verify_anchor
  verify_canonical lookup fabric l =
      let hash : Text = generate_log_hash remarshal sha3 l in
      if not (text_eq hash l.hash_value)
      then failed failed_local proof_failed_local_hash metadata_hash_mismatch hash
      else verify_anchor sha3 lookup fabric hash l l.blockchain_tx_id

  unfoldable pub verify_log_integrity : Lookup → Fabric → AuditLog → VerificationResult
  unfolding verify_canonical
  verify_log_integrity lookup fabric l =
      if is_hash_still_pending l
      then waiting proof_pending
      else verify_canonical lookup fabric (canonicalize_log l)

-- integrityStatusFromVerificationResult, and the switch of VerifyLogIntegrity
unfoldable pub integrity_status_of : ResultStatus → IntegrityStatus
integrity_status_of success = valid
integrity_status_of pending_result = pending
integrity_status_of inconclusive = unreachable
integrity_status_of failed_local = tampered
integrity_status_of failed_onchain = tampered
integrity_status_of failed_source = tampered
