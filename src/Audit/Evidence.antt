-- ===== src/Audit/Evidence.antt =====
-- classifyIntegrityDetailed: the status of a log in the lists and chains of the dashboard.
use auditchain_gateway_backe.Prelude.{ℕ, not, ◌&&◌, Option, none, some, List, if◌then◌else◌}
use auditchain_gateway_backe.Prelude.Text.{Text, text_eq, is_empty, trim_space}
use auditchain_gateway_backe.Model.{AuditLog, MerkleProofRow}
use auditchain_gateway_backe.LogHash.{generate_log_hash}
use auditchain_gateway_backe.Audit.{
  Fabric, AnchorReply, no_reply, bad_reply, root_reply, Lookup, IncidentType, Finding,
  metadata_hash_mismatch, merkle_root_mismatch, merkle_proof_mismatch, is_anchored,
  is_hash_still_pending, canonicalize_log, proofs_for_anchor_root, names_other_root,
  reconstructed_root, has_no_proof,
}

pub data Verdict : Type 0 where
  valid_log tampered_log pending_log unreachable_log : Verdict

pub data ProofStatus : Type 0 where
  pending_hash failed_local_hash pending_anchor unavailable_fabric unavailable_anchor_invalid
        unavailable_root unavailable_proof_lookup failed_anchor_root failed_proof_batch_root
        legacy_limited unavailable_merkle_proof failed_merkle_proof verified_merkle_proof :
      ProofStatus

-- The two results, and the incident that the call records.
pub record Judgement : Type 0 where
  pub verdict : Verdict
  pub proof_status : ProofStatus
  pub incident : Option Finding

abbrev pub judge : Verdict → ProofStatus → Judgement
judge v p = record { verdict = v; proof_status = p; incident = none }

abbrev pub accuse : ProofStatus → IncidentType → Text → Judgement
accuse p kind detected = record {
  verdict = tampered_log;
  proof_status = p;
  incident = some (record { incident_type = kind; detected_hash = detected });
}

-- The end of the function, with the root that Fabric has and the proofs for it; `hash` is the
-- recomputed hash.
unfoldable pub judge_proofs :
    (List ℕ → List ℕ) → Text → AuditLog → Text → List MerkleProofRow → Judgement
judge_proofs sha3 hash l root proofs =
    if not (is_empty l.merkle_root) && not (text_eq l.merkle_root root)
    then accuse failed_anchor_root merkle_root_mismatch hash
    else if names_other_root root proofs
    then accuse failed_proof_batch_root merkle_proof_mismatch hash
    else if not (text_eq (reconstructed_root sha3 l.hash_value proofs) root)
    then (if text_eq l.merkle_root root
        then judge unreachable_log legacy_limited
        else if has_no_proof proofs && is_empty l.merkle_root
        then judge unreachable_log unavailable_merkle_proof
        else accuse failed_merkle_proof merkle_proof_mismatch hash)
    else judge valid_log verified_merkle_proof

unfoldable pub judge_lookup :
    (List ℕ → List ℕ) → Text → AuditLog → Text → Option (List MerkleProofRow) → Judgement
unfolding judge_proofs
judge_lookup sha3 hash l root none = judge unreachable_log unavailable_proof_lookup
judge_lookup sha3 hash l root (some proofs) =
    judge_proofs sha3 hash l root (proofs_for_anchor_root proofs root)

unfoldable pub judge_reply : (List ℕ → List ℕ) → Lookup → Text → AuditLog → AnchorReply → Judgement
unfolding judge_lookup
judge_reply sha3 lookup hash l no_reply = judge unreachable_log unavailable_fabric
judge_reply sha3 lookup hash l bad_reply = judge unreachable_log unavailable_anchor_invalid
judge_reply sha3 lookup hash l (root_reply raw) =
    if is_empty (trim_space raw)
    then judge unreachable_log unavailable_root
    else judge_lookup sha3 hash l (trim_space raw) (lookup l.hash_value)

unfoldable pub judge_fabric :
    (List ℕ → List ℕ) → Lookup → Fabric → Text → AuditLog → Text → Judgement
unfolding judge_reply
judge_fabric sha3 lookup none hash l id = judge unreachable_log unavailable_fabric
judge_fabric sha3 lookup (some anchors) hash l id = judge_reply sha3 lookup hash l (anchors id)

unfoldable pub judge_anchor :
    (List ℕ → List ℕ) → Lookup → Fabric → Text → AuditLog → Option Text → Judgement
unfolding judge_fabric
judge_anchor sha3 lookup fabric hash l none = judge pending_log pending_anchor
judge_anchor sha3 lookup fabric hash l (some id) =
    if is_empty id
    then judge pending_log pending_anchor
    else judge_fabric sha3 lookup fabric hash l id

module _ (remarshal : Text → Option Text) (sha3 : List ℕ → List ℕ) where
  -- after canonicalizeLog
  unfoldable pub judge_canonical : Lookup → Fabric → AuditLog → Judgement
  unfolding judge_anchor
  judge_canonical lookup fabric l =
      let hash : Text = generate_log_hash remarshal sha3 l in
      if not (text_eq hash l.hash_value)
      then accuse failed_local_hash metadata_hash_mismatch hash
      else if is_anchored l.status
      then judge_anchor sha3 lookup fabric hash l l.blockchain_tx_id
      else judge pending_log pending_anchor

  unfoldable pub classify_integrity : Lookup → Fabric → AuditLog → Judgement
  unfolding judge_canonical
  classify_integrity lookup fabric l =
      if is_hash_still_pending l
      then judge pending_log pending_hash
      else judge_canonical lookup fabric (canonicalize_log l)
