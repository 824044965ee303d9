-- ===== src/Audit/Scanner.antt =====
-- VerifyGatewayIntegrityBatch: the scanner's verdict on one log, as the tamper scanner stores it.
-- The batch reads each anchor once and keeps the reply; Fabric is a function of the anchor's id
-- here, so a kept reply is the reply.
use auditchain_gateway_backe.Prelude.{ℕ, not, ◌&&◌, Option, none, some, List, if◌then◌else◌}
use auditchain_gateway_backe.Prelude.Text.{Text, text_eq, is_empty, is_blank, trim_space}
use auditchain_gateway_backe.Model.{
  AuditLog, MerkleProofRow, IntegrityStatus, valid, tampered, pending, unreachable,
}
use auditchain_gateway_backe.LogHash.{generate_log_hash}
use auditchain_gateway_backe.Audit.{
  Fabric, AnchorReply, no_reply, bad_reply, root_reply, Lookup, IncidentType, Finding,
  metadata_hash_mismatch, merkle_root_mismatch, merkle_proof_mismatch, is_anchored,
  is_hash_still_pending, canonicalize_log, proofs_for_anchor_root, names_other_root,
  reconstructed_root, has_no_proof,
}

-- BatchVerificationResult.Err
pub data ScanError : Type 0 where
  fabric_unavailable fabric_read_failed fabric_anchor_invalid merkle_proof_read_failed
        legacy_merkle_proof_incomplete merkle_proof_missing :
      ScanError

pub record ScanResult : Type 0 where
  pub status : IntegrityStatus
  pub error : Option ScanError
  pub incident : Option Finding

abbrev pub scanned : IntegrityStatus → ScanResult
scanned status = record { status = status; error = none; incident = none }

abbrev pub gave_up : ScanError → ScanResult
gave_up e = record { status = unreachable; error = some e; incident = none }

abbrev pub tampering : IncidentType → Text → ScanResult
tampering kind detected = record {
  status = tampered;
  error = none;
  incident = some (record { incident_type = kind; detected_hash = detected });
}

unfoldable pub scan_proofs :
    (List ℕ → List ℕ) → Text → AuditLog → Text → List MerkleProofRow → ScanResult
scan_proofs sha3 hash l root proofs =
    if names_other_root root proofs
    then tampering merkle_proof_mismatch hash
    else if not (text_eq (reconstructed_root sha3 l.hash_value proofs) root)
    then (if text_eq l.merkle_root root
        then gave_up legacy_merkle_proof_incomplete
        else if has_no_proof proofs && is_empty l.merkle_root
        then gave_up merkle_proof_missing
        else tampering merkle_proof_mismatch (reconstructed_root sha3 l.hash_value proofs))
    else scanned valid

unfoldable pub scan_lookup :
    (List ℕ → List ℕ) → Text → AuditLog → Text → Option (List MerkleProofRow) → ScanResult
unfolding scan_proofs
scan_lookup sha3 hash l root none = gave_up merkle_proof_read_failed
scan_lookup sha3 hash l root (some proofs) =
    scan_proofs sha3 hash l root (proofs_for_anchor_root proofs root)

-- the root is kept as Fabric sent it, with its white space
unfoldable pub scan_reply : (List ℕ → List ℕ) → Lookup → Text → AuditLog → AnchorReply → ScanResult
unfolding scan_lookup
scan_reply sha3 lookup hash l no_reply = gave_up fabric_read_failed
scan_reply sha3 lookup hash l bad_reply = gave_up fabric_anchor_invalid
scan_reply sha3 lookup hash l (root_reply root) =
    if is_blank root
    then gave_up fabric_anchor_invalid
    else if not (is_empty l.merkle_root) && not (text_eq l.merkle_root root)
    then tampering merkle_root_mismatch hash
    else scan_lookup sha3 hash l root (lookup l.hash_value)

unfoldable pub scan_fabric :
    (List ℕ → List ℕ) → Lookup → Fabric → Text → AuditLog → Text → ScanResult
unfolding scan_reply
scan_fabric sha3 lookup none hash l id = gave_up fabric_unavailable
scan_fabric sha3 lookup (some anchors) hash l id =
    scan_reply sha3 lookup hash l (anchors (trim_space id))

unfoldable pub scan_anchor :
    (List ℕ → List ℕ) → Lookup → Fabric → Text → AuditLog → Option Text → ScanResult
unfolding scan_fabric
scan_anchor sha3 lookup fabric hash l none = scanned pending
scan_anchor sha3 lookup fabric hash l (some id) =
    if is_blank id then scanned pending else scan_fabric sha3 lookup fabric hash l id

module _ (remarshal : Text → Option Text) (sha3 : List ℕ → List ℕ) where
  unfoldable pub scan_canonical : Lookup → Fabric → AuditLog → ScanResult
  unfolding scan_anchor
  scan_canonical lookup fabric l =
      let hash : Text = generate_log_hash remarshal sha3 l in
      if not (text_eq hash l.hash_value)
      then tampering metadata_hash_mismatch hash
      else if is_anchored l.status
      then scan_anchor sha3 lookup fabric hash l l.blockchain_tx_id
      else scanned pending

  unfoldable pub scan_log : Lookup → Fabric → AuditLog → ScanResult
  unfolding scan_canonical
  scan_log lookup fabric l =
      if is_hash_still_pending l
      then scanned pending
      else scan_canonical lookup fabric (canonicalize_log l)
