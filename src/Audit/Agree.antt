-- ===== src/Audit/Agree.antt =====
-- A verification of one log and the classification of the dashboard agree.
use auditchain_gateway_backe.Prelude.{
  ℕ, ◌≡◌, refl, ap, ◌∙◌, false, Option, none, some, List, arith, Bool-cases, inl, inr,
}
use auditchain_gateway_backe.Prelude.Text.{Text, codes, text_eq, is_empty, trim_space}
use auditchain_gateway_backe.Model.{AuditLog, MerkleProofRow, anchored}
use auditchain_gateway_backe.LogHash.{generate_log_hash}
use auditchain_gateway_backe.Audit.{
  Fabric, AnchorReply, no_reply, bad_reply, root_reply, Lookup, is_anchored, is_hash_still_pending,
  canonicalize_log, proofs_for_anchor_root,
}
use auditchain_gateway_backe.Audit.Evidence.{
  ProofStatus, pending_hash, failed_local_hash, pending_anchor, unavailable_fabric,
  unavailable_anchor_invalid, unavailable_root, unavailable_proof_lookup, failed_anchor_root,
  failed_proof_batch_root, legacy_limited, unavailable_merkle_proof, failed_merkle_proof,
  verified_merkle_proof, judge_proofs, judge_lookup, judge_reply, judge_fabric, judge_anchor,
  judge_canonical, classify_integrity,
}
use auditchain_gateway_backe.Audit.Verify.{
  ResultProof, proof_pending, proof_failed_local_hash, proof_pending_anchor,
  proof_unavailable_fabric, proof_unavailable_anchor_invalid, proof_unavailable_root,
  proof_unavailable_lookup, proof_failed_anchor_root, proof_failed_batch_root, proof_unavailable,
  proof_failed, proof_verified, proof_legacy_limited, verify_proofs, verify_lookup, verify_reply,
  verify_fabric, verify_anchor, verify_canonical, verify_log_integrity,
}

-- the counterpart of each proof status of the dashboard in a single verification
abbrev pub result_proof : ProofStatus → ResultProof
result_proof pending_hash = proof_pending
result_proof failed_local_hash = proof_failed_local_hash
result_proof pending_anchor = proof_pending_anchor
result_proof unavailable_fabric = proof_unavailable_fabric
result_proof unavailable_anchor_invalid = proof_unavailable_anchor_invalid
result_proof unavailable_root = proof_unavailable_root
result_proof unavailable_proof_lookup = proof_unavailable_lookup
result_proof failed_anchor_root = proof_failed_anchor_root
result_proof failed_proof_batch_root = proof_failed_batch_root
result_proof legacy_limited = proof_legacy_limited
result_proof unavailable_merkle_proof = proof_unavailable
result_proof failed_merkle_proof = proof_failed
result_proof verified_merkle_proof = proof_verified

module _ (sha3 : List ℕ → List ℕ) (lookup : Lookup) (hash : Text) (l : AuditLog) where
  verify_proofs_agrees :
      (root : Text) (proofs : List MerkleProofRow)
      → (verify_proofs sha3 hash l root proofs).proof_status
        ≡ result_proof (judge_proofs sha3 hash l root proofs).proof_status
  unfolding verify_proofs judge_proofs
  verify_proofs_agrees root proofs = ground arith

  verify_lookup_agrees :
      (root : Text) (found : Option (List MerkleProofRow))
      → (verify_lookup sha3 hash l root found).proof_status
        ≡ result_proof (judge_lookup sha3 hash l root found).proof_status
  unfolding verify_lookup judge_lookup
  verify_lookup_agrees root none = refl
  verify_lookup_agrees root (some rows) =
      verify_proofs_agrees root (proofs_for_anchor_root rows root)

  verify_reply_agrees :
      (r : AnchorReply)
      → (verify_reply sha3 lookup hash l r).proof_status
        ≡ result_proof (judge_reply sha3 lookup hash l r).proof_status
  unfolding verify_reply judge_reply
  verify_reply_agrees no_reply = refl
  verify_reply_agrees bad_reply = refl
  verify_reply_agrees (root_reply raw) = elim (Bool-cases (is_empty (trim_space raw))) [
    | inl e ↦ rw e refl
    | inr e ↦ rw e (verify_lookup_agrees (trim_space raw) (lookup l.hash_value))
  ]

  verify_fabric_agrees :
      (fabric : Fabric) (id : Text)
      → (verify_fabric sha3 lookup fabric hash l id).proof_status
        ≡ result_proof (judge_fabric sha3 lookup fabric hash l id).proof_status
  unfolding verify_fabric judge_fabric
  verify_fabric_agrees none id = refl
  verify_fabric_agrees (some anchors) id = verify_reply_agrees (anchors id)

module _ (sha3 : List ℕ → List ℕ) (lookup : Lookup) (fabric : Fabric) (hash : Text)
    (l : AuditLog) where
  verify_anchor_agrees :
      (tx : Option Text) (id : Text)
      → tx ≡ some id
      → is_empty id ≡ false
      → text_eq id (codes "PENDING_OR_FAILED") ≡ false
      → (verify_anchor sha3 lookup fabric hash l tx).proof_status
        ≡ result_proof (judge_anchor sha3 lookup fabric hash l tx).proof_status
  unfolding verify_anchor judge_anchor
  verify_anchor_agrees tx id t e p =
      rw t (rw (e, p) (verify_fabric_agrees sha3 lookup hash l fabric id))

module _ (remarshal : Text → Option Text) (sha3 : List ℕ → List ℕ) (lookup : Lookup)
    (fabric : Fabric) where
  verify_canonical_agrees :
      (l : AuditLog) (id : Text)
      → l.status ≡ anchored
      → l.blockchain_tx_id ≡ some id
      → is_empty id ≡ false
      → text_eq id (codes "PENDING_OR_FAILED") ≡ false
      → (verify_canonical remarshal sha3 lookup fabric l).proof_status
        ≡ result_proof (judge_canonical remarshal sha3 lookup fabric l).proof_status
  unfolding verify_canonical judge_canonical
  verify_canonical_agrees l id st tx e p =
      elim (Bool-cases (text_eq (generate_log_hash remarshal sha3 l) l.hash_value)) [
        | inl same ↦
            rw (same, ap is_anchored st)
              (verify_anchor_agrees sha3 lookup fabric (generate_log_hash remarshal sha3 l) l
                l.blockchain_tx_id id tx e p)
        | inr other ↦ rw other refl
      ]

  canonicalize_log_keeps :
      (l : AuditLog)
      → ((canonicalize_log l).status ≡ l.status)
        × ((canonicalize_log l).blockchain_tx_id ≡ l.blockchain_tx_id)
        × ((canonicalize_log l).hash_value ≡ l.hash_value)
        × ((canonicalize_log l).merkle_root ≡ l.merkle_root)
  unfolding canonicalize_log
  canonicalize_log_keeps l = ground arith

  -- For an anchored log, with an anchor id that is neither empty nor the old placeholder, a
  -- verification of the log and the status in the lists of the dashboard come to the same proof
  -- status.
  pub verification_agrees :
      (l : AuditLog) (id : Text)
      → l.status ≡ anchored
      → l.blockchain_tx_id ≡ some id
      → is_empty id ≡ false
      → text_eq id (codes "PENDING_OR_FAILED") ≡ false
      → (verify_log_integrity remarshal sha3 lookup fabric l).proof_status
        ≡ result_proof (classify_integrity remarshal sha3 lookup fabric l).proof_status
  unfolding verify_log_integrity classify_integrity
  verification_agrees l id st tx e p = elim (Bool-cases (is_hash_still_pending l)) [
    | inl waits ↦ rw waits refl
    | inr final ↦
        let kept = canonicalize_log_keeps l in
        rw final (verify_canonical_agrees (canonicalize_log l) id (kept.0 ∙ st) (kept.1 ∙ tx) e p)
  ]
