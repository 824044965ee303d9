-- ===== src/Audit/Anchored.antt =====
-- A log whose anchor answers: what both judgements of internal/modules/audit/service.go come to.
use auditchain_gateway_backe.Prelude.{ℕ, ◌≡◌, refl, ap, false, Option, some, List}
use auditchain_gateway_backe.Prelude.Text.{Text, codes, text_eq, text_eq_iff, is_empty, trim_space}
use auditchain_gateway_backe.Model.{AuditLog, MerkleProofRow, anchored}
use auditchain_gateway_backe.LogHash.{generate_log_hash}
use auditchain_gateway_backe.Audit.{
  AnchorReply, root_reply, Lookup, is_anchored, is_hash_still_pending, canonicalize_log,
  proofs_for_anchor_root,
}
use auditchain_gateway_backe.Audit.Evidence.{
  judge_proofs, judge_lookup, judge_reply, judge_fabric, judge_anchor, judge_canonical,
  classify_integrity,
}
use auditchain_gateway_backe.Audit.Verify.{
  verify_proofs, verify_lookup, verify_reply, verify_fabric, verify_anchor, verify_canonical,
  verify_log_integrity,
}

-- The row `c` still hashes to its hash, and Fabric answers for its anchor with `root`; `rows` are
-- the proof rows of its hash.
pub record IsAnchoredAt (remarshal : Text → Option Text) (sha3 : List ℕ → List ℕ) (lookup : Lookup)
    (anchors : Text → AnchorReply) (c : AuditLog) (root : Text) (rows : List MerkleProofRow)
    : Type 0 where
  pub rehashed : generate_log_hash remarshal sha3 c ≡ c.hash_value
  pub status : c.status ≡ anchored
  pub id : Text
  pub has_id : c.blockchain_tx_id ≡ some id
  pub not_empty : is_empty id ≡ false
  pub not_placeholder : text_eq id (codes "PENDING_OR_FAILED") ≡ false
  pub raw : Text
  pub replied : anchors id ≡ root_reply raw
  pub trimmed : trim_space raw ≡ root
  pub has_root : is_empty root ≡ false
  pub found : lookup c.hash_value ≡ some rows

module _ (sha3 : List ℕ → List ℕ) (lookup : Lookup) (anchors : Text → AnchorReply) (hash : Text)
    (c : AuditLog) (root : Text) (rows : List MerkleProofRow) where
  verify_anchor_found :
      (tx : Option Text) (id raw : Text)
      → tx ≡ some id
      → text_eq id (codes "PENDING_OR_FAILED") ≡ false
      → anchors id ≡ root_reply raw
      → trim_space raw ≡ root
      → is_empty root ≡ false
      → lookup c.hash_value ≡ some rows
      → verify_anchor sha3 lookup (some anchors) hash c tx
        ≡ verify_proofs sha3 hash c root (proofs_for_anchor_root rows root)
  unfolding verify_anchor verify_fabric verify_reply verify_lookup
  verify_anchor_found tx id raw t p r e n f = rw t (rw p (rw r (rw e (rw n (rw f refl)))))

  judge_anchor_found :
      (tx : Option Text) (id raw : Text)
      → tx ≡ some id
      → is_empty id ≡ false
      → anchors id ≡ root_reply raw
      → trim_space raw ≡ root
      → is_empty root ≡ false
      → lookup c.hash_value ≡ some rows
      → judge_anchor sha3 lookup (some anchors) hash c tx
        ≡ judge_proofs sha3 hash c root (proofs_for_anchor_root rows root)
  unfolding judge_anchor judge_fabric judge_reply judge_lookup
  judge_anchor_found tx id raw t p r e n f = rw t (rw p (rw r (rw e (rw n (rw f refl)))))

module _ (remarshal : Text → Option Text) (sha3 : List ℕ → List ℕ) (lookup : Lookup)
    (anchors : Text → AnchorReply) (l : AuditLog) (root : Text) (rows : List MerkleProofRow)
    (final : is_hash_still_pending l ≡ false)
    (at : IsAnchoredAt remarshal sha3 lookup anchors (canonicalize_log l) root rows) where
  pub verify_log_integrity_anchored :
      verify_log_integrity remarshal sha3 lookup (some anchors) l
      ≡ verify_proofs sha3
          (generate_log_hash remarshal sha3 (canonicalize_log l))
          (canonicalize_log l)
          root
          (proofs_for_anchor_root rows root)
  unfolding verify_log_integrity verify_canonical
  verify_log_integrity_anchored = rw final (
      rw
        ((text_eq_iff (generate_log_hash remarshal sha3 (canonicalize_log l))
            (canonicalize_log l).hash_value).1
          at.rehashed)
        (verify_anchor_found sha3 lookup anchors
          (generate_log_hash remarshal sha3 (canonicalize_log l)) (canonicalize_log l) root rows
          (canonicalize_log l).blockchain_tx_id at.id at.raw at.has_id at.not_placeholder at.replied
          at.trimmed at.has_root at.found))

  pub classify_integrity_anchored :
      classify_integrity remarshal sha3 lookup (some anchors) l
      ≡ judge_proofs sha3
          (generate_log_hash remarshal sha3 (canonicalize_log l))
          (canonicalize_log l)
          root
          (proofs_for_anchor_root rows root)
  unfolding classify_integrity judge_canonical
  classify_integrity_anchored = rw final (
      rw
        (
          (text_eq_iff (generate_log_hash remarshal sha3 (canonicalize_log l))
                (canonicalize_log l).hash_value).1
              at.rehashed,
          ap is_anchored at.status,
        )
        (judge_anchor_found sha3 lookup anchors
          (generate_log_hash remarshal sha3 (canonicalize_log l)) (canonicalize_log l) root rows
          (canonicalize_log l).blockchain_tx_id at.id at.raw at.has_id at.not_empty at.replied
          at.trimmed at.has_root at.found))
