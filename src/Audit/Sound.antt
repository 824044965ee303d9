-- ===== src/Audit/Sound.antt =====
-- What a valid verdict on an anchored log proves, and where it proves nothing.
use auditchain_gateway_backe.Prelude.{
  ℕ, ◌≡◌, ◌≢◌, refl, sym, ap, ◌∙◌, inl, inr, ◌⊎◌, false, Bool-cases, Option, some, List, [], ◌∷◌,
  arith,
}
use auditchain_gateway_backe.Prelude.Text.{Text, text_eq, text_eq_iff}
use auditchain_gateway_backe.Prelude.Table.{select}
use auditchain_gateway_backe.Merkle.{ProofStep, reconstruct_merkle_root, generate_sha3_256}
use auditchain_gateway_backe.Merkle.Collision.{
  IsDigest, IsHash, Collision, sides, HasHashes, replay_inputs, forged_leaf_collides,
}
use auditchain_gateway_backe.Model.{AuditLog, MerkleProofRow}
use auditchain_gateway_backe.LogHash.{join_fields, log_fields, generate_log_hash}
use auditchain_gateway_backe.LogHash.Binding.{HasPlainFields, changed_log_collides}
use auditchain_gateway_backe.Audit.{
  AnchorReply, Lookup, is_hash_still_pending, canonicalize_log, proofs_for_anchor_root,
  to_merkle_proof_data, reconstructed_root, names_other_root,
}
use auditchain_gateway_backe.Audit.Evidence.{
  valid_log, unreachable_log, judge_proofs, classify_integrity,
}
use auditchain_gateway_backe.Audit.Verify.{success, verify_proofs, verify_log_integrity}
use auditchain_gateway_backe.Audit.Anchored.{
  IsAnchoredAt, verify_log_integrity_anchored, classify_integrity_anchored,
}

judge_proofs_valid :
    (sha3 : List ℕ → List ℕ) (hash : Text) (l : AuditLog) (root : Text)
    (proofs : List MerkleProofRow)
    → (judge_proofs sha3 hash l root proofs).verdict ≡ valid_log
    → reconstructed_root sha3 l.hash_value proofs ≡ root
unfolding judge_proofs
judge_proofs_valid sha3 hash l root proofs h =
    (text_eq_iff (reconstructed_root sha3 l.hash_value proofs) root).0 (ground arith)

pub reconstructed_root_replays :
    (sha3 : List ℕ → List ℕ) (hash : Text) (proofs : List MerkleProofRow)
    → reconstructed_root sha3 hash proofs
      ≡ reconstruct_merkle_root sha3 hash (to_merkle_proof_data proofs)
unfolding reconstructed_root reconstruct_merkle_root to_merkle_proof_data
reconstructed_root_replays sha3 hash [] = refl
reconstructed_root_replays sha3 hash (p ∷ ps) = refl

generate_sha3_256-IsHash :
    (sha3 : List ℕ → List ℕ)
    → ((bs : List ℕ) → IsDigest (sha3 bs))
    → (bs : List ℕ) → IsHash (generate_sha3_256 sha3 bs)
unfolding generate_sha3_256
generate_sha3_256-IsHash sha3 digests bs = record {
  digest = sha3 bs;
  is_digest = digests bs;
  encoded = refl;
}

module _ (remarshal : Text → Option Text) (sha3 : List ℕ → List ℕ)
    (digests : (bs : List ℕ) → IsDigest (sha3 bs)) (lookup : Lookup) where
  -- the steps that the gateway replays for an anchored log
  abbrev pub steps_for : List MerkleProofRow → Text → List ProofStep
  steps_for rows root = to_merkle_proof_data (proofs_for_anchor_root rows root)

  -- the text that is hashed for the row
  abbrev pub hashed_text : AuditLog → Text
  hashed_text l = join_fields (log_fields remarshal (canonicalize_log l))

  generate_log_hash-IsHash : (l : AuditLog) → IsHash (generate_log_hash remarshal sha3 l)
  unfolding generate_log_hash
  generate_log_hash-IsHash l =
      generate_sha3_256-IsHash sha3 digests (join_fields (log_fields remarshal l))

  valid_reaches_root :
      (anchors : Text → AnchorReply) (l : AuditLog) (root : Text) (rows : List MerkleProofRow)
      → is_hash_still_pending l ≡ false
      → IsAnchoredAt remarshal sha3 lookup anchors (canonicalize_log l) root rows
      → (classify_integrity remarshal sha3 lookup (some anchors) l).verdict ≡ valid_log
      → reconstruct_merkle_root sha3
          (generate_log_hash remarshal sha3 (canonicalize_log l))
          (steps_for rows root)
        ≡ root
  valid_reaches_root anchors l root rows final at v =
      ap (λ h. reconstruct_merkle_root sha3 h (steps_for rows root)) at.rehashed
      ∙ sym (reconstructed_root_replays sha3 _ (proofs_for_anchor_root rows root))
      ∙ judge_proofs_valid sha3 (generate_log_hash remarshal sha3 (canonicalize_log l))
          (canonicalize_log l) root (proofs_for_anchor_root rows root)
          (rw (classify_integrity_anchored remarshal sha3 lookup anchors l root rows final at) at v)

  -- Two logs that the dashboard calls valid under one anchored root, with proofs of the same
  -- shape: if a hashed field of one differs from the other's, then sha3 collides, either on the
  -- texts of the two logs or on bytes that a step of each proof hashes. So a valid log that was
  -- changed costs a collision. (Digests are 32 bytes; the fields but the metadata hold no
  -- separator; the proof rows hold hashes.)
  pub valid_logs_collide :
      (anchors : Text → AnchorReply) (l k : AuditLog) (root : Text)
      (rows rows' : List MerkleProofRow)
      → is_hash_still_pending l ≡ false
      → is_hash_still_pending k ≡ false
      → IsAnchoredAt remarshal sha3 lookup anchors (canonicalize_log l) root rows
      → IsAnchoredAt remarshal sha3 lookup anchors (canonicalize_log k) root rows'
      → HasPlainFields (canonicalize_log l)
      → HasPlainFields (canonicalize_log k)
      → HasHashes (steps_for rows root)
      → HasHashes (steps_for rows' root)
      → sides (steps_for rows root) ≡ sides (steps_for rows' root)
      → (classify_integrity remarshal sha3 lookup (some anchors) l).verdict ≡ valid_log
      → (classify_integrity remarshal sha3 lookup (some anchors) k).verdict ≡ valid_log
      → log_fields remarshal (canonicalize_log l) ≢ log_fields remarshal (canonicalize_log k)
      → Collision sha3 (hashed_text l ∷ []) (hashed_text k ∷ [])
        ⊎ Collision sha3
            (replay_inputs sha3
              (generate_log_hash remarshal sha3 (canonicalize_log l))
              (steps_for rows root))
            (replay_inputs sha3
              (generate_log_hash remarshal sha3 (canonicalize_log k))
              (steps_for rows' root))
  valid_logs_collide anchors l k root rows rows' fl fk al ak pl pk hl hk same vl vk ne =
      let x : Text = generate_log_hash remarshal sha3 (canonicalize_log l) in
      let y : Text = generate_log_hash remarshal sha3 (canonicalize_log k) in
      elim (Bool-cases (text_eq x y)) [
        | inl e ↦ inl (
            changed_log_collides remarshal sha3 (canonicalize_log l) (canonicalize_log k) digests pl
              pk ne ((text_eq_iff x y).0 e))
        | inr e ↦ inr (
            forged_leaf_collides sha3 digests (steps_for rows root) (steps_for rows' root) x y
              (generate_log_hash-IsHash (canonicalize_log l))
              (generate_log_hash-IsHash (canonicalize_log k)) hl hk same
              (λ q. cc ((text_eq_iff x y).1 q))
              (valid_reaches_root anchors l root rows fl al vl
                ∙ sym (valid_reaches_root anchors k root rows' fk ak vk)))
      ]

-- no proof row for the hash
legacy_success :
    (sha3 : List ℕ → List ℕ) (hash : Text) (l : AuditLog) (root : Text)
    → l.merkle_root ≡ root
    → text_eq l.hash_value root ≡ false
    → ((verify_proofs sha3 hash l root []).status ≡ success)
      × ((judge_proofs sha3 hash l root []).verdict ≡ unreachable_log)
unfolding verify_proofs judge_proofs names_other_root reconstructed_root
legacy_success sha3 hash l root m h = ground (arith, text_eq_iff l.merkle_root root)

proofs_for_anchor_root-nil : (root : Text) → proofs_for_anchor_root [] root ≡ []
unfolding proofs_for_anchor_root select
proofs_for_anchor_root-nil root = ground arith

-- For a log that rehashes to its hash, whose Merkle root is the root that Fabric has for its
-- anchor, but that has no proof row and whose hash is not the root itself, a verification of the
-- log reports success, where the dashboard's lists report it unreachable.
pub unproven_log_verifies :
    (remarshal : Text → Option Text) (sha3 : List ℕ → List ℕ) (lookup : Lookup)
    (anchors : Text → AnchorReply) (l : AuditLog) (root : Text)
    → is_hash_still_pending l ≡ false
    → IsAnchoredAt remarshal sha3 lookup anchors (canonicalize_log l) root []
    → (canonicalize_log l).merkle_root ≡ root
    → text_eq (canonicalize_log l).hash_value root ≡ false
    → ((verify_log_integrity remarshal sha3 lookup (some anchors) l).status ≡ success)
      × ((classify_integrity remarshal sha3 lookup (some anchors) l).verdict ≡ unreachable_log)
unproven_log_verifies remarshal sha3 lookup anchors l root final at m h =
    let (v, j) =
      legacy_success sha3 (generate_log_hash remarshal sha3 (canonicalize_log l))
        (canonicalize_log l) root m h in
    rw
      (
        verify_log_integrity_anchored remarshal sha3 lookup anchors l root [] final at,
        classify_integrity_anchored remarshal sha3 lookup anchors l root [] final at,
        proofs_for_anchor_root-nil root,
      )
      (v, j)
