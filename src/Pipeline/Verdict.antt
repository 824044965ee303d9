-- ===== src/Pipeline/Verdict.antt =====
-- The way of a log through the pipeline and back: what was aggregated and anchored is judged valid.
use auditchain_gateway_backe.Prelude.{
  ℕ, ◌≤◌, ◌≡◌, refl, sym, ap, ◌∙◌, true, false, Bool-cases, inl, inr, Option, some, List, [], ◌∷◌,
  ◌++◌, map, arith,
}
use auditchain_gateway_backe.Prelude.Text.{
  Text, text_eq, text_eq_refl, text_eq_iff, is_blank, trim_space,
}
use auditchain_gateway_backe.Prelude.Counts.{count, Distinct}
use auditchain_gateway_backe.Prelude.Table.{select}
use auditchain_gateway_backe.Merkle.{ProofStep, verify_merkle_proof, reconstruct_merkle_root}
use auditchain_gateway_backe.Model.{AuditLog, MerkleMetadata, MerkleProofRow}
use auditchain_gateway_backe.LogHash.{generate_log_hash}
use auditchain_gateway_backe.Audit.{
  AnchorReply, Lookup, is_hash_still_pending, canonicalize_log, get_proofs_by_hash,
  proofs_for_anchor_root, names_other_root, reconstructed_root, or_else,
}
use auditchain_gateway_backe.Audit.Evidence.{
  valid_log, verified_merkle_proof, judge, judge_proofs, classify_integrity,
}
use auditchain_gateway_backe.Audit.Anchored.{IsAnchoredAt, classify_integrity_anchored}
use auditchain_gateway_backe.Audit.Sound.{reconstructed_root_replays}
use auditchain_gateway_backe.Pipeline.{Store, proof_row, hash_values, process_rows}
use auditchain_gateway_backe.Pipeline.Stored.{IsNew, batch_metadata, process_rows-IsStored}
use auditchain_gateway_backe.Pipeline.Rows.{to_merkle_proof_data-rows}

module _ (root hash : Text) where
  select_same_root :
      (ps : List ProofStep)
      → select
          (λ (p : MerkleProofRow). text_eq (trim_space p.merkle_root) (trim_space root))
          (map (proof_row root hash) ps)
        ≡ map (proof_row root hash) ps
  unfolding select
  select_same_root [] = refl
  select_same_root (p ∷ ps) = rw (text_eq_refl (trim_space root), select_same_root ps) refl

  or_else_same : (rows : List MerkleProofRow) → or_else rows rows ≡ rows
  or_else_same [] = refl
  or_else_same (r ∷ rows) = refl

  proofs_for_anchor_root-rows :
      (ps : List ProofStep)
      → proofs_for_anchor_root (map (proof_row root hash) ps) root ≡ map (proof_row root hash) ps
  unfolding proofs_for_anchor_root
  proofs_for_anchor_root-rows ps = elim (Bool-cases (is_blank root)) [
    | inl e ↦ rw e refl
    | inr e ↦ rw (e, select_same_root ps) (or_else_same (map (proof_row root hash) ps))
  ]

  names_other_root-rows :
      (ps : List ProofStep) → names_other_root root (map (proof_row root hash) ps) ≡ false
  unfolding names_other_root
  names_other_root-rows [] = refl
  names_other_root-rows (p ∷ ps) = rw (text_eq_refl root, names_other_root-rows ps) (ground arith)

judge_proofs-verified :
    (sha3 : List ℕ → List ℕ) (hash : Text) (c : AuditLog) (root : Text)
    (proofs : List MerkleProofRow)
    → c.merkle_root ≡ root
    → names_other_root root proofs ≡ false
    → reconstructed_root sha3 c.hash_value proofs ≡ root
    → judge_proofs sha3 hash c root proofs ≡ judge valid_log verified_merkle_proof
unfolding judge_proofs
judge_proofs-verified sha3 hash c root proofs m n r = ground (
  arith,
  m,
  n,
  r,
  text_eq_refl root,
  text_eq_iff c.merkle_root root,
  text_eq_iff (reconstructed_root sha3 c.hash_value proofs) root,
)

-- one row that is added at the end is determined by the table
last_row {ℓ} : {A : Type ℓ} (xs : List A) (a b : A) → xs ++ a ∷ [] ≡ xs ++ b ∷ [] → a ≡ b
last_row [] a b e = cc
last_row (x ∷ xs) a b e = last_row xs a b (cc)

stored_proof_reaches :
    (sha3 : List ℕ → List ℕ) (root hash : Text) (steps : List ProofStep)
    → verify_merkle_proof sha3 hash steps root ≡ true
    → reconstructed_root sha3 hash (map (proof_row root hash) steps) ≡ root
unfolding verify_merkle_proof
stored_proof_reaches sha3 root hash steps h =
    reconstructed_root_replays sha3 hash (map (proof_row root hash) steps)
    ∙ ap (reconstruct_merkle_root sha3 hash) (to_merkle_proof_data-rows root hash steps)
    ∙ (text_eq_iff (reconstruct_merkle_root sha3 hash steps) root).0 h

-- the proof rows in the database, as the service looks them up
abbrev pub stored_lookup : Store → Lookup
stored_lookup s hash = some (get_proofs_by_hash hash s.proofs)

-- Let a batch of logs with distinct hashes be aggregated with no error, under the root of the new
-- row of the metadata, with no proof row of the log's hash stored before. If the log carries that
-- root and rehashes to a hash of the batch, and Fabric answers for its anchor with that root, then
-- the dashboard judges it valid, with a verified proof.
pub anchored_log_is_valid :
    (remarshal : Text → Option Text) (sha3 : List ℕ → List ℕ) (l : AuditLog) (ls : List AuditLog)
    (s s' : Store) (root : Text) (anchors : Text → AnchorReply) (c : AuditLog)
    → Distinct (hash_values (l ∷ ls))
    → IsNew s (canonicalize_log c).hash_value
    → 1 ≤ count (canonicalize_log c).hash_value (hash_values (l ∷ ls))
    → process_rows sha3 (l ∷ ls) s ≡ (s', true)
    → s'.metadata ≡ s.metadata ++ batch_metadata root (l ∷ ls) ∷ []
    → is_hash_still_pending c ≡ false
    → (canonicalize_log c).merkle_root ≡ root
    → IsAnchoredAt remarshal sha3
        (stored_lookup s')
        anchors
        (canonicalize_log c)
        root
        (get_proofs_by_hash (canonicalize_log c).hash_value s'.proofs)
    → classify_integrity remarshal sha3 (stored_lookup s') (some anchors) c
      ≡ judge valid_log verified_merkle_proof
anchored_log_is_valid remarshal sha3 l ls s s' root anchors c distinct new member done row final
      carries at =
    let hash : Text = (canonicalize_log c).hash_value in
    let h = process_rows-IsStored sha3 l ls s s' hash distinct new member done in
    let same : h.root ≡ root =
      ap (λ (m : MerkleMetadata). m.root)
        (last_row s.metadata (batch_metadata h.root (l ∷ ls)) (batch_metadata root (l ∷ ls))
          (sym h.metadata ∙ row)) in
    let rows : proofs_for_anchor_root (get_proofs_by_hash hash s'.proofs) root
        ≡ map (proof_row root hash) h.steps =
      ap (λ ps. proofs_for_anchor_root ps root)
        (h.rows ∙ ap (λ r. map (proof_row r hash) h.steps) same)
      ∙ proofs_for_anchor_root-rows root hash h.steps in
    classify_integrity_anchored remarshal sha3 (stored_lookup s') anchors c root
      (get_proofs_by_hash hash s'.proofs) final at
    ∙ ap
        (judge_proofs sha3 (generate_log_hash remarshal sha3 (canonicalize_log c))
          (canonicalize_log c) root)
        rows
    ∙ judge_proofs-verified sha3 (generate_log_hash remarshal sha3 (canonicalize_log c))
        (canonicalize_log c) root (map (proof_row root hash) h.steps) carries
        (names_other_root-rows root hash h.steps)
        (stored_proof_reaches sha3 root hash h.steps
          (ap (verify_merkle_proof sha3 hash h.steps) (sym same) ∙ h.verifies))
