-- ===== src/Pipeline/Stored.antt =====
-- What a committed batch stores is what a verification of its logs needs.
use auditchain_gateway_backe.Prelude.{
  ℕ, ◌≤◌, ◌≡◌, sym, ap, ◌∙◌, Bool, true, Bool-cases, Option-cases, inl, inr, some, List, [], ◌∷◌,
  ◌++◌, arith, leb, length, map,
}
use mathlib.Core.List.{append_assoc}
use auditchain_gateway_backe.Prelude.Text.{Text, text_eq, text_eq_refl}
use auditchain_gateway_backe.Prelude.Counts.{count, Distinct}
use auditchain_gateway_backe.Prelude.Table.{select, select-append, order_by, count_where}
use auditchain_gateway_backe.Merkle.{
  ProofStep, Proofs, MerkleResult, proof_of, build_merkle_tree, verify_merkle_proof,
}
use auditchain_gateway_backe.Merkle.Complete.{
  upto, levels_of, IsComplete, build_merkle_tree-IsComplete,
}
use auditchain_gateway_backe.Model.{AuditLog, MerkleMetadata}
use auditchain_gateway_backe.Audit.{to_merkle_proof_data, get_proofs_by_hash}
use auditchain_gateway_backe.Pipeline.{
  Store, proof_row, hash_values, aggregate_log, aggregate_logs, commit_batch, process_rows,
}
use auditchain_gateway_backe.Pipeline.Rows.{
  rows_of_hash, rows_of_batch, has_hash, by_level, select-rows_of_batch, to_merkle_proof_data-rows,
  order_by-levels, append_nil,
}

aggregate_log-proofs :
    (root : Text) (proofs : Proofs) (l : AuditLog) (s s' : Store)
    → aggregate_log root proofs l s ≡ some s'
    → s'.proofs ≡ s.proofs ++ rows_of_hash root proofs l.hash_value
unfolding aggregate_log
aggregate_log-proofs root proofs l s s' e = ground arith

aggregate_logs-proofs :
    (root : Text) (proofs : Proofs) (ls : List AuditLog) (s s' : Store)
    → aggregate_logs root proofs ls s ≡ some s'
    → s'.proofs ≡ s.proofs ++ rows_of_batch root proofs ls
unfolding aggregate_logs rows_of_batch
aggregate_logs-proofs root proofs [] s s' e =
    let same : s ≡ s' = cc in ap (λ (t : Store). t.proofs) (sym same) ∙ sym (append_nil s.proofs)
aggregate_logs-proofs root proofs (l ∷ ls) s s' e =
    elim (Option-cases (aggregate_log root proofs l s)) [
      | inl n ↦ absurd (cc (rw (n, aggregate_logs) at e))
      | inr (t, found) ↦
          aggregate_logs-proofs root proofs ls t s' (rw (found, aggregate_logs) at e)
          ∙ ap (λ xs. xs ++ rows_of_batch root proofs ls)
              (aggregate_log-proofs root proofs l s t found)
          ∙ append_assoc s.proofs (rows_of_hash root proofs l.hash_value)
              (rows_of_batch root proofs ls)
    ]

aggregate_log-metadata :
    (root : Text) (proofs : Proofs) (l : AuditLog) (s s' : Store)
    → aggregate_log root proofs l s ≡ some s'
    → s'.metadata ≡ s.metadata
unfolding aggregate_log
aggregate_log-metadata root proofs l s s' e = ground arith

aggregate_logs-metadata :
    (root : Text) (proofs : Proofs) (ls : List AuditLog) (s s' : Store)
    → aggregate_logs root proofs ls s ≡ some s'
    → s'.metadata ≡ s.metadata
unfolding aggregate_logs
aggregate_logs-metadata root proofs [] s s' e =
    let same : s ≡ s' = cc in ap (λ (t : Store). t.metadata) (sym same)
aggregate_logs-metadata root proofs (l ∷ ls) s s' e =
    elim (Option-cases (aggregate_log root proofs l s)) [
      | inl n ↦ absurd (cc (rw (n, aggregate_logs) at e))
      | inr (t, found) ↦
          aggregate_logs-metadata root proofs ls t s' (rw (found, aggregate_logs) at e)
          ∙ aggregate_log-metadata root proofs l s t found
    ]

-- the metadata row of a batch
abbrev pub batch_metadata : Text → List AuditLog → MerkleMetadata
batch_metadata root logs = record { root = root; batch_size = length logs }

commit_batch-metadata :
    (r : MerkleResult) (ls : List AuditLog) (s s' : Store)
    → commit_batch r ls s ≡ some s'
    → s'.metadata ≡ s.metadata ++ batch_metadata r.root ls ∷ []
unfolding commit_batch
commit_batch-metadata r ls s s' e =
    elim (Bool-cases
      (leb 1 (count_where (λ (m : MerkleMetadata). text_eq m.root r.root) s.metadata))) [
        | inl taken ↦ absurd (cc (rw (taken, commit_batch) at e))
        | inr fresh ↦
            aggregate_logs-metadata r.root r.proofs ls _ s' (rw (fresh, commit_batch) at e)
      ]

commit_batch-proofs :
    (r : MerkleResult) (ls : List AuditLog) (s s' : Store)
    → commit_batch r ls s ≡ some s'
    → s'.proofs ≡ s.proofs ++ rows_of_batch r.root r.proofs ls
unfolding commit_batch
commit_batch-proofs r ls s s' e =
    elim (Bool-cases
      (leb 1 (count_where (λ (m : MerkleMetadata). text_eq m.root r.root) s.metadata))) [
        | inl taken ↦ absurd (cc (rw (taken, commit_batch) at e))
        | inr fresh ↦ aggregate_logs-proofs r.root r.proofs ls _ s' (rw (fresh, commit_batch) at e)
      ]

process_rows-committed :
    (sha3 : List ℕ → List ℕ) (l : AuditLog) (ls : List AuditLog) (s s' : Store) (r : MerkleResult)
    → build_merkle_tree sha3 (hash_values (l ∷ ls)) ≡ some r
    → process_rows sha3 (l ∷ ls) s ≡ (s', true)
    → commit_batch r (l ∷ ls) s ≡ some s'
unfolding process_rows
process_rows-committed sha3 l ls s s' r built e = elim (Option-cases (commit_batch r (l ∷ ls) s)) [
  | inl n ↦ absurd (cc (rw (built, n, process_rows) at e))
  | inr (t, found) ↦
      found ∙ ap (λ (q : Store × Bool). some q.0) (rw (built, found, process_rows) at e)
]

verify_complete :
    (sha3 : List ℕ → List ℕ) (leaves : List Text) (r : MerkleResult)
    → IsComplete sha3 leaves r
    → (hash : Text) → 1 ≤ count hash leaves
    → verify_merkle_proof sha3 hash (proof_of r.proofs hash) r.root ≡ true
unfolding verify_merkle_proof
verify_complete sha3 leaves r complete hash member =
    rw (complete.reaches_root hash member) (text_eq_refl r.root)

-- no row of this hash is stored yet
abbrev pub IsNew : Store → Text → Type 0
IsNew s hash = select (has_hash hash) s.proofs ≡ []

-- the steps that a verification of the hash replays
abbrev pub stored_steps : Store → Text → List ProofStep
stored_steps s hash = to_merkle_proof_data (get_proofs_by_hash hash s.proofs)

get_proofs_by_hash-added :
    (root : Text) (proofs : Proofs) (hash : Text) (ls : List AuditLog) (s s' : Store) (n : ℕ)
    → s'.proofs ≡ s.proofs ++ rows_of_batch root proofs ls
    → IsNew s hash
    → count hash (hash_values ls) ≡ 1
    → levels_of (proof_of proofs hash) ≡ upto n
    → get_proofs_by_hash hash s'.proofs ≡ rows_of_hash root proofs hash
unfolding get_proofs_by_hash
get_proofs_by_hash-added root proofs hash ls s s' n added new once levels =
    let rows : select (has_hash hash) s'.proofs ≡ rows_of_hash root proofs hash =
      ap (select (has_hash hash)) added
      ∙ select-append (has_hash hash) s.proofs (rows_of_batch root proofs ls)
      ∙ ap (λ xs. xs ++ select (has_hash hash) (rows_of_batch root proofs ls)) new
      ∙ select-rows_of_batch root proofs hash ls once in
    ap (order_by by_level) rows ∙ order_by-levels root hash (proof_of proofs hash) n levels

-- What a committed batch leaves for one of its hashes.
pub record IsStored (sha3 : List ℕ → List ℕ) (logs : List AuditLog) (s s' : Store) (hash : Text)
    : Type 0 where
  pub root : Text
  pub steps : List ProofStep
  pub metadata : s'.metadata ≡ s.metadata ++ batch_metadata root logs ∷ []
  pub rows : get_proofs_by_hash hash s'.proofs ≡ map (proof_row root hash) steps
  pub verifies : verify_merkle_proof sha3 hash steps root ≡ true

pub process_rows-IsStored :
    (sha3 : List ℕ → List ℕ) (l : AuditLog) (ls : List AuditLog) (s s' : Store) (hash : Text)
    → Distinct (hash_values (l ∷ ls))
    → IsNew s hash
    → 1 ≤ count hash (hash_values (l ∷ ls))
    → process_rows sha3 (l ∷ ls) s ≡ (s', true)
    → IsStored sha3 (l ∷ ls) s s' hash
process_rows-IsStored sha3 l ls s s' hash distinct new member done =
    let (r, built, complete) =
      build_merkle_tree-IsComplete sha3 l.hash_value (hash_values ls) distinct in
    let committed = process_rows-committed sha3 l ls s s' r built done in
    record {
      root = r.root;
      steps = proof_of r.proofs hash;
      metadata = commit_batch-metadata r (l ∷ ls) s s' committed;
      rows =
          get_proofs_by_hash-added r.root r.proofs hash (l ∷ ls) s s' complete.rounds
            (commit_batch-proofs r (l ∷ ls) s s' committed) new
            (omega (arith, distinct.once hash, member)) (complete.one_per_round hash member);
      verifies = verify_complete sha3 _ r complete hash member;
    }

-- If a batch of logs with distinct hashes is aggregated with no error, and no proof row of some
-- hash of the batch was stored before, then one row is added to the metadata, and the proof rows of
-- that hash, in the order in which GetProofsByHash returns them, make a proof that verifies against
-- the root of that row.
pub stored_proofs_verify :
    (sha3 : List ℕ → List ℕ) (l : AuditLog) (ls : List AuditLog) (s s' : Store) (hash : Text)
    → Distinct (hash_values (l ∷ ls))
    → IsNew s hash
    → 1 ≤ count hash (hash_values (l ∷ ls))
    → process_rows sha3 (l ∷ ls) s ≡ (s', true)
    → (root : Text) × (s'.metadata ≡ s.metadata ++ batch_metadata root (l ∷ ls) ∷ [])
      × (verify_merkle_proof sha3 hash (stored_steps s' hash) root ≡ true)
stored_proofs_verify sha3 l ls s s' hash distinct new member done =
    let h = process_rows-IsStored sha3 l ls s s' hash distinct new member done in
    (h.root, h.metadata, rw (h.rows, to_merkle_proof_data-rows h.root hash h.steps) h.verifies)
