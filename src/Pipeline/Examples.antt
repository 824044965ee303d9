-- ===== src/Pipeline/Examples.antt =====
-- A batch of two logs.
use auditchain_gateway_backe.Prelude.{
  ℕ, ◌≤◌, ◌≡◌, refl, true, List, [], ◌∷◌, ◌++◌, replicate, arith, none, some, Option,
}
use auditchain_gateway_backe.Prelude.Text.{Text, codes, text_eq, trim_space}
use auditchain_gateway_backe.Prelude.Int.{pos}
use auditchain_gateway_backe.Prelude.Counts.{All, count, Distinct, Distinct-nil, Distinct-cons}
use auditchain_gateway_backe.Prelude.Table.{select, update_where, count_where}
use auditchain_gateway_backe.Merkle.{
  MerkleResult, build_merkle_tree, verify_merkle_proof, hash_nodes,
}
use auditchain_gateway_backe.Model.{AuditLog, hashed, anchored}
use auditchain_gateway_backe.Samples.{received_log}
use auditchain_gateway_backe.Hex.{hex_encode}
use auditchain_gateway_backe.Merkle.{generate_sha3_256}
use auditchain_gateway_backe.LogHash.{generate_log_hash}
use auditchain_gateway_backe.Audit.{
  AnchorReply, root_reply, canonicalize_log, get_proofs_by_hash, is_hash_still_pending,
}
use auditchain_gateway_backe.Audit.Evidence.{
  judge, valid_log, verified_merkle_proof, classify_integrity,
}
use auditchain_gateway_backe.Audit.Anchored.{IsAnchoredAt}
use auditchain_gateway_backe.Pipeline.Progress.{log_ids, IsWaiting, waiting_batch_commits}
use auditchain_gateway_backe.Pipeline.Verdict.{stored_lookup, anchored_log_is_valid}
use auditchain_gateway_backe.Pipeline.{Store, hash_values, process_rows}
use auditchain_gateway_backe.Pipeline.Stored.{batch_metadata, stored_steps, stored_proofs_verify}

abbrev zero_sha3 : List ℕ → List ℕ
zero_sha3 bs = replicate 32 0

abbrev hashed_log : Text → Text → AuditLog
hashed_log id hash = record (received_log id (pos 5)) { hash_value = hash; status = hashed }

abbrev first_log : AuditLog
first_log = hashed_log (codes "a") (codes "0a")

abbrev second_log : AuditLog
second_log = hashed_log (codes "b") (codes "0b")

abbrev hashed_store : Store
hashed_store = record { logs = first_log ∷ second_log ∷ []; metadata = []; proofs = [] }

abbrev aggregated_store : Store
aggregated_store = (process_rows zero_sha3 (first_log ∷ second_log ∷ []) hashed_store).0

batch-Distinct : Distinct (hash_values (first_log ∷ second_log ∷ []))
unfolding count text_eq
batch-Distinct =
    Distinct-cons (codes "0a") (codes "0b" ∷ []) refl
      (Distinct-cons (codes "0b") [] refl Distinct-nil)

batch_aggregates :
    process_rows zero_sha3 (first_log ∷ second_log ∷ []) hashed_store ≡ (aggregated_store, true)
unfolding process_rows build_merkle_tree count_where update_where text_eq
batch_aggregates = refl

second_is_member : 1 ≤ count (codes "0b") (hash_values (first_log ∷ second_log ∷ []))
unfolding count text_eq
second_is_member = omega arith

stored_proofs_verify_example :
    (root : Text) × (aggregated_store.metadata
      ≡ [] ++ batch_metadata root (first_log ∷ second_log ∷ []) ∷ [])
    × (verify_merkle_proof zero_sha3 (codes "0b") (stored_steps aggregated_store (codes "0b")) root
        ≡ true)
unfolding select
stored_proofs_verify_example =
    stored_proofs_verify zero_sha3 first_log (second_log ∷ []) hashed_store aggregated_store
      (codes "0b") batch-Distinct refl second_is_member batch_aggregates

-- a batch whose first log rehashes to its hash
abbrev zero_hash : Text
zero_hash = replicate 64 48

abbrev true_log : AuditLog
true_log = hashed_log (codes "a") zero_hash

abbrev true_store : Store
true_store = record { logs = true_log ∷ second_log ∷ []; metadata = []; proofs = [] }

abbrev true_aggregated : Store
true_aggregated = (process_rows zero_sha3 (true_log ∷ second_log ∷ []) true_store).0

abbrev anchored_row : AuditLog
anchored_row = record true_log {
  merkle_root = zero_hash;
  status = anchored;
  blockchain_tx_id = some (codes "ANCHOR_1");
}

abbrev plain_json : Text → Option Text
plain_json s = none

abbrev answers : Text → AnchorReply
answers id = root_reply zero_hash

true-Distinct : Distinct (hash_values (true_log ∷ second_log ∷ []))
unfolding count text_eq
true-Distinct =
    Distinct-cons zero_hash (codes "0b" ∷ []) refl (Distinct-cons (codes "0b") [] refl Distinct-nil)

true_batch_aggregates :
    process_rows zero_sha3 (true_log ∷ second_log ∷ []) true_store ≡ (true_aggregated, true)
unfolding process_rows build_merkle_tree count_where update_where text_eq
true_batch_aggregates = refl

true_metadata :
    true_aggregated.metadata
    ≡ true_store.metadata ++ batch_metadata zero_hash (true_log ∷ second_log ∷ []) ∷ []
unfolding process_rows build_merkle_tree count_where update_where text_eq hash_nodes hex_encode
true_metadata = refl

true_is_member :
    1 ≤ count (canonicalize_log anchored_row).hash_value (hash_values (true_log ∷ second_log ∷ []))
unfolding count text_eq canonicalize_log
true_is_member = omega arith

row-IsAnchoredAt :
    IsAnchoredAt plain_json zero_sha3
      (stored_lookup true_aggregated)
      answers
      (canonicalize_log anchored_row)
      zero_hash
      (get_proofs_by_hash (canonicalize_log anchored_row).hash_value true_aggregated.proofs)
unfolding canonicalize_log generate_log_hash generate_sha3_256 trim_space text_eq hex_encode
row-IsAnchoredAt = record {
  rehashed = refl;
  status = refl;
  id = codes "ANCHOR_1";
  has_id = refl;
  not_empty = refl;
  not_placeholder = refl;
  raw = zero_hash;
  replied = refl;
  trimmed = refl;
  has_root = refl;
  found = refl;
}

anchored_log_is_valid_example :
    classify_integrity plain_json zero_sha3
      (stored_lookup true_aggregated)
      (some answers)
      anchored_row
    ≡ judge valid_log verified_merkle_proof
unfolding select is_hash_still_pending canonicalize_log text_eq
anchored_log_is_valid_example =
    anchored_log_is_valid plain_json zero_sha3 true_log (second_log ∷ []) true_store true_aggregated
      zero_hash answers anchored_row true-Distinct refl true_is_member true_batch_aggregates
      true_metadata refl refl row-IsAnchoredAt

abbrev build_root : Option MerkleResult → MerkleResult
build_root none = record { root = []; proofs = [] }
build_root (some r) = r

-- the tree of the batch of two logs
abbrev built_tree : MerkleResult
built_tree = record {
  root =
      (build_root (build_merkle_tree zero_sha3 (hash_values (first_log ∷ second_log ∷ [])))).root;
  proofs =
      (build_root (build_merkle_tree zero_sha3 (hash_values (first_log ∷ second_log ∷ [])))).proofs;
}

tree_is_built :
    build_merkle_tree zero_sha3 (hash_values (first_log ∷ second_log ∷ [])) ≡ some built_tree
unfolding build_merkle_tree
tree_is_built = refl

ids-Distinct : Distinct (log_ids (first_log ∷ second_log ∷ []))
unfolding count text_eq
ids-Distinct =
    Distinct-cons (codes "a") (codes "b" ∷ []) refl (Distinct-cons (codes "b") [] refl Distinct-nil)

logs_wait : All (IsWaiting hashed_store.logs) (first_log ∷ second_log ∷ [])
unfolding count_where text_eq
logs_wait = (refl, (refl, tt))

waiting_batch_commits_example :
    (process_rows zero_sha3 (first_log ∷ second_log ∷ []) hashed_store).1 ≡ true
unfolding count_where
waiting_batch_commits_example =
    waiting_batch_commits zero_sha3 first_log (second_log ∷ []) hashed_store built_tree
      tree_is_built ids-Distinct logs_wait refl
