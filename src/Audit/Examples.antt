-- ===== src/Audit/Examples.antt =====
-- The judgements at concrete logs, under a digest that maps all texts to 32 zero bytes.
use auditchain_gateway_backe.Prelude.{
  ℕ, ◌≡◌, ◌≢◌, refl, ap, get_elem?, ◌⊎◌, Bool, false, Option, none, some, List, [], ◌∷◌, replicate,
  arith,
}
use auditchain_gateway_backe.Prelude.Text.{Text, codes, text_eq, trim_space, is_blank}
use auditchain_gateway_backe.Prelude.Table.{select}
use auditchain_gateway_backe.Prelude.Int.{pos}
use auditchain_gateway_backe.Hex.{hex_encode}
use auditchain_gateway_backe.Merkle.{generate_sha3_256, reconstruct_merkle_root, hash_nodes}
use auditchain_gateway_backe.Merkle.Collision.{IsDigest, Collision, HasHashes, replay_inputs}
use auditchain_gateway_backe.Model.{
  AuditLog, MerkleProofRow, anchored, verified, not_checked, unknown_source,
}
use auditchain_gateway_backe.LogHash.{log_fields, canonical_context, generate_log_hash}
use auditchain_gateway_backe.LogHash.Binding.{HasPlainFields}
use auditchain_gateway_backe.Audit.{
  AnchorReply, names_other_root, reconstructed_root, root_reply, Lookup, is_hash_still_pending,
  canonicalize_log, proofs_for_anchor_root, to_merkle_proof_data,
}
use auditchain_gateway_backe.Audit.Evidence.{valid_log, unreachable_log, classify_integrity}
use auditchain_gateway_backe.Audit.Verify.{success, verify_log_integrity}
use auditchain_gateway_backe.Audit.Agree.{result_proof, verification_agrees}
use auditchain_gateway_backe.Audit.Anchored.{IsAnchoredAt}
use auditchain_gateway_backe.Audit.Sound.{
  hashed_text, steps_for, valid_logs_collide, unproven_log_verifies,
}

abbrev plain_json : Text → Option Text
plain_json s = none

abbrev zero_sha3 : List ℕ → List ℕ
zero_sha3 bs = replicate 32 0

abbrev zero_hash : Text
zero_hash = replicate 64 48

abbrev other_root : Text
other_root = replicate 64 49

zero_sha3-IsDigest : (bs : List ℕ) → IsDigest (zero_sha3 bs)
zero_sha3-IsDigest bs = record { size = refl; bytes = omega arith }

abbrev anchored_log : Text → Text → AuditLog
anchored_log actor root = record {
  log_id = codes "log-1";
  client_id = codes "c1";
  actor = actor;
  action = codes "UPDATE";
  resource = codes "users:7";
  timestamp = pos 12;
  db_timestamp = none;
  source_system = codes "RS";
  authorization_context = codes "null";
  metadata = codes "{}";
  is_latest = false;
  hash_value = zero_hash;
  merkle_root = root;
  blockchain_tx_id = some (codes "ANCHOR_1");
  blockchain_timestamp = some (pos 99);
  status = anchored;
  snapshot_status = verified;
  integrity_status = not_checked;
  integrity_checked_at = none;
  integrity_source = unknown_source;
  integrity_run_id = [];
}

abbrev one_row : List MerkleProofRow
one_row =
    record {
      transaction_hash = zero_hash;
      sibling_hash = zero_hash;
      is_left = false;
      tree_level = 0;
      merkle_root = zero_hash;
    }
    ∷ []

abbrev finds : List MerkleProofRow → Lookup
finds rows hash = some rows

abbrev answers : Text → Text → AnchorReply
answers root id = root_reply root

log-IsAnchoredAt :
    (actor : Text)
    → IsAnchoredAt plain_json zero_sha3
        (finds one_row)
        (answers zero_hash)
        (canonicalize_log (anchored_log actor zero_hash))
        zero_hash
        one_row
unfolding canonicalize_log generate_log_hash generate_sha3_256 trim_space text_eq hex_encode
log-IsAnchoredAt actor = record {
  rehashed = refl;
  status = refl;
  id = codes "ANCHOR_1";
  has_id = refl;
  not_empty = refl;
  not_placeholder = refl;
  raw = zero_hash;
  replied = refl;
  trimmed = refl;
  has_root = refl;
  found = refl;
}

unproven-IsAnchoredAt :
    IsAnchoredAt plain_json zero_sha3
      (finds [])
      (answers other_root)
      (canonicalize_log (anchored_log (codes "budi") other_root))
      other_root
      []
unfolding canonicalize_log generate_log_hash generate_sha3_256 trim_space text_eq hex_encode
unproven-IsAnchoredAt = record {
  rehashed = refl;
  status = refl;
  id = codes "ANCHOR_1";
  has_id = refl;
  not_empty = refl;
  not_placeholder = refl;
  raw = other_root;
  replied = refl;
  trimmed = refl;
  has_root = refl;
  found = refl;
}

log_is_final : (actor root : Text) → is_hash_still_pending (anchored_log actor root) ≡ false
unfolding is_hash_still_pending
log_is_final actor root = refl

budi-HasPlainFields : HasPlainFields (canonicalize_log (anchored_log (codes "budi") zero_hash))
unfolding canonicalize_log canonical_context
budi-HasPlainFields = omega arith

siti-HasPlainFields : HasPlainFields (canonicalize_log (anchored_log (codes "siti") zero_hash))
unfolding canonicalize_log canonical_context
siti-HasPlainFields = omega arith

zero_hash-HasHashes :
    HasHashes (steps_for plain_json zero_sha3 zero_sha3-IsDigest (finds one_row) one_row zero_hash)
unfolding to_merkle_proof_data proofs_for_anchor_root hex_encode is_blank select text_eq trim_space
zero_hash-HasHashes =
    (record { digest = replicate 32 0; is_digest = zero_sha3-IsDigest []; encoded = refl }, tt)

budi_is_valid :
    (classify_integrity plain_json zero_sha3
      (finds one_row)
      (some (answers zero_hash))
      (anchored_log (codes "budi") zero_hash)).verdict
    ≡ valid_log
unfolding classify_integrity generate_log_hash generate_sha3_256 hex_encode is_hash_still_pending
    canonicalize_log trim_space names_other_root proofs_for_anchor_root is_blank select
    reconstructed_root reconstruct_merkle_root hash_nodes
budi_is_valid = refl

siti_is_valid :
    (classify_integrity plain_json zero_sha3
      (finds one_row)
      (some (answers zero_hash))
      (anchored_log (codes "siti") zero_hash)).verdict
    ≡ valid_log
unfolding classify_integrity generate_log_hash generate_sha3_256 hex_encode is_hash_still_pending
    canonicalize_log trim_space names_other_root proofs_for_anchor_root is_blank select
    reconstructed_root reconstruct_merkle_root hash_nodes
siti_is_valid = refl

is_actor : Text → Option Text → Bool
is_actor name none = false
is_actor name (some actor) = text_eq actor name

fields_differ :
    log_fields plain_json (canonicalize_log (anchored_log (codes "budi") zero_hash))
    ≢ log_fields plain_json (canonicalize_log (anchored_log (codes "siti") zero_hash))
unfolding log_fields canonicalize_log text_eq is_actor
fields_differ e = cc (ap (λ fields. is_actor (codes "budi") (get_elem? fields 1)) e)

valid_logs_collide_example :
    Collision zero_sha3
      (hashed_text plain_json zero_sha3 zero_sha3-IsDigest
          (finds one_row)
          (anchored_log (codes "budi") zero_hash)
        ∷ [])
      (hashed_text plain_json zero_sha3 zero_sha3-IsDigest
          (finds one_row)
          (anchored_log (codes "siti") zero_hash)
        ∷ [])
    ⊎ Collision zero_sha3
        (replay_inputs zero_sha3
          (generate_log_hash plain_json zero_sha3
            (canonicalize_log (anchored_log (codes "budi") zero_hash)))
          (steps_for plain_json zero_sha3 zero_sha3-IsDigest (finds one_row) one_row zero_hash))
        (replay_inputs zero_sha3
          (generate_log_hash plain_json zero_sha3
            (canonicalize_log (anchored_log (codes "siti") zero_hash)))
          (steps_for plain_json zero_sha3 zero_sha3-IsDigest (finds one_row) one_row zero_hash))
valid_logs_collide_example =
    valid_logs_collide plain_json zero_sha3 zero_sha3-IsDigest (finds one_row) (answers zero_hash)
      (anchored_log (codes "budi") zero_hash) (anchored_log (codes "siti") zero_hash) zero_hash
      one_row one_row (log_is_final (codes "budi") zero_hash)
      (log_is_final (codes "siti") zero_hash) (log-IsAnchoredAt (codes "budi"))
      (log-IsAnchoredAt (codes "siti")) budi-HasPlainFields siti-HasPlainFields zero_hash-HasHashes
      zero_hash-HasHashes refl budi_is_valid siti_is_valid fields_differ

unproven_log_verifies_example :
    ((verify_log_integrity plain_json zero_sha3
        (finds [])
        (some (answers other_root))
        (anchored_log (codes "budi") other_root)).status
      ≡ success)
    × ((classify_integrity plain_json zero_sha3
          (finds [])
          (some (answers other_root))
          (anchored_log (codes "budi") other_root)).verdict
        ≡ unreachable_log)
unfolding canonicalize_log text_eq
unproven_log_verifies_example =
    unproven_log_verifies plain_json zero_sha3 (finds []) (answers other_root)
      (anchored_log (codes "budi") other_root) other_root (log_is_final (codes "budi") other_root)
      unproven-IsAnchoredAt refl refl

verification_agrees_example :
    (verify_log_integrity plain_json zero_sha3
      (finds one_row)
      (some (answers zero_hash))
      (anchored_log (codes "budi") zero_hash)).proof_status
    ≡ result_proof
        (classify_integrity plain_json zero_sha3
          (finds one_row)
          (some (answers zero_hash))
          (anchored_log (codes "budi") zero_hash)).proof_status
unfolding text_eq
verification_agrees_example =
    verification_agrees plain_json zero_sha3 (finds one_row) (some (answers zero_hash))
      (anchored_log (codes "budi") zero_hash) (codes "ANCHOR_1") refl refl refl refl
