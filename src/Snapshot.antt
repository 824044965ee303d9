-- ===== src/Snapshot.antt =====
-- Snapshots of audit logs and their encryption (internal/storage/snapshotstore: snapshot.go,
-- crypto.go and outbox.go).
pub mod Restore
mod Codec
mod Examples
use auditchain_gateway_backe.Prelude.{
  ℕ, Bool, true, false, not, ◌&&◌, ◌||◌, Option, none, some, List, [], ◌∷◌, length, ◌==◌,
  if◌then◌else◌,
}
use auditchain_gateway_backe.Prelude.Text.{Text, codes, text_eq, is_empty, is_blank}
use auditchain_gateway_backe.Prelude.Int.{ℤ}
use auditchain_gateway_backe.Base64.{base64_encode, base64_decode}
use auditchain_gateway_backe.Model.{AuditLog}
use auditchain_gateway_backe.Outbox.{SnapshotOutbox, audit_snapshot, outbox_pending}

pub record AuditSnapshot : Type 0 where
  pub schema_version : ℕ
  pub snapshot_type : Text
  pub log_id : Text
  pub client_id : Text
  pub actor : Text
  pub action : Text
  pub resource : Text
  pub timestamp : ℤ
  pub db_timestamp : Option ℤ
  pub source_system : Text
  pub authorization_context : Text
  pub metadata : Text
  pub hash_algorithm : Text
  pub hash_value : Text
  pub captured_at : ℤ

pub record EncryptedEnvelope : Type 0 where
  pub envelope_version : ℕ
  pub algorithm : Text
  pub key_id : Text
  pub nonce : Text
  pub ciphertext : Text

-- What the code takes from the libraries: encoding/json on the two records, its test Valid and its
-- function Compact, utf8.ValidString of unicode/utf8, and AES-GCM of crypto/cipher with a key and a
-- nonce (`none`: the authentication fails).
pub record Codecs : Type 0 where
  pub utf8_valid : Text → Bool
  pub compact : Text → Text
  pub json_valid : Text → Bool
  pub marshal_snapshot : AuditSnapshot → List ℕ
  pub unmarshal_snapshot : List ℕ → Option AuditSnapshot
  pub marshal_envelope : EncryptedEnvelope → Text
  pub unmarshal_envelope : Text → Option EncryptedEnvelope
  pub seal : List ℕ → List ℕ → List ℕ → List ℕ
  pub unseal : List ℕ → List ℕ → List ℕ → Option (List ℕ)

pub record Cipher : Type 0 where
  pub cipher_key_id : Text
  pub key : List ℕ

abbrev pub aes_256_gcm : Text
aes_256_gcm = codes "AES-256-GCM"

abbrev pub audit_log_type : Text
audit_log_type = codes "AUDIT_LOG"

-- NonceSize of GCM
abbrev pub nonce_size : ℕ
nonce_size = 12

unfoldable pub new_cipher : Text → List ℕ → Option Cipher
new_cipher id key =
    if is_empty id
    then none
    else if length key == 32
    then some (record { cipher_key_id = id; key = key })
    else none

-- aes.NewCipher takes keys of 16, 24 and 32 bytes
abbrev pub is_aes_key : List ℕ → Bool
is_aes_key key = length key == 16 || length key == 24 || length key == 32

module _ (lib : Codecs) where
  open lib use {
    json_valid, marshal_snapshot, unmarshal_snapshot, marshal_envelope, unmarshal_envelope, seal,
    unseal,
  }

  -- Encrypt, for the bytes that the random reader gives (`none`: its error)
  unfoldable pub encrypt : Cipher → Option (List ℕ) → List ℕ → Option Text
  encrypt c none plaintext = none
  encrypt c (some random) plaintext =
      if is_aes_key c.key
      then some (
          marshal_envelope (record {
            envelope_version = 1;
            algorithm = aes_256_gcm;
            key_id = c.cipher_key_id;
            nonce = base64_encode random;
            ciphertext = base64_encode (seal c.key random plaintext);
          }))
      else none

  open_sealed : Cipher → Option (List ℕ) → Option (List ℕ) → Option (List ℕ)
  open_sealed c (some iv) (some bytes) =
      if is_aes_key c.key && length iv == nonce_size then unseal c.key iv bytes else none
  open_sealed c _ _ = none

  unfoldable pub decrypt_envelope : Cipher → EncryptedEnvelope → Option (List ℕ)
  unfolding open_sealed text_eq
  decrypt_envelope c e =
      if not (e.envelope_version == 1) || not (text_eq e.algorithm aes_256_gcm)
      then none
      else if not (text_eq e.key_id c.cipher_key_id)
      then none
      else open_sealed c (base64_decode e.nonce) (base64_decode e.ciphertext)

  -- Decrypt
  unfoldable pub decrypt : Cipher → Text → Option (List ℕ)
  decrypt c encrypted = elim (unmarshal_envelope encrypted) [
    | none ↦ none
    | some e ↦ decrypt_envelope c e
  ]

  -- the metadata that NewAuditSnapshot keeps
  unfoldable pub snapshot_metadata : Text → Text
  snapshot_metadata raw = if is_blank raw then codes "null" else raw

  abbrev pub snapshot_of : AuditLog → ℤ → AuditSnapshot
  snapshot_of l now = record {
    schema_version = 1;
    snapshot_type = audit_log_type;
    log_id = l.log_id;
    client_id = l.client_id;
    actor = l.actor;
    action = l.action;
    resource = l.resource;
    timestamp = l.timestamp;
    db_timestamp = l.db_timestamp;
    source_system = l.source_system;
    authorization_context = l.authorization_context;
    metadata = snapshot_metadata l.metadata;
    hash_algorithm = codes "SHA3-256";
    hash_value = l.hash_value;
    captured_at = now;
  }

  unfoldable pub new_audit_snapshot : AuditLog → ℤ → Option (List ℕ)
  new_audit_snapshot l now =
      if json_valid (snapshot_metadata l.metadata)
      then some (marshal_snapshot (snapshot_of l now))
      else none

  check_snapshot : AuditSnapshot → Option AuditSnapshot
  unfolding text_eq
  check_snapshot s =
      if not (s.schema_version == 1)
      then none
      else if not (text_eq s.snapshot_type audit_log_type)
      then none
      else if is_empty s.log_id || is_empty s.client_id || is_empty s.hash_value
      then none
      else if json_valid s.metadata
      then some s
      else none

  unfoldable pub parse_audit_snapshot : List ℕ → Option AuditSnapshot
  unfolding check_snapshot
  parse_audit_snapshot payload = elim (unmarshal_snapshot payload) [
    | none ↦ none
    | some s ↦ check_snapshot s
  ]

  -- Build, with the cipher (`none`: not configured), the clock, the random bytes and the new id
  unfoldable pub build :
      Option Cipher → ℤ → Option (List ℕ) → Text → AuditLog → Option SnapshotOutbox
  build none now random id l = none
  build (some c) now random id l = elim (new_audit_snapshot l now) [
    | none ↦ none
    | some plaintext ↦ elim (encrypt c random plaintext) [
      | none ↦ none
      | some encrypted ↦ some (record {
        id = id;
        log_id = l.log_id;
        event_type = audit_snapshot;
        payload = encrypted;
        status = outbox_pending;
        attempt_count = 0;
        next_attempt_at = none;
        locked_at = none;
        locked_by = [];
        last_error = [];
        processed_at = none;
        created_at = now;
      })
    ]
  ]
