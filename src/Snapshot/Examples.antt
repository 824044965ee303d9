-- ===== src/Snapshot/Examples.antt =====
-- A snapshot that is built and read back, with simple codecs.
use auditchain_gateway_backe.Prelude.{ℕ, ◌≡◌, refl, true, none, some, List, [], replicate, arith}
use auditchain_gateway_backe.Prelude.Text.{Text, codes}
use auditchain_gateway_backe.Prelude.Int.{pos}
use auditchain_gateway_backe.Model.{AuditLog}
use auditchain_gateway_backe.Outbox.{SnapshotOutbox, audit_snapshot, outbox_pending}
use auditchain_gateway_backe.Samples.{received_log}
use auditchain_gateway_backe.Snapshot.{Cipher, new_cipher, encrypt, decrypt, build}
use auditchain_gateway_backe.Snapshot.Restore.{decrypt-encrypt}
use auditchain_gateway_backe.Snapshot.Codec.{codecs, codecs-HasLaws, all_ascii}

abbrev hashed : AuditLog
hashed = record (received_log (codes "a") (pos 5)) { hash_value = codes "0a" }

abbrev cipher : Cipher
cipher = record { cipher_key_id = codes "k1"; key = replicate 32 7 }

abbrev iv : List ℕ
iv = replicate 12 1

abbrev sealed_text : Text
sealed_text = elim (encrypt codecs cipher (some iv) (codes "hi")) [ some s ↦ s | none ↦ [] ]

is_made : new_cipher (codes "k1") (replicate 32 7) ≡ some cipher
unfolding new_cipher
is_made = refl

is_sealed : encrypt codecs cipher (some iv) (codes "hi") ≡ some sealed_text
unfolding encrypt
is_sealed = refl

key_is_ascii : all_ascii (codes "k1") ≡ true
unfolding all_ascii
key_is_ascii = refl

decrypt-encrypt_example : decrypt codecs cipher sealed_text ≡ some (codes "hi")
decrypt-encrypt_example =
    decrypt-encrypt codecs codecs-HasLaws (codes "k1") (replicate 32 7) cipher iv (codes "hi")
      sealed_text is_made key_is_ascii (omega arith) (omega arith) refl is_sealed

abbrev built_row : SnapshotOutbox
built_row = elim (build codecs (some cipher) (pos 9) (some iv) (codes "o1") hashed) [
  | some row ↦ row
  | none ↦ record {
    id = [];
    log_id = [];
    event_type = audit_snapshot;
    payload = [];
    status = outbox_pending;
    attempt_count = 0;
    next_attempt_at = none;
    locked_at = none;
    locked_by = [];
    last_error = [];
    processed_at = none;
    created_at = pos 0;
  }
]
