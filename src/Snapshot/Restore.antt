-- ===== src/Snapshot/Restore.antt =====
-- What a recovery reads back from a snapshot.
use auditchain_gateway_backe.Prelude.{
  ℕ, ◌<◌, [], ◌∷◌, if◌then◌else◌, ◌≡◌, true, Option, none, some, List, length, arith, ◌==◌,
}
use auditchain_gateway_backe.Prelude.Text.{Text, codes, text_eq_refl, is_blank}
use auditchain_gateway_backe.Prelude.Int.{ℤ}
use auditchain_gateway_backe.Prelude.Counts.{All}
use auditchain_gateway_backe.Base64.{base64_encode}
use auditchain_gateway_backe.Base64.RoundTrip.{IsByte, base64_decode-encode, base64_encode-ascii}
use auditchain_gateway_backe.Model.{AuditLog}
use auditchain_gateway_backe.Snapshot.{
  AuditSnapshot, EncryptedEnvelope, Codecs, Cipher, aes_256_gcm, new_cipher, nonce_size, encrypt,
  decrypt_envelope, decrypt, parse_audit_snapshot,
}

module _ (lib : Codecs) where
  -- Decrypt and then ParseAuditSnapshot
  pub read_snapshot : Cipher → Text → Option AuditSnapshot
  read_snapshot c payload = elim (decrypt lib c payload) [
    | none ↦ none
    | some plaintext ↦ parse_audit_snapshot lib plaintext
  ]

  abbrev pub IsUtf8 : Text → Type 0
  IsUtf8 t = lib.utf8_valid t ≡ true

  -- the texts of a snapshot that are JSON strings
  abbrev pub snapshot_texts : AuditSnapshot → List Text
  snapshot_texts s =
      s.snapshot_type ∷ s.hash_algorithm ∷ s.log_id ∷ s.client_id ∷ s.actor ∷ s.action ∷ s.resource
      ∷ s.source_system ∷ s.authorization_context ∷ s.hash_value ∷ []

  -- What the documentation of encoding/json, unicode/utf8 and crypto/cipher says: records whose
  -- strings are UTF-8 are decoded as they were encoded, but for a raw message, which is compacted;
  -- and an authentic text is opened with the key and the nonce that it was sealed with.
  pub record HasLaws : Type 0 where
    pub ascii : (t : Text) → All (λ (c : ℕ). c < 128) t → IsUtf8 t
    pub envelopes :
        (e : EncryptedEnvelope)
        → IsUtf8 e.algorithm
        → IsUtf8 e.key_id
        → IsUtf8 e.nonce
        → IsUtf8 e.ciphertext
        → lib.unmarshal_envelope (lib.marshal_envelope e) ≡ some e
    pub snapshots :
        (s : AuditSnapshot)
        → All IsUtf8 (snapshot_texts s)
        → lib.json_valid s.metadata ≡ true
        → lib.unmarshal_snapshot (lib.marshal_snapshot s)
          ≡ some (record s { metadata = lib.compact s.metadata })
    pub compacts : (t : Text) → lib.json_valid t ≡ true → lib.json_valid (lib.compact t) ≡ true
    pub opens :
        (key iv plaintext : List ℕ)
        → (length key == 32) ≡ true
        → (length iv == nonce_size) ≡ true
        → lib.unseal key iv (lib.seal key iv plaintext) ≡ some plaintext
    pub bytes :
        (key iv plaintext : List ℕ) → All IsByte plaintext → All IsByte (lib.seal key iv plaintext)
    pub texts :
        (s : AuditSnapshot)
        → All IsUtf8 (snapshot_texts s)
        → lib.json_valid s.metadata ≡ true
        → All IsByte (lib.marshal_snapshot s)

  new_cipher_key :
      (id : Text) (key : List ℕ) (c : Cipher)
      → new_cipher id key ≡ some c
      → (length c.key == 32) ≡ true
  unfolding new_cipher
  new_cipher_key id key c h = ground arith

  abbrev envelope_of : Cipher → List ℕ → List ℕ → EncryptedEnvelope
  envelope_of c iv plaintext = record {
    envelope_version = 1;
    algorithm = aes_256_gcm;
    key_id = c.cipher_key_id;
    nonce = base64_encode iv;
    ciphertext = base64_encode (lib.seal c.key iv plaintext);
  }

  encrypt_lem :
      (c : Cipher) (iv plaintext : List ℕ) (encrypted : Text)
      → encrypt lib c (some iv) plaintext ≡ some encrypted
      → encrypted ≡ lib.marshal_envelope (envelope_of c iv plaintext)
  unfolding encrypt
  encrypt_lem c iv plaintext encrypted h = ground arith

  envelope_opens :
      (laws : HasLaws) (c : Cipher) (iv plaintext : List ℕ)
      → (length c.key == 32) ≡ true
      → All IsByte iv
      → All IsByte plaintext
      → (length iv == nonce_size) ≡ true
      → decrypt_envelope lib c (envelope_of c iv plaintext) ≡ some plaintext
  unfolding decrypt_envelope
  envelope_opens laws c iv plaintext keyed valid plain sized =
      let sealed = lib.seal c.key iv plaintext in
      rw
        (
          text_eq_refl c.cipher_key_id,
          base64_decode-encode iv valid,
          base64_decode-encode sealed (laws.bytes c.key iv plaintext plain),
        )
        (ground (arith, laws.opens c.key iv plaintext))

  -- Decrypt is the inverse of Encrypt, for a cipher that NewCipher made with a key id in UTF-8, a
  -- nonce of the right size and every plaintext.
  pub decrypt-encrypt :
      (laws : HasLaws) (id : Text) (key : List ℕ) (c : Cipher) (iv plaintext : List ℕ)
      (encrypted : Text)
      → new_cipher id key ≡ some c
      → IsUtf8 c.cipher_key_id
      → All IsByte iv
      → All IsByte plaintext
      → (length iv == nonce_size) ≡ true
      → encrypt lib c (some iv) plaintext ≡ some encrypted
      → decrypt lib c encrypted ≡ some plaintext
  unfolding decrypt
  decrypt-encrypt laws id key c iv plaintext encrypted made named valid plain sized done =
      rw (encrypt_lem c iv plaintext encrypted done) (
        rw
          (
            laws.envelopes (envelope_of c iv plaintext) (laws.ascii aes_256_gcm (omega arith)) named
                (laws.ascii (base64_encode iv) (base64_encode-ascii iv))
                (laws.ascii (base64_encode (lib.seal c.key iv plaintext))
                  (base64_encode-ascii (lib.seal c.key iv plaintext))),
            decrypt,
          )
          (envelope_opens laws c iv plaintext (new_cipher_key id key c made) valid plain sized))

  -- the snapshot that a recovery has to find for a log, column by column
  pub record IsSnapshotOf (l : AuditLog) (now : ℤ) (s : AuditSnapshot) : Type 0 where
    pub same_log_id : s.log_id ≡ l.log_id
    pub same_client_id : s.client_id ≡ l.client_id
    pub same_actor : s.actor ≡ l.actor
    pub same_action : s.action ≡ l.action
    pub same_resource : s.resource ≡ l.resource
    pub same_timestamp : s.timestamp ≡ l.timestamp
    pub same_db_timestamp : s.db_timestamp ≡ l.db_timestamp
    pub same_source_system : s.source_system ≡ l.source_system
    pub same_context : s.authorization_context ≡ l.authorization_context
    pub same_hash : s.hash_value ≡ l.hash_value
    pub same_time : s.captured_at ≡ now
    pub same_metadata :
        s.metadata ≡ lib.compact (if is_blank l.metadata then codes "null" else l.metadata)

  -- the texts of the log that the snapshot takes
  abbrev pub log_texts : AuditLog → List Text
  log_texts l =
      l.log_id ∷ l.client_id ∷ l.actor ∷ l.action ∷ l.resource ∷ l.source_system
      ∷ l.authorization_context ∷ l.hash_value ∷ []
