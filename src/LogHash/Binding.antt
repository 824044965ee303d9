-- ===== src/LogHash/Binding.antt =====
-- What the hash of an audit log binds, and where it does not.
use auditchain_gateway_backe.Prelude.{
  ℕ, ◌≡◌, ◌≢◌, refl, sym, ap, ◌∙◌, Option, List, [], ◌∷◌, ◌++◌, length,
}
use auditchain_gateway_backe.Prelude.Text.{Text}
use auditchain_gateway_backe.Hex.{hex_decode}
use auditchain_gateway_backe.Hex.RoundTrip.{hex_decode-hex_encode}
use auditchain_gateway_backe.Decimal.{format_int, format_int-NoBar}
use auditchain_gateway_backe.Merkle.{generate_sha3_256}
use auditchain_gateway_backe.Merkle.Collision.{IsDigest, Collision, Collision-here}
use auditchain_gateway_backe.Model.{AuditLog}
use auditchain_gateway_backe.LogHash.{
  bar, join_fields, log_fields, canonical_context, canonicalize_json, generate_log_hash,
}
use auditchain_gateway_backe.LogHash.Fields.{
  NoBar, AreSeparable, join_fields-injective, join_fields_ambiguous,
}

-- Equal hashes of different texts are a collision of the digest.
pub generate_sha3_256-collision :
    (sha3 : List ℕ → List ℕ) (s t : Text)
    → ((bs : List ℕ) → IsDigest (sha3 bs))
    → generate_sha3_256 sha3 s ≡ generate_sha3_256 sha3 t
    → sha3 s ≡ sha3 t
unfolding generate_sha3_256
generate_sha3_256-collision sha3 s t digests e =
    sym (hex_decode-hex_encode (sha3 s) (digests s).bytes)
    ∙ ap hex_decode e
    ∙ hex_decode-hex_encode (sha3 t) (digests t).bytes

-- No field but the metadata holds the separator.
pub record HasPlainFields (l : AuditLog) : Type 0 where
  pub log_id : NoBar l.log_id
  pub actor : NoBar l.actor
  pub action : NoBar l.action
  pub resource : NoBar l.resource
  pub source_system : NoBar l.source_system
  pub context : NoBar (canonical_context l.authorization_context)

module _ (remarshal : Text → Option Text) where
  log_fields-AreSeparable :
      (l : AuditLog) → HasPlainFields l → AreSeparable (log_fields remarshal l)
  unfolding log_fields
  log_fields-AreSeparable l p = (
    p.log_id,
    (
      p.actor,
      (p.action, (p.resource, (format_int-NoBar l.timestamp, (p.source_system, (p.context, tt))))),
    ),
  )

  length-log_fields : (l : AuditLog) → length (log_fields remarshal l) ≡ 8
  unfolding log_fields
  length-log_fields l = refl

  -- If two logs whose fields (metadata aside) hold no separator differ in some hashed field but
  -- have the same hash, then the texts that are hashed for them differ and have the same digest.
  -- (Digests are 32 bytes.)
  pub changed_log_collides :
      (sha3 : List ℕ → List ℕ) (l k : AuditLog)
      → ((bs : List ℕ) → IsDigest (sha3 bs))
      → HasPlainFields l
      → HasPlainFields k
      → log_fields remarshal l ≢ log_fields remarshal k
      → generate_log_hash remarshal sha3 l ≡ generate_log_hash remarshal sha3 k
      → Collision sha3
          (join_fields (log_fields remarshal l) ∷ [])
          (join_fields (log_fields remarshal k) ∷ [])
  unfolding generate_log_hash
  changed_log_collides sha3 l k digests pl pk ne e =
      Collision-here sha3 _ _ [] []
        (λ same. ne (
          join_fields-injective (log_fields remarshal l) (log_fields remarshal k)
            (length-log_fields l ∙ sym (length-log_fields k)) (log_fields-AreSeparable l pl)
            (log_fields-AreSeparable k pk) same))
        (generate_sha3_256-collision sha3 (join_fields (log_fields remarshal l))
          (join_fields (log_fields remarshal k)) digests e)

  -- For every digest, moving the text behind a separator from the end of the actor to the front
  -- of the action leaves the hash as it is.
  pub actor_action_ambiguous :
      (sha3 : List ℕ → List ℕ) (l : AuditLog) (a b c : Text)
      → generate_log_hash remarshal sha3 (record l { actor = a ++ bar ∷ b; action = c })
        ≡ generate_log_hash remarshal sha3 (record l { actor = a; action = b ++ bar ∷ c })
  unfolding generate_log_hash log_fields
  actor_action_ambiguous sha3 l a b c =
      let after : List Text =
        format_int l.timestamp
        ∷ l.source_system
        ∷ canonical_context l.authorization_context
        ∷ canonicalize_json remarshal l.metadata
        ∷ [] in
      ap (generate_sha3_256 sha3) (join_fields_ambiguous (l.log_id ∷ []) a b c l.resource after)
