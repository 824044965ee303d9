-- ===== src/Kafka/Fresh.antt =====
-- What a stored audit log is worth to the rest of the gateway.
use auditchain_gateway_backe.Prelude.{◌≡◌, refl, sym, true, none, List, [], Bool-cases, inl, inr}
use auditchain_gateway_backe.Prelude.Text.{text_eq, text_eq_refl}
use auditchain_gateway_backe.Model.{AuditLog, hashed}
use auditchain_gateway_backe.Audit.{Fabric, Lookup, is_hash_still_pending, canonicalize_log}
use auditchain_gateway_backe.Audit.Evidence.{
  classify_integrity, judge_canonical, judge, pending_log, pending_anchor,
}
use auditchain_gateway_backe.Kafka.Libraries.{Libraries}
use auditchain_gateway_backe.Kafka.Tables.{Tables}
use auditchain_gateway_backe.Kafka.Store.{Message, Call, Outcome, stored}
use auditchain_gateway_backe.Kafka.Users.{Settings}
use auditchain_gateway_backe.Kafka.Consumer.{process_message}
use auditchain_gateway_backe.Kafka.Effect.{
  IsFreshRow, Effect, kept, added, with_latest, process_message_effect,
}

canonicalize-fresh : (log : AuditLog) → log.authorization_context ≡ [] → canonicalize_log log ≡ log
unfolding canonicalize_log text_eq
canonicalize-fresh log h = rw (h, canonicalize_log) refl

module _ (lib : Libraries) (lookup : Lookup) (fabric : Fabric) where
  judge_fresh :
      (log : AuditLog)
      → IsFreshRow lib log
      → judge_canonical lib.remarshal lib.sha3 lookup fabric log ≡ judge pending_log pending_anchor
  unfolding judge_canonical
  judge_fresh log f = rw (sym f.rehashes, text_eq_refl log.hash_value, f.is_hashed) refl

  classify_fresh :
      (log : AuditLog)
      → IsFreshRow lib log
      → ((classify_integrity lib.remarshal lib.sha3 lookup fabric log).verdict ≡ pending_log)
        × ((classify_integrity lib.remarshal lib.sha3 lookup fabric log).incident ≡ none)
  unfolding classify_integrity
  classify_fresh log f = elim (Bool-cases (is_hash_still_pending log)) [
    | inl e ↦ rw e (refl, refl)
    | inr e ↦ rw (e, canonicalize-fresh log f.no_context, judge_fresh log f) (refl, refl)
  ]

  pending_row-Effect :
      {before after : List AuditLog} {out : Outcome}
      → Effect lib before after out
      → out ≡ stored
      → (log : AuditLog) × (after ≡ with_latest log before)
        × (log.is_latest ≡ true)
        × (log.status ≡ hashed)
        × ((classify_integrity lib.remarshal lib.sha3 lookup fabric log).verdict ≡ pending_log)
        × ((classify_integrity lib.remarshal lib.sha3 lookup fabric log).incident ≡ none)
  pending_row-Effect (kept e other) done = absurd (other done)
  pending_row-Effect (added log f e d) done =
      let judged = classify_fresh log f in (log, e, f.latest, f.is_hashed, judged.0, judged.1)

  -- A message that is stored adds one audit log in front of which the others of its resource are
  -- no longer the latest; it is the latest, waits for the aggregator as HASHED, and the dashboard
  -- judges it pending and records no incident, whatever Fabric and the proof table answer.
  pub stored_log_is_pending :
      (cfg : Settings) (call : Call) (msg : Message) (t : Tables)
      → (process_message lib cfg call msg t).1 ≡ stored
      → (log : AuditLog) × ((process_message lib cfg call msg t).0.logs ≡ with_latest log t.logs)
        × (log.is_latest ≡ true)
        × (log.status ≡ hashed)
        × ((classify_integrity lib.remarshal lib.sha3 lookup fabric log).verdict ≡ pending_log)
        × ((classify_integrity lib.remarshal lib.sha3 lookup fabric log).incident ≡ none)
  stored_log_is_pending cfg call msg t done =
      pending_row-Effect (process_message_effect lib cfg call msg t) done
