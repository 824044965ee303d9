-- ===== src/Kafka/Effect.antt =====
-- What one message does to the table of audit logs: nothing, or one new row.
use auditchain_gateway_backe.Prelude.{
  ◌≡◌, ◌≢◌, refl, subst, true, Option, some, List, [], ◌∷◌, ◌++◌, leb, arith, Bool-cases,
  Option-cases, inl, inr,
}
use auditchain_gateway_backe.Prelude.Text.{Text, codes, text_eq, is_empty}
use auditchain_gateway_backe.Prelude.Int.{ℤ}
use auditchain_gateway_backe.Prelude.Table.{update_where, count_where}
use auditchain_gateway_backe.Json.{Fields, get_field}
use auditchain_gateway_backe.Model.{AuditLog, hashed}
use auditchain_gateway_backe.LogHash.{generate_log_hash}
use auditchain_gateway_backe.Outbox.{SnapshotOutbox}
use auditchain_gateway_backe.Kafka.Libraries.{Libraries}
use auditchain_gateway_backe.Kafka.Tables.{Action, Tables}
use auditchain_gateway_backe.Kafka.Store.{
  Message, Call, Outcome, stored, failed, is_of_resource, outdate, create_log, store_log,
  build_snapshot, is_same_event,
}
use auditchain_gateway_backe.Kafka.Users.{Settings, process_client_user_cdc}
use auditchain_gateway_backe.Kafka.Consumer

-- the table with a new row in place of the latest one of its resource
abbrev pub with_latest : AuditLog → List AuditLog → List AuditLog
with_latest log rows =
    update_where (is_of_resource log.client_id log.resource) outdate rows ++ log ∷ []

-- A row as the consumer writes it: the latest of its resource, hashed, with its own hash.
pub record IsFreshRow (lib : Libraries) (log : AuditLog) : Type 0 where
  pub latest : log.is_latest ≡ true
  pub is_hashed : log.status ≡ hashed
  pub rehashes : log.hash_value ≡ generate_log_hash lib.remarshal lib.sha3 log
  pub no_context : log.authorization_context ≡ []

pub data Effect (lib : Libraries) (before after : List AuditLog) (out : Outcome) : Type 0 where
  kept : after ≡ before → out ≢ stored → Effect lib before after out
  added :
      (log : AuditLog)
      → IsFreshRow lib log
      → after ≡ with_latest log before
      → out ≡ stored
      → Effect lib before after out

abbrev pub EffectOf : Libraries → List AuditLog → Tables × Outcome → Type 0
EffectOf lib before r = Effect lib before r.0.logs r.1

create_log_lem :
    (log : AuditLog) (rows after : List AuditLog)
    → create_log log rows ≡ some after
    → after ≡ rows ++ log ∷ []
unfolding create_log
create_log_lem log rows after h = ground arith

store_log_effect :
    (log : AuditLog) (snapshot : Option SnapshotOutbox) (action : Action) (table : Text) (now : ℤ)
    (msg : Message) (t after : Tables)
    → store_log log snapshot action table now msg t ≡ some after
    → after.logs ≡ with_latest log t.logs
unfolding store_log
store_log_effect log snapshot action table now msg t after h = ground (
  arith,
  create_log_lem log (update_where (is_of_resource log.client_id log.resource) outdate t.logs)
      after.logs,
)

not_stored : failed ≢ stored
not_stored = λ h. cc

module _ (lib : Libraries) where
  hashed_log-IsFreshRow :
      (cfg : Settings) (call : Call) (actor : Text) (action : Action) (resource : Text) (time : ℤ)
      (source meta : Text)
      → IsFreshRow lib (
          Consumer.hashed_log lib
            (Consumer.new_log lib cfg call actor action resource time source meta))
  unfolding Consumer.hashed_log generate_log_hash
  hashed_log-IsFreshRow cfg call actor action resource time source meta = record {
    latest = refl;
    is_hashed = refl;
    rehashes = refl;
    no_context = refl;
  }

  -- what a stored change leaves in the table
  pub save_event_logs :
      (cfg : Settings) (call : Call) (msg : Message) (table : Text) (action : Action)
      (log : AuditLog) (t : Tables)
      → (Consumer.save_event lib cfg call msg table action log t).1 ≡ stored
      → (Consumer.save_event lib cfg call msg table action log t).0.logs ≡ with_latest log t.logs
  unfolding Consumer.save_event
  save_event_logs cfg call msg table action log t done =
      elim (Option-cases (build_snapshot call.builder log)) [
        | inl e ↦ absurd (not_stored (rw (e, Consumer.save_event) at done))
        | inr (snapshot, e) ↦
            elim (Option-cases (store_log log snapshot action table call.now msg t)) [
              | inl f ↦ absurd (not_stored (rw (e, Consumer.save_event, f) at done))
              | inr (after, f) ↦
                  rw (e, Consumer.save_event, f)
                    (store_log_effect log snapshot action table call.now msg t after f)
            ]
      ]

  save_event_effect :
      (cfg : Settings) (call : Call) (msg : Message) (table : Text) (action : Action)
      (log : AuditLog) (t : Tables)
      → IsFreshRow lib log
      → EffectOf lib t.logs (Consumer.save_event lib cfg call msg table action log t)
  unfolding Consumer.save_event
  save_event_effect cfg call msg table action log t fresh =
      elim (Option-cases (build_snapshot call.builder log)) [
        | inl e ↦ rw (e, Consumer.save_event) (kept refl (λ h. cc))
        | inr (snapshot, e) ↦
            elim (Option-cases (store_log log snapshot action table call.now msg t)) [
              | inl f ↦ rw (e, Consumer.save_event, f) (kept refl (λ h. cc))
              | inr (after, f) ↦
                  rw (e, Consumer.save_event, f)
                    (added log fresh
                      (store_log_effect log snapshot action table call.now msg t after f) refl)
            ]
      ]

  process_change_effect :
      (cfg : Settings) (call : Call) (msg : Message) (payload : Fields lib.Float) (table op : Text)
      (t : Tables)
      → EffectOf lib t.logs (Consumer.process_change lib cfg call msg payload table op t)
  unfolding Consumer.process_change
  process_change_effect cfg call msg payload table op t =
      elim (Bool-cases (
        leb 1 (
          count_where
            (is_same_event cfg.client_id (Consumer.resource_of lib cfg table payload)
              (Consumer.timestamp_of lib call.now payload))
            t.logs))) [
              | inl e ↦ rw e (kept refl (λ h. cc))
              | inr e ↦ rw e (
                  save_event_effect cfg call msg table _ _ _
                    (hashed_log-IsFreshRow cfg call _ _ _ _ _ _))
            ]

  pub note_user_logs :
      (cfg : Settings) (payload : Fields lib.Float) (table : Text) (now : ℤ) (t : Tables)
      → (Consumer.note_user lib cfg payload table now t).logs ≡ t.logs
  unfolding Consumer.note_user process_client_user_cdc
  note_user_logs cfg payload table now t = ground arith

  process_payload_effect :
      (cfg : Settings) (call : Call) (msg : Message) (payload : Fields lib.Float) (t : Tables)
      → EffectOf lib t.logs (Consumer.process_payload lib cfg call msg payload t)
  unfolding Consumer.process_payload
  process_payload_effect cfg call msg payload t =
      let table : Text = Consumer.table_name_of lib msg payload in
      let op : Text = Consumer.operation_of lib payload in
      let same = note_user_logs cfg payload table call.now t in
      elim (Bool-cases (is_empty table)) [
        | inl e ↦ rw e (kept refl (λ h. cc))
        | inr e ↦ elim (Bool-cases (text_eq op (codes "r"))) [
          | inl f ↦ rw (e, f) (kept same (λ h. cc))
          | inr f ↦
              rw (e, f)
                (subst
                  (λ rows. EffectOf lib rows (
                    Consumer.process_change lib cfg call msg payload table op
                      (Consumer.note_user lib cfg payload table call.now t)))
                  same
                  (process_change_effect cfg call msg payload table op
                    (Consumer.note_user lib cfg payload table call.now t)))
        ]
      ]

  -- the whole call
  pub process_message_effect :
      (cfg : Settings) (call : Call) (msg : Message) (t : Tables)
      → EffectOf lib t.logs (Consumer.process_message lib cfg call msg t)
  unfolding Consumer.process_message
  process_message_effect cfg call msg t = elim (Bool-cases (is_empty msg.message_value)) [
    | inl e ↦ rw e (kept refl (λ h. cc))
    | inr e ↦ elim (Option-cases (lib.decode msg.message_value)) [
      | inl f ↦ rw (e, f) (kept refl (λ h. cc))
      | inr (raw, f) ↦
          rw (e, f)
            (process_payload_effect cfg call msg
              (Consumer.inner_payload lib raw (get_field (codes "payload") raw)) t)
    ]
  ]
