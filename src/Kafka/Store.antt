-- ===== src/Kafka/Store.antt =====
-- What processMessage writes for one change, in one transaction.
use auditchain_gateway_backe.Prelude.{
  ℕ, Bool, false, not, ◌&&◌, ◌||◌, Option, none, some, List, [], ◌∷◌, ◌++◌, leb, if◌then◌else◌,
}
use auditchain_gateway_backe.Prelude.Text.{Text, codes, text_eq}
use auditchain_gateway_backe.Prelude.Int.{ℤ, ltb_ℤ}
use auditchain_gateway_backe.Prelude.Table.{update_where, count_where}
use auditchain_gateway_backe.Model.{AuditLog}
use auditchain_gateway_backe.Outbox.{SnapshotOutbox}
use auditchain_gateway_backe.Kafka.Tables.{
  Action, insert, update, delete, unknown, KafkaOffset, Tables, record_log_stats, upsert_table,
}

pub record Message : Type 0 where
  pub message_topic : Text
  pub message_partition : ℕ
  pub message_offset : ℕ
  pub message_value : Text

-- The first three return nil, the last one returns an error.
pub data Outcome : Type 0 where
  ignored duplicate stored failed : Outcome

-- What a call takes from the outside: the clock, generateLogID, and the builder of snapshots
-- (`none`: not configured; a builder that gives `none` fails).
pub record Call : Type 0 where
  pub now : ℤ
  pub fresh_id : Text
  pub builder : Option (AuditLog → Option SnapshotOutbox)

unfoldable pub op_to_action : Text → Action
unfolding text_eq
op_to_action op =
    if text_eq op (codes "c")
    then insert
    else if text_eq op (codes "u")
    then update
    else if text_eq op (codes "d")
    then delete
    else unknown

abbrev pub action_text : Action → Text
action_text insert = codes "INSERT"
action_text update = codes "UPDATE"
action_text delete = codes "DELETE"
action_text unknown = codes "UNKNOWN"

-- the row that the duplicate check looks for
abbrev pub is_same_event : Text → Text → ℤ → AuditLog → Bool
is_same_event client resource time l =
    text_eq l.resource resource
    && not (ltb_ℤ l.timestamp time || ltb_ℤ time l.timestamp)
    && text_eq l.client_id client

abbrev pub is_of_resource : Text → Text → AuditLog → Bool
is_of_resource client resource l = text_eq l.client_id client && text_eq l.resource resource

abbrev pub outdate : AuditLog → AuditLog
outdate l = record l { is_latest = false }

-- Create of an audit log: its id and its hash are unique
unfoldable pub create_log : AuditLog → List AuditLog → Option (List AuditLog)
unfolding count_where
create_log log rows =
    if leb 1 (
      count_where
        (λ (r : AuditLog). text_eq r.log_id log.log_id || text_eq r.hash_value log.hash_value) rows)
    then none
    else some (rows ++ log ∷ [])

unfoldable pub add_outbox : Option SnapshotOutbox → List SnapshotOutbox → List SnapshotOutbox
add_outbox none rows = rows
add_outbox (some row) rows = rows ++ row ∷ []

-- Create of a KafkaOffset: one for each log
unfoldable pub create_offset : KafkaOffset → List KafkaOffset → Option (List KafkaOffset)
unfolding count_where
create_offset o rows =
    if leb 1 (count_where (λ (r : KafkaOffset). text_eq r.offset_log o.offset_log) rows)
    then none
    else some (rows ++ o ∷ [])

-- The transaction; `none`: it is rolled back.
unfoldable pub store_log :
    AuditLog → Option SnapshotOutbox → Action → Text → ℤ → Message → Tables → Option Tables
unfolding create_log add_outbox create_offset update_where record_log_stats upsert_table
store_log log snapshot action table now msg t =
    elim (create_log log
      (update_where (is_of_resource log.client_id log.resource) outdate t.logs)) [
        | none ↦ none
        | some logs ↦
            elim (create_offset
              (record {
                offset_log = log.log_id;
                topic = msg.message_topic;
                partition = msg.message_partition;
                offset = msg.message_offset;
              })
              t.offsets) [
                | none ↦ none
                | some offsets ↦ some (record t {
                  logs = logs;
                  outbox = add_outbox snapshot t.outbox;
                  offsets = offsets;
                  client_tables =
                      upsert_table log.client_id table action log.actor log.timestamp
                        t.client_tables;
                  stats = record_log_stats log.client_id action now t.stats;
                })
              ]
      ]

-- the end of the call: err != nil, or the tables after the commit
abbrev pub commit : Tables → Option Tables → Tables × Outcome
commit t none = (t, failed)
commit t (some t') = (t', stored)

abbrev pub build_snapshot :
    Option (AuditLog → Option SnapshotOutbox) → AuditLog → Option (Option SnapshotOutbox)
build_snapshot none log = some none
build_snapshot (some build) log = elim (build log) [ none ↦ none | some row ↦ some (some row) ]
