-- ===== src/Kafka/Tables.antt =====
-- The rows that the consumer writes (internal/models: client_user.go, client_table.go,
-- kafka_offset.go, dashboard_stats.go), and the statistics of internal/engine/stats/stats.go.
-- Times are integers, in microseconds since 1970.
use auditchain_gateway_backe.Prelude.{
  ℕ, ◌+◌, ◌-◌, ◌*◌, ◌/◌, Bool, List, ◌∷◌, ◌==◌, if◌then◌else◌, ◌&&◌,
}
use auditchain_gateway_backe.Prelude.Text.{Text, text_eq}
use auditchain_gateway_backe.Prelude.Int.{ℤ, pos, negsuc, sub_ℕ}
use auditchain_gateway_backe.Prelude.Table.{update_where, count_where}
use auditchain_gateway_backe.Model.{AuditLog}
use auditchain_gateway_backe.Outbox.{SnapshotOutbox}

pub record ClientUser : Type 0 where
  pub user_client : Text
  pub user_id : Text
  pub username : Text
  pub email : Text
  pub full_name : Text
  pub source_table : Text
  pub raw_data : Text
  pub last_seen_at : ℤ

-- what opToAction gives
pub data Action : Type 0 where
  insert update delete unknown : Action

pub record ClientTable : Type 0 where
  pub table_client : Text
  pub table_name : Text
  pub row_count : ℕ
  pub last_action : Action
  pub last_actor : Text
  pub last_updated_at : ℤ

pub record KafkaOffset : Type 0 where
  pub offset_log : Text
  pub topic : Text
  pub partition : ℕ
  pub offset : ℕ

-- the columns of ClientDashboardStats that RecordLogStats writes
pub record DashboardStats : Type 0 where
  pub stats_client : Text
  pub total_logs : ℕ
  pub logs_today : ℕ
  pub logs_today_date : ℤ
  pub last_log_at : ℤ
  pub total_pending : ℕ
  pub total_inserts : ℕ
  pub total_updates : ℕ
  pub total_deletes : ℕ

-- The tables that a message is written to, and the two caches of the consumer.
pub record Tables : Type 0 where
  pub logs : List AuditLog
  pub outbox : List SnapshotOutbox
  pub offsets : List KafkaOffset
  pub client_tables : List ClientTable
  pub stats : List DashboardStats
  pub users : List ClientUser
  pub actor_cache : List (Text × Text)
  pub source_cache : List (Text × Text)

-- microseconds of a day
abbrev pub day : ℕ
day = 86400000000

-- time.Now().Truncate(24 * time.Hour)
unfoldable pub start_of_day : ℤ → ℤ
start_of_day (pos n) = pos (n / day * day)
start_of_day (negsuc n) = sub_ℕ 0 ((n / day + 1) * day)

abbrev if_insert : Action → ℕ → ℕ
if_insert insert n = n + 1
if_insert _ n = n

abbrev if_update : Action → ℕ → ℕ
if_update update n = n + 1
if_update _ n = n

abbrev if_delete : Action → ℕ → ℕ
if_delete delete n = n + 1
if_delete _ n = n

-- tx.Model(&stat).Updates(updates): the columns that the map names, and no others
unfoldable pub updated_stats : Action → ℤ → DashboardStats → DashboardStats
updated_stats action now s = record s {
  total_logs = s.total_logs + 1;
  logs_today = s.logs_today + 1;
  logs_today_date = start_of_day now;
  last_log_at = now;
  total_pending = s.total_pending + 1;
  total_inserts = if_insert action s.total_inserts;
  total_updates = if_update action s.total_updates;
  total_deletes = if_delete action s.total_deletes;
}

-- the row that Create writes for a client without statistics
abbrev pub new_stats : Text → ℤ → DashboardStats
new_stats client now = record {
  stats_client = client;
  total_logs = 0;
  logs_today = 0;
  logs_today_date = start_of_day now;
  last_log_at = now;
  total_pending = 0;
  total_inserts = 0;
  total_updates = 0;
  total_deletes = 0;
}

abbrev pub is_stats_of : Text → DashboardStats → Bool
is_stats_of client s = text_eq s.stats_client client

-- RecordLogStats; client_id is unique in the table
unfoldable pub record_log_stats : Text → Action → ℤ → List DashboardStats → List DashboardStats
unfolding updated_stats count_where update_where
record_log_stats client action now rows =
    if count_where (is_stats_of client) rows == 0
    then updated_stats action now (new_stats client now) ∷ rows
    else update_where (is_stats_of client) (updated_stats action now) rows

-- row_count of the upsert on conflict
abbrev count_row : Action → ℕ → ℕ
count_row insert n = n + 1
count_row delete n = n - 1
count_row _ n = n

abbrev is_table : Text → Text → ClientTable → Bool
is_table client name t = text_eq t.table_client client && text_eq t.table_name name

-- INSERT INTO client_tables … ON CONFLICT (client_id, table_name) DO UPDATE
unfoldable pub upsert_table : Text → Text → Action → Text → ℤ → List ClientTable → List ClientTable
unfolding count_where update_where
upsert_table client name action actor time rows =
    if count_where (is_table client name) rows == 0
    then record {
      table_client = client;
      table_name = name;
      row_count = if_insert action 0;
      last_action = action;
      last_actor = actor;
      last_updated_at = time;
    }
      ∷ rows
    else update_where (is_table client name)
        (λ (t : ClientTable). record t {
          row_count = count_row action t.row_count;
          last_action = action;
          last_actor = actor;
          last_updated_at = time;
        })
        rows
