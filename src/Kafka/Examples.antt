-- ===== src/Kafka/Examples.antt =====
-- Changes of a table of orders and of a table of users.
use auditchain_gateway_backe.Prelude.{
  ◌≡◌, ◌≢◌, refl, true, false, none, some, List, [], ◌∷◌, replicate, arith,
}
use auditchain_gateway_backe.Prelude.Text.{Text, codes, text_eq, text_eq_iff}
use auditchain_gateway_backe.Prelude.Int.{ℤ, pos}
use auditchain_gateway_backe.Prelude.Table.{count_where}
use auditchain_gateway_backe.Prelude.Counts.{All}
use auditchain_gateway_backe.Json.{Fields, null, number, string, no_fields, field, get_field}
use auditchain_gateway_backe.Model.{AuditLog, hashed}
use auditchain_gateway_backe.Audit.Evidence.{classify_integrity, pending_log}
use auditchain_gateway_backe.Kafka.Libraries.{Libraries}
use auditchain_gateway_backe.Kafka.Tables.{Tables, insert}
use auditchain_gateway_backe.Kafka.Store.{Message, Call, stored, store_log}
use auditchain_gateway_backe.Kafka.Users.{Settings}
use auditchain_gateway_backe.Kafka.Consumer.{
  process_message, process_payload, inner_payload, table_name_of, operation_of, process_change,
  note_user, is_user_table, save_event, resource_of, timestamp_of,
}
use auditchain_gateway_backe.Kafka.Metadata.{extract_metadata, is_skipped, is_secret}
use auditchain_gateway_backe.Kafka.Payload.{is_numeric_column}
use auditchain_gateway_backe.Kafka.Effect.{with_latest}
use auditchain_gateway_backe.Kafka.Latest.{HasOneLatest, one_latest_log}
use auditchain_gateway_backe.Kafka.Fresh.{stored_log_is_pending}
use auditchain_gateway_backe.Kafka.Events.{process_all}
use auditchain_gateway_backe.Kafka.Redelivery.{
  IsDuplicate, HasTime, IsChange, redelivery-IsDuplicate, simultaneous_change_is_dropped,
}
use auditchain_gateway_backe.Kafka.Secrets.{
  change_columns, metadata_hides_columns, Place, join, put_at, text_at, ArePlainRows,
  nested_secret_is_kept,
}
use auditchain_gateway_backe.Kafka.Statistics.{
  Recorded, record_all, CountsAllDays, logs_today_never_reset,
}

-- an update of an order; `amount` is its new value
abbrev order_change : Text → Fields ℤ
order_change amount = field (codes "__op") (string (codes "u")) (
    field (codes "__table") (string (codes "orders")) (
      field (codes "__ts_ms") (number (pos 5))
        (field (codes "order_no") (string amount) no_fields)))

abbrev user_change : Fields ℤ
user_change =
    field (codes "uid") (number (pos 1007))
      (field (codes "name") (string (codes "Budi")) (field (codes "email") null no_fields))

-- numbers are integers, and each message is the same change
abbrev libraries : Libraries
libraries = record {
  Float = ℤ;
  whole = some;
  truncated = λ n. n;
  is_zero = λ n. false;
  is_positive = λ n. true;
  format_g = λ n. [];
  decode = λ s. some (order_change (codes "10"));
  marshal = λ v. codes "{}";
  remarshal = some;
  wide_lower = λ s. s;
  sha3 = λ bs. replicate 32 0;
}

abbrev settings : Settings
settings = record {
  client_id = codes "c1";
  source_system = codes "RS";
  pk_field = codes "order_id";
  company_name = [];
  actor_field = [];
  fallback_actor_field = [];
  create_actor_field = [];
  update_actor_field = [];
  delete_actor_field = [];
  user_table_name = [];
  user_column_name = [];
}

abbrev call_at : ℤ → Call
call_at time = record { now = time; fresh_id = codes "1"; builder = none }

abbrev message : Message
message = record {
  message_topic = codes "c1.public.orders";
  message_partition = 0;
  message_offset = 9;
  message_value = codes "{}";
}

abbrev no_rows : Tables
no_rows = record {
  logs = [];
  outbox = [];
  offsets = [];
  client_tables = [];
  stats = [];
  users = [];
  actor_cache = [];
  source_cache = [];
}

order_is_stored : (process_message libraries settings (call_at (pos 77)) message no_rows).1 ≡ stored
unfolding process_message process_payload table_name_of inner_payload operation_of process_change
    count_where note_user is_user_table save_event store_log
order_is_stored = refl

payload_is_stored :
    (process_payload libraries settings
      (call_at (pos 77))
      message
      (order_change (codes "10"))
      no_rows).1
    ≡ stored
unfolding process_payload table_name_of operation_of process_change count_where note_user
    is_user_table save_event store_log
payload_is_stored = refl

no_latest : HasOneLatest no_rows.logs
unfolding count_where
no_latest = record { one_latest = λ client resource. omega arith }

one_latest_log_example :
    HasOneLatest (process_message libraries settings (call_at (pos 77)) message no_rows).0.logs
one_latest_log_example =
    one_latest_log libraries settings (call_at (pos 77)) message no_rows no_latest

stored_log_is_pending_example :
    (log : AuditLog) × ((process_message libraries settings
        (call_at (pos 77))
        message
        no_rows).0.logs
      ≡ with_latest log no_rows.logs)
    × (log.is_latest ≡ true)
    × (log.status ≡ hashed)
    × ((classify_integrity libraries.remarshal libraries.sha3 (λ h. none) none log).verdict
        ≡ pending_log)
    × ((classify_integrity libraries.remarshal libraries.sha3 (λ h. none) none log).incident ≡ none)
stored_log_is_pending_example =
    stored_log_is_pending libraries (λ h. none) none settings (call_at (pos 77)) message no_rows
      order_is_stored

order-HasTime : HasTime libraries (
    inner_payload libraries
      (order_change (codes "10"))
      (get_field (codes "payload") (order_change (codes "10"))))
unfolding inner_payload get_field
order-HasTime = (pos 5, refl, refl)

redelivery-IsDuplicate_example :
    let s : Tables =
      process_all libraries []
        (process_message libraries settings (call_at (pos 77)) message no_rows).0 in
    IsDuplicate s (process_message libraries settings (call_at (pos 99)) message s)
redelivery-IsDuplicate_example =
    redelivery-IsDuplicate libraries settings (call_at (pos 77)) (call_at (pos 99)) message
      (order_change (codes "10")) [] no_rows refl order-HasTime order_is_stored

other-IsChange : IsChange libraries message (order_change (codes "20"))
unfolding table_name_of operation_of
other-IsChange = (refl, refl)

same_resource :
    resource_of libraries settings
      (table_name_of libraries message (order_change (codes "20")))
      (order_change (codes "20"))
    ≡ resource_of libraries settings
        (table_name_of libraries message (order_change (codes "10")))
        (order_change (codes "10"))
unfolding resource_of table_name_of
same_resource = refl

same_timestamp :
    timestamp_of libraries (pos 99) (order_change (codes "20"))
    ≡ timestamp_of libraries (pos 77) (order_change (codes "10"))
unfolding timestamp_of
same_timestamp = refl

simultaneous_change_is_dropped_example :
    let s : Tables =
      (process_payload libraries settings
        (call_at (pos 77))
        message
        (order_change (codes "10"))
        no_rows).0 in
    IsDuplicate s
      (process_payload libraries settings (call_at (pos 99)) message (order_change (codes "20")) s)
simultaneous_change_is_dropped_example =
    simultaneous_change_is_dropped libraries settings (call_at (pos 77)) (call_at (pos 99)) message
      message (order_change (codes "10")) (order_change (codes "20")) no_rows payload_is_stored
      other-IsChange same_resource same_timestamp

-- a change of a login with a password
abbrev login_change : Text → Fields ℤ
login_change password = field (codes "__op") (string (codes "u")) (
    field (codes "login") (string (codes "budi"))
      (field (codes "User_Password") (string password) no_fields))

password_is_changed :
    change_columns libraries (λ k v. string (codes "x")) (login_change (codes "a"))
    ≡ login_change (codes "x")
unfolding change_columns is_secret
password_is_changed = refl

metadata_hides_columns_example :
    extract_metadata libraries
      (change_columns libraries (λ k v. string (codes "x")) (login_change (codes "a")))
    ≡ extract_metadata libraries (login_change (codes "a"))
metadata_hides_columns_example =
    metadata_hides_columns libraries (λ k v. string (codes "x")) (login_change (codes "a"))

after_shown :
    (is_skipped libraries (codes "after") ≡ false) × (is_secret libraries (codes "after") ≡ false)
unfolding is_skipped is_secret
after_shown = (refl, refl)

password_is_text : is_numeric_column libraries (codes "password") ≡ false
unfolding is_numeric_column
password_is_text = refl

secrets_differ : codes "one" ≢ codes "two"
unfolding text_eq
secrets_differ e = cc ((text_eq_iff (codes "one") (codes "two")).1 e)

-- the row after the change, in which a profile holds a password
abbrev after_column : Place libraries
after_column = record {
  front = field (codes "id") (string (codes "7")) no_fields;
  key = codes "after";
  back = no_fields;
}

abbrev profile_place : Place libraries
profile_place = record {
  front = field (codes "login") (string (codes "budi")) no_fields;
  key = codes "profile";
  back = no_fields;
}

abbrev password_place : Place libraries
password_place = record {
  front = no_fields;
  key = codes "password";
  back = field (codes "city") (string (codes "Solo")) no_fields;
}

rows_are_plain : ArePlainRows libraries (profile_place ∷ password_place ∷ [])
unfolding get_field join
rows_are_plain = ((λ v. refl), ((λ v. refl), tt))

nested_secret_is_kept_example :
    extract_metadata libraries (
      put_at libraries after_column
        (text_at libraries (profile_place ∷ password_place ∷ []) (codes "one")))
    ≢ extract_metadata libraries (
        put_at libraries after_column
          (text_at libraries (profile_place ∷ password_place ∷ []) (codes "two")))
nested_secret_is_kept_example =
    nested_secret_is_kept libraries after_column profile_place (password_place ∷ []) (codes "one")
      (codes "two") after_shown.0 after_shown.1 rows_are_plain password_is_text secrets_differ

-- two logs, three days apart
abbrev recorded : List Recorded
recorded =
    record { recorded_client = codes "c1"; recorded_action = insert; recorded_at = pos 5 }
    ∷ record {
      recorded_client = codes "c1";
      recorded_action = insert;
      recorded_at = pos 259200000005;
    }
    ∷ []

logs_today_never_reset_example : All CountsAllDays (record_all recorded [])
logs_today_never_reset_example = logs_today_never_reset recorded [] tt
