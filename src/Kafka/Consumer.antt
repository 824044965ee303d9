-- ===== src/Kafka/Consumer.antt =====
-- One message: processMessage.
use auditchain_gateway_backe.Prelude.{
  ◌==◌, Bool, true, false, ◌||◌, Option, none, some, List, [], ◌∷◌, ◌++◌, leb, if◌then◌else◌,
}
use auditchain_gateway_backe.Prelude.Text.{
  Text, codes, text_eq, is_empty, to_lower, contains, equal_fold,
}
use auditchain_gateway_backe.Prelude.Int.{ℤ, pos, ◌*ℤ◌}
use auditchain_gateway_backe.Prelude.Table.{count_where}
use auditchain_gateway_backe.Json.{Value, Fields, number, object, get_field}
use auditchain_gateway_backe.Model.{
  AuditLog, received, hashed, snapshot_pending, not_checked, unknown_source,
}
use auditchain_gateway_backe.LogHash.{generate_log_hash}
use auditchain_gateway_backe.Kafka.Libraries.{Libraries}
use auditchain_gateway_backe.Kafka.Payload.{text_field, find_primary_key}
use auditchain_gateway_backe.Kafka.Metadata.{extract_metadata}
use auditchain_gateway_backe.Kafka.Tables.{Action, Tables}
use auditchain_gateway_backe.Kafka.Store.{
  Message, Outcome, ignored, duplicate, failed, Call, op_to_action, action_text, is_same_event,
  store_log, commit, build_snapshot,
}
use auditchain_gateway_backe.Kafka.Users.{Settings, cached, process_client_user_cdc}
use auditchain_gateway_backe.Kafka.Actor.{raw_actor, resolved_actor}

-- parts[len(parts)-1] of strings.Split(s, "."); `part` is what stands before
unfoldable pub last_part : Text → Text → Text
last_part part [] = part
last_part part (c ∷ s) = last_part (if c == 46 then [] else part ++ c ∷ []) s

unfoldable pub first_non_blank : List Text → Text
first_non_blank [] = []
first_non_blank (s ∷ ss) = let rest = first_non_blank ss in if is_empty s then rest else s

abbrev user_keywords : List Text
user_keywords =
    codes "user"
    ∷ codes "account"
    ∷ codes "akun"
    ∷ codes "pengguna"
    ∷ codes "member"
    ∷ codes "employee"
    ∷ codes "karyawan"
    ∷ []

has_keyword : Text → List Text → Bool
unfolding contains
has_keyword s [] = false
has_keyword s (k ∷ ks) = contains s k || has_keyword s ks

module _ (lib : Libraries) where
  open lib use {Float, truncated, is_positive, decode, marshal, remarshal, wide_lower, sha3}

  unfoldable pub inner_payload : Fields Float → Option (Value Float) → Fields Float
  inner_payload raw (some (object m)) = m
  inner_payload raw _ = raw

  unfoldable pub table_name_of : Message → Fields Float → Text
  unfolding first_non_blank text_field last_part
  table_name_of msg payload = first_non_blank (
      text_field lib (codes "__table") payload
      ∷ text_field lib (codes "__collection") payload
      ∷ text_field lib (codes "table") payload
      ∷ text_field lib (codes "collection") payload
      ∷ last_part [] msg.message_topic
      ∷ [])

  unfoldable pub is_user_table : Settings → Text → Bool
  unfolding has_keyword last_part equal_fold contains to_lower
  is_user_table cfg table =
      if is_empty cfg.user_table_name
      then has_keyword (to_lower wide_lower table) user_keywords
      else equal_fold table (last_part [] cfg.user_table_name)
        || contains cfg.user_table_name table
        || contains table cfg.user_table_name

  unfoldable pub operation_of : Fields Float → Text
  unfolding first_non_blank text_field
  operation_of payload =
      first_non_blank
        (text_field lib (codes "__op") payload ∷ text_field lib (codes "op") payload ∷ [])

  time_of : ℤ → Option (Value Float) → ℤ
  time_of now (some (number ms)) = if is_positive ms then truncated ms *ℤ pos 1000 else now
  time_of now _ = now

  unfoldable pub timestamp_of : ℤ → Fields Float → ℤ
  unfolding time_of get_field
  timestamp_of now payload = time_of now (get_field (codes "__ts_ms") payload)

  unfoldable pub resource_of : Settings → Text → Fields Float → Text
  unfolding find_primary_key
  resource_of cfg table payload =
      table
      ++ 58
        ∷ find_primary_key lib payload (if is_empty cfg.pk_field then codes "ID" else cfg.pk_field)

  -- resolveSourceSystem, with the cache after it
  unfoldable pub resolve_source_system : Settings → List (Text × Text) → Text × List (Text × Text)
  unfolding cached
  resolve_source_system cfg cache = elim (cached cfg.client_id cache) [
    | some name ↦ (name, cache)
    | none ↦
        let name : Text =
          if is_empty cfg.company_name then cfg.source_system else cfg.company_name in
        (name, (cfg.client_id, name) ∷ cache)
  ]

  -- the row before it is hashed
  abbrev pub new_log : Settings → Call → Text → Action → Text → ℤ → Text → Text → AuditLog
  new_log cfg call actor action resource time source meta = record {
    log_id = call.fresh_id;
    client_id = cfg.client_id;
    actor = actor;
    action = action_text action;
    resource = resource;
    timestamp = time;
    db_timestamp = some call.now;
    source_system = source;
    authorization_context = [];
    metadata = meta;
    is_latest = true;
    hash_value = [];
    merkle_root = [];
    blockchain_tx_id = none;
    blockchain_timestamp = none;
    status = received;
    snapshot_status = snapshot_pending;
    integrity_status = not_checked;
    integrity_checked_at = none;
    integrity_source = unknown_source;
    integrity_run_id = [];
  }

  unfoldable pub hashed_log : AuditLog → AuditLog
  hashed_log l = record l { hash_value = generate_log_hash remarshal sha3 l; status = hashed }

  -- the last part of processMessage: the snapshot and the transaction
  unfoldable pub save_event :
      Settings → Call → Message → Text → Action → AuditLog → Tables → Tables × Outcome
  save_event cfg call msg table action log t = elim (build_snapshot call.builder log) [
    | none ↦ (t, failed)
    | some snapshot ↦ commit t (store_log log snapshot action table call.now msg t)
  ]

  -- processMessage from the choice of the actor on, for an operation other than a snapshot read
  unfoldable pub process_change :
      Settings → Call → Message → Fields Float → Text → Text → Tables → Tables × Outcome
  process_change cfg call msg payload table op t =
      let action = op_to_action op in
      let resource : Text = resource_of cfg table payload in
      let time : ℤ = timestamp_of call.now payload in
      let (actor, actors) =
        resolved_actor lib cfg (raw_actor lib cfg action payload resource t.logs) t in
      let (source, sources) = resolve_source_system cfg t.source_cache in
      let meta : Text = marshal (object (extract_metadata lib payload)) in
      if leb 1 (count_where (is_same_event cfg.client_id resource time) t.logs)
      then (record t { actor_cache = actors }, duplicate)
      else save_event cfg call msg table action
          (hashed_log (new_log cfg call actor action resource time source meta))
          (record t { actor_cache = actors; source_cache = sources })

  -- the changes of the user table, snapshot reads included
  unfoldable pub note_user : Settings → Fields Float → Text → ℤ → Tables → Tables
  note_user cfg payload table now t =
      if is_user_table cfg table then process_client_user_cdc lib cfg payload table now t else t

  -- the payload is decoded
  unfoldable pub process_payload :
      Settings → Call → Message → Fields Float → Tables → Tables × Outcome
  process_payload cfg call msg payload t =
      let table : Text = table_name_of msg payload in
      let t' : Tables = note_user cfg payload table call.now t in
      if is_empty table
      then (t, ignored)
      else if text_eq (operation_of payload) (codes "r")
      then (t', ignored)
      else process_change cfg call msg payload table (operation_of payload) t'

  unfoldable pub process_message : Settings → Call → Message → Tables → Tables × Outcome
  process_message cfg call msg t =
      if is_empty msg.message_value then (t, ignored) else elim (decode msg.message_value) [
        | none ↦ (t, ignored)
        | some raw ↦
            process_payload cfg call msg (inner_payload raw (get_field (codes "payload") raw)) t
      ]
