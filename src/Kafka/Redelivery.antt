-- ===== src/Kafka/Redelivery.antt =====
-- Messages that come again: Kafka delivers at least once, and the table of audit logs tells.
use auditchain_gateway_backe.Prelude.{
  ◌≡◌, ◌≢◌, ◌∙◌, refl, sym, subst, Bool, true, false, some, List, [], ◌∷◌, leb, leb→le,
  if◌then◌else◌, arith, Bool-cases, inl, inr,
}
use auditchain_gateway_backe.Prelude.Text.{Text, codes, text_eq, text_eq_refl, is_empty}
use auditchain_gateway_backe.Prelude.Int.{ℤ}
use auditchain_gateway_backe.Prelude.Table.{update_where, count_where}
use auditchain_gateway_backe.Prelude.Mapped.{count_where-append}
use auditchain_gateway_backe.Json.{Fields, get_field, number}
use auditchain_gateway_backe.Model.{AuditLog}
use auditchain_gateway_backe.Kafka.Libraries.{Libraries}
use auditchain_gateway_backe.Kafka.Tables.{Tables}
use auditchain_gateway_backe.Kafka.Store.{
  Message, Call, Outcome, stored, ignored, duplicate, is_same_event, is_of_resource, outdate,
}
use auditchain_gateway_backe.Kafka.Users.{Settings, process_client_user_cdc}
use auditchain_gateway_backe.Kafka.Consumer
use auditchain_gateway_backe.Kafka.Effect.{with_latest, save_event_logs}
use auditchain_gateway_backe.Kafka.Events.{Holds, Delivery, process_all, process_all-Holds}

-- the rows that a duplicate leaves as they are; users and caches are no part of them
abbrev pub KeepsRows : Tables → Tables → Type 0
KeepsRows t after =
    (after.logs ≡ t.logs)
    × (after.outbox ≡ t.outbox)
    × (after.offsets ≡ t.offsets)
    × (after.client_tables ≡ t.client_tables)
    × (after.stats ≡ t.stats)

abbrev pub IsDuplicate : Tables → Tables × Outcome → Type 0
IsDuplicate t r = (r.1 ≡ duplicate) × KeepsRows t r.0

keeps : (t : Tables) → KeepsRows t t
keeps t = (refl, refl, refl, refl, refl)

keeps_if :
    (b : Bool) (t s r : Tables) → KeepsRows t s → KeepsRows t r → KeepsRows t (if b then s else r)
keeps_if true t s r h k = h
keeps_if false t s r h k = k

Holds-new :
    (log : AuditLog) (rows : List AuditLog)
    → Holds log.client_id log.resource log.timestamp (with_latest log rows)
unfolding count_where
Holds-new log rows = ground (
  arith,
  count_where-append (is_same_event log.client_id log.resource log.timestamp)
      (update_where (is_of_resource log.client_id log.resource) outdate rows) (log ∷ []),
  text_eq_refl log.client_id,
  text_eq_refl log.resource,
)

ignored-ne-stored : ignored ≢ stored
ignored-ne-stored h = cc

module _ (lib : Libraries) (cfg : Settings) (msg : Message) (payload : Fields lib.Float)
    (table op : Text) where
  change-Holds :
      (call : Call) (t : Tables)
      → (Consumer.process_change lib cfg call msg payload table op t).1 ≡ stored
      → Holds cfg.client_id
          (Consumer.resource_of lib cfg table payload)
          (Consumer.timestamp_of lib call.now payload)
          (Consumer.process_change lib cfg call msg payload table op t).0.logs
  unfolding Consumer.process_change Consumer.hashed_log
  change-Holds call t done =
      elim (Bool-cases (
        leb 1 (
          count_where
            (is_same_event cfg.client_id (Consumer.resource_of lib cfg table payload)
              (Consumer.timestamp_of lib call.now payload))
            t.logs))) [
              | inl e ↦ rw e (leb→le 1 _ e)
              | inr e ↦
                  rw e (
                    rw (save_event_logs lib cfg call msg table _ _ _ (rw e at done))
                      (Holds-new _ _))
            ]

  change-IsDuplicate :
      (call : Call) (t : Tables)
      → Holds cfg.client_id
          (Consumer.resource_of lib cfg table payload)
          (Consumer.timestamp_of lib call.now payload)
          t.logs
      → IsDuplicate t (Consumer.process_change lib cfg call msg payload table op t)
  unfolding Consumer.process_change
  change-IsDuplicate call t h =
      let found : leb 1 (
            count_where
              (is_same_event cfg.client_id (Consumer.resource_of lib cfg table payload)
                (Consumer.timestamp_of lib call.now payload))
              t.logs)
          ≡ true =
        ground arith in
      rw found (refl, (refl, refl, refl, refl, refl))

module _ (lib : Libraries) where
  note_user_rows :
      (cfg : Settings) (payload : Fields lib.Float) (table : Text) (now : ℤ) (t : Tables)
      → KeepsRows t (Consumer.note_user lib cfg payload table now t)
  unfolding Consumer.note_user process_client_user_cdc
  note_user_rows cfg payload table now t =
      keeps_if _ t _ t (keeps_if _ t t _ (keeps t) (keeps t)) (keeps t)

  -- the time of a change does not depend on the clock
  abbrev pub HasTime : Fields lib.Float → Type 0
  HasTime payload =
      (ms : lib.Float) × (get_field (codes "__ts_ms") payload ≡ some (number ms))
      × (lib.is_positive ms ≡ true)

  same_time :
      (payload : Fields lib.Float) (now later : ℤ)
      → HasTime payload
      → Consumer.timestamp_of lib now payload ≡ Consumer.timestamp_of lib later payload
  unfolding Consumer.timestamp_of
  same_time payload now later (ms, e, p) = rw e (rw p refl)

  abbrev HoldsEvent : Settings → ℤ → Message → Fields lib.Float → Tables → Type 0
  HoldsEvent cfg now msg payload t =
      Holds cfg.client_id
        (Consumer.resource_of lib cfg (Consumer.table_name_of lib msg payload) payload)
        (Consumer.timestamp_of lib now payload) t.logs

  -- what is stored was neither without a table nor a snapshot read
  abbrev pub IsChange : Message → Fields lib.Float → Type 0
  IsChange msg payload =
      (is_empty (Consumer.table_name_of lib msg payload) ≡ false)
      × (text_eq (Consumer.operation_of lib payload) (codes "r") ≡ false)

  payload_stored :
      (cfg : Settings) (call : Call) (msg : Message) (payload : Fields lib.Float) (t : Tables)
      → (Consumer.process_payload lib cfg call msg payload t).1 ≡ stored
      → IsChange msg payload
        × HoldsEvent cfg call.now msg payload
            (Consumer.process_payload lib cfg call msg payload t).0
  unfolding Consumer.process_payload
  payload_stored cfg call msg payload t done =
      let table : Text = Consumer.table_name_of lib msg payload in
      let op : Text = Consumer.operation_of lib payload in
      elim (Bool-cases (is_empty table)) [
        | inl e ↦ absurd (ignored-ne-stored (rw e at done))
        | inr e ↦ elim (Bool-cases (text_eq op (codes "r"))) [
          | inl f ↦ absurd (ignored-ne-stored (rw (e, f) at done))
          | inr f ↦
              rw (e, f)
                (
                  (refl, refl),
                  change-Holds lib cfg msg payload table op call
                      (Consumer.note_user lib cfg payload table call.now t) (rw (e, f) at done),
                )
        ]
      ]

  payload-IsDuplicate :
      (cfg : Settings) (call : Call) (msg : Message) (payload : Fields lib.Float) (t : Tables)
      → IsChange msg payload
      → HoldsEvent cfg call.now msg payload t
      → IsDuplicate t (Consumer.process_payload lib cfg call msg payload t)
  unfolding Consumer.process_payload
  payload-IsDuplicate cfg call msg payload t (e, f) h =
      let table : Text = Consumer.table_name_of lib msg payload in
      let op : Text = Consumer.operation_of lib payload in
      let t' : Tables = Consumer.note_user lib cfg payload table call.now t in
      let same = note_user_rows cfg payload table call.now t in
      let found =
        subst
          (Holds cfg.client_id (Consumer.resource_of lib cfg table payload)
            (Consumer.timestamp_of lib call.now payload))
          (sym same.0) h in
      let again = change-IsDuplicate lib cfg msg payload table op call t' found in
      rw (e, f)
        (
          again.0,
          (
            again.1.0 ∙ same.0,
            again.1.1 ∙ same.1,
            again.1.2 ∙ same.2,
            again.1.3 ∙ same.3,
            again.1.4 ∙ same.4,
          ),
        )

  message_payload :
      (cfg : Settings) (call : Call) (msg : Message) (raw : Fields lib.Float) (t : Tables)
      → is_empty msg.message_value ≡ false
      → lib.decode msg.message_value ≡ some raw
      → Consumer.process_message lib cfg call msg t
        ≡ Consumer.process_payload lib cfg call msg
            (Consumer.inner_payload lib raw (get_field (codes "payload") raw))
            t
  unfolding Consumer.process_message
  message_payload cfg call msg raw t e d = rw (e, d) refl

  stored-ne-empty :
      (cfg : Settings) (call : Call) (msg : Message) (t : Tables)
      → (Consumer.process_message lib cfg call msg t).1 ≡ stored
      → is_empty msg.message_value ≡ false
  unfolding Consumer.process_message
  stored-ne-empty cfg call msg t done = elim (Bool-cases (is_empty msg.message_value)) [
    | inl e ↦ absurd (ignored-ne-stored (rw e at done))
    | inr e ↦ e
  ]

  -- A message that carries its time, and that was stored, is a duplicate whenever it is delivered
  -- again to the same client, whatever other messages were processed in between and whatever the
  -- clock says: audit logs, outbox, offsets, table counters and statistics stay as they are.
  -- Both deliveries meet the fields of the message in its order, where Go ranges over a map.
  pub redelivery-IsDuplicate :
      (cfg : Settings) (call again : Call) (msg : Message) (raw : Fields lib.Float)
      (between : List Delivery) (t : Tables)
      → lib.decode msg.message_value ≡ some raw
      → HasTime (Consumer.inner_payload lib raw (get_field (codes "payload") raw))
      → (Consumer.process_message lib cfg call msg t).1 ≡ stored
      → let s : Tables = process_all lib between (Consumer.process_message lib cfg call msg t).0 in
        IsDuplicate s (Consumer.process_message lib cfg again msg s)
  redelivery-IsDuplicate cfg call again msg raw between t d time done =
      let payload : Fields lib.Float =
        Consumer.inner_payload lib raw (get_field (codes "payload") raw) in
      let first : Tables = (Consumer.process_message lib cfg call msg t).0 in
      let s : Tables = process_all lib between first in
      let filled = stored-ne-empty cfg call msg t done in
      let same = message_payload cfg call msg raw t filled d in
      let change = payload_stored cfg call msg payload t (rw same at done) in
      let held : HoldsEvent cfg call.now msg payload first = rw same change.1 in
      let still = process_all-Holds lib _ _ _ between first held in
      subst (IsDuplicate s) (sym (message_payload cfg again msg raw s filled d)) (
        payload-IsDuplicate cfg again msg payload s change.0 (
          subst
            (λ time.
              Holds cfg.client_id
                (Consumer.resource_of lib cfg (Consumer.table_name_of lib msg payload) payload) time
                s.logs)
            (same_time payload call.now again.now time) still))

  -- A second change of the same row within one millisecond is dropped: after a stored change, any
  -- change of the client with the same resource and the same time counts as a duplicate and leaves
  -- no audit log, whatever its operation, its values and its offset are.
  pub simultaneous_change_is_dropped :
      (cfg : Settings) (call again : Call) (msg next : Message) (p q : Fields lib.Float)
      (t : Tables)
      → (Consumer.process_payload lib cfg call msg p t).1 ≡ stored
      → IsChange next q
      → Consumer.resource_of lib cfg (Consumer.table_name_of lib next q) q
        ≡ Consumer.resource_of lib cfg (Consumer.table_name_of lib msg p) p
      → Consumer.timestamp_of lib again.now q ≡ Consumer.timestamp_of lib call.now p
      → let s : Tables = (Consumer.process_payload lib cfg call msg p t).0 in
        IsDuplicate s (Consumer.process_payload lib cfg again next q s)
  simultaneous_change_is_dropped cfg call again msg next p q t done change resource time =
      let s : Tables = (Consumer.process_payload lib cfg call msg p t).0 in
      payload-IsDuplicate cfg again next q s change
        (rw (resource, time) (payload_stored cfg call msg p t done).1)
