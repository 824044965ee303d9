-- ===== src/Outbox.antt =====
-- The outbox of snapshots (internal/engine/snapshotworker/worker.go, statuses in
-- internal/models/recovery.go): rows are claimed under a lease, uploaded, and then completed,
-- retried later or given up. Times are integers, in one unit with the durations; a database call
-- fails only where the code itself returns an error (`none`: the transaction is rolled back).
pub mod Retry
pub mod Rows
pub mod Lease
pub mod Unknown
pub mod Upload
mod Examples
use auditchain_gateway_backe.Prelude.{
  ℕ, zero, suc, ◌+◌, ◌-◌, ◌*◌, Bool, true, false, not, ◌&&◌, ◌||◌, Option, none, some, List, [],
  ◌∷◌, map, if◌then◌else◌, ◌==◌, leb, ltb,
}
use auditchain_gateway_backe.Prelude.Text.{Text, codes, text_eq, is_empty, is_blank}
use auditchain_gateway_backe.Prelude.Int.{ℤ, pos, ltb_ℤ, ◌+ℤ◌, ◌-ℤ◌, pos_part}
use auditchain_gateway_backe.Prelude.Table.{select, update_where, count_where, order_by}
use auditchain_gateway_backe.Model.{
  AuditLog, SnapshotStatus, verified, snapshot_retry, snapshot_failed,
}

-- SnapshotOutbox.Status
pub data OutboxStatus : Type 0 where
  outbox_pending processing outbox_retry outbox_completed dead_letter : OutboxStatus

-- SnapshotOutbox.EventType; the empty type is that of an audit snapshot
pub data EventType : Type 0 where
  audit_snapshot recovery_snapshot unknown_event : EventType

pub record SnapshotOutbox : Type 0 where
  pub id : Text
  pub log_id : Text
  pub event_type : EventType
  pub payload : Text
  pub status : OutboxStatus
  pub attempt_count : ℕ
  pub next_attempt_at : Option ℤ
  pub locked_at : Option ℤ
  pub locked_by : Text
  pub last_error : Text
  pub processed_at : Option ℤ
  pub created_at : ℤ

-- the columns of RecoveryEvent that the worker writes
pub record EventRow : Type 0 where
  pub event_id : Text
  pub event_status : SnapshotStatus

pub record OutboxStore : Type 0 where
  pub outbox : List SnapshotOutbox
  pub logs : List AuditLog
  pub events : List EventRow

-- Config; durations may be zero or negative before New
pub record WorkerConfig : Type 0 where
  pub poll_interval : ℤ
  pub lease_timeout : ℤ
  pub max_attempts : ℤ
  pub retry_base : ℤ
  pub concurrency : ℤ
  pub environment : Text

abbrev pub positive_or : ℤ → ℤ → ℤ
positive_or default n = if ltb_ℤ (pos 0) n then n else default

-- the defaults of New, for the length of a second
unfoldable pub new_worker : ℕ → WorkerConfig → WorkerConfig
new_worker second c =
    let wanted : ℤ = positive_or (pos 1) c.concurrency in
    record {
      poll_interval = positive_or (pos (2 * second)) c.poll_interval;
      lease_timeout = positive_or (pos (120 * second)) c.lease_timeout;
      max_attempts = positive_or (pos 10) c.max_attempts;
      retry_base = positive_or (pos (5 * second)) c.retry_base;
      concurrency = if ltb_ℤ (pos 32) wanted then pos 32 else wanted;
      environment = if is_blank c.environment then codes "local" else c.environment;
    }

abbrev pub is_processing : OutboxStatus → Bool
is_processing processing = true
is_processing _ = false

-- status IN (PENDING, RETRY)
abbrev pub is_waiting : OutboxStatus → Bool
is_waiting outbox_pending = true
is_waiting outbox_retry = true
is_waiting _ = false

abbrev pub locked_before : ℤ → Option ℤ → Bool
locked_before cutoff none = false
locked_before cutoff (some t) = ltb_ℤ t cutoff

abbrev pub is_due : ℤ → Option ℤ → Bool
is_due now none = true
is_due now (some t) = not (ltb_ℤ now t)

-- requeueExpiredClaims, and the first update of claimNext
unfoldable pub requeue_expired_claims : ℤ → ℤ → List SnapshotOutbox → List SnapshotOutbox
requeue_expired_claims lease now =
    update_where
      (λ (o : SnapshotOutbox). is_processing o.status && locked_before (now -ℤ lease) o.locked_at)
      (λ o. record o {
        status = outbox_retry;
        locked_at = none;
        locked_by = [];
        next_attempt_at = some now;
      })

abbrev pub head_row : List SnapshotOutbox → Option SnapshotOutbox
head_row [] = none
head_row (o ∷ os) = some o

abbrev pub oldest_row : SnapshotOutbox → SnapshotOutbox → Bool
oldest_row a b = not (ltb_ℤ b.created_at a.created_at)

abbrev pub is_claimable : ℤ → SnapshotOutbox → Bool
is_claimable now o = is_waiting o.status && is_due now o.next_attempt_at

abbrev pub has_outbox_id : Text → SnapshotOutbox → Bool
has_outbox_id id o = text_eq o.id id

abbrev pub lock_row : ℤ → Text → SnapshotOutbox → SnapshotOutbox
lock_row now worker o = record o { status = processing; locked_at = some now; locked_by = worker }

-- claimNext
unfoldable pub claim_next :
    ℤ → Text → ℤ → List SnapshotOutbox → Option SnapshotOutbox × List SnapshotOutbox
unfolding requeue_expired_claims
claim_next lease worker now rows =
    let freed : List SnapshotOutbox = requeue_expired_claims lease now rows in
    let next : Option SnapshotOutbox =
      head_row (order_by oldest_row (select (is_claimable now) freed)) in
    elim next [
      | none ↦ (none, freed)
      | some o ↦ (some o, update_where (has_outbox_id o.id) (lock_row now worker) freed)
    ]

-- retryDelay, for the length of a minute; the loop runs for `doublings` rounds
unfoldable pub delay_after : ℕ → ℕ → ℕ → ℕ
delay_after minute delay zero = if ltb (30 * minute) delay then 30 * minute else delay
delay_after minute delay (suc doublings) =
    let doubled = delay_after minute (2 * delay) doublings in
    if leb (15 * minute) delay then 30 * minute else doubled

unfoldable pub retry_delay : ℕ → ℕ → ℕ → ℕ
unfolding delay_after
retry_delay minute base attempt = delay_after minute base (attempt - 1)

-- the update of the record that the snapshot is of, and how many rows it met
unfoldable pub set_record_status :
    EventType → Text → SnapshotStatus → OutboxStore → Option (ℕ × OutboxStore)
set_record_status recovery_snapshot id status s = some (
  count_where (λ (e : EventRow). text_eq e.event_id id) s.events,
  record s {
    events =
        update_where (λ (e : EventRow). text_eq e.event_id id)
          (λ e. record e { event_status = status }) s.events;
  },
)
set_record_status audit_snapshot id status s = some (
  count_where (λ (l : AuditLog). text_eq l.log_id id) s.logs,
  record s {
    logs =
        update_where (λ (l : AuditLog). text_eq l.log_id id)
          (λ l. record l { snapshot_status = status }) s.logs;
  },
)
set_record_status unknown_event id status s = none

abbrev pub completed_row : ℤ → SnapshotOutbox → SnapshotOutbox
completed_row now row = record row {
  status = outbox_completed;
  processed_at = some now;
  locked_at = none;
  locked_by = [];
  last_error = [];
}

-- markSuccess
unfoldable pub mark_success : ℤ → SnapshotOutbox → OutboxStore → Option OutboxStore
unfolding set_record_status
mark_success now o s = elim (set_record_status o.event_type o.log_id verified s) [
  | none ↦ none
  | some (affected, s') ↦
      if affected == 1
      then some
          (record s' { outbox = update_where (has_outbox_id o.id) (completed_row now) s'.outbox })
      else none
]

abbrev pub failed_row : ℕ → ℕ → ℕ → ℤ → ℕ → Text → SnapshotOutbox → SnapshotOutbox
failed_row minute base max_attempts now attempt error row = record row {
  status = if leb max_attempts attempt then dead_letter else outbox_retry;
  attempt_count = attempt;
  next_attempt_at =
      some (if leb max_attempts attempt then now else now +ℤ pos (retry_delay minute base attempt));
  locked_at = none;
  locked_by = [];
  last_error = error;
}

-- markFailure
unfoldable pub mark_failure :
    ℕ → ℕ → ℕ → ℤ → Text → SnapshotOutbox → OutboxStore → Option OutboxStore
unfolding set_record_status
mark_failure minute base max_attempts now error o s =
    let attempt = suc o.attempt_count in
    elim (set_record_status o.event_type o.log_id
      (if leb max_attempts attempt then snapshot_failed else snapshot_retry) s) [
        | none ↦ none
        | some (affected, s') ↦ some (record s' {
          outbox =
              update_where (has_outbox_id o.id)
                (failed_row minute base max_attempts now attempt error) s'.outbox;
        })
      ]

-- The outcome of the upload and its check in processOne: the error's text, or success (`none`).
abbrev pub Upload : Type 0
Upload = SnapshotOutbox → Option Text

-- a transaction that is rolled back leaves the store as it was
abbrev pub commit : OutboxStore → Option OutboxStore → OutboxStore
commit s none = s
commit s (some s') = s'

unfoldable pub settle : ℕ → ℕ → ℕ → Upload → ℤ → SnapshotOutbox → OutboxStore → OutboxStore
unfolding mark_success mark_failure
settle minute base max_attempts upload now o s = elim (upload o) [
  | none ↦ commit s (mark_success now o s)
  | some error ↦ commit s (mark_failure minute base max_attempts now error o s)
]

-- processOne
unfoldable pub process_one : ℕ → ℕ → ℕ → ℤ → Text → Upload → ℤ → OutboxStore → OutboxStore
unfolding claim_next settle
process_one minute base max_attempts lease worker upload now s =
    let (claimed, rows) = claim_next lease worker now s.outbox in
    let s' : OutboxStore = record s { outbox = rows } in
    elim claimed [ none ↦ s' | some o ↦ settle minute base max_attempts upload now o s' ]
