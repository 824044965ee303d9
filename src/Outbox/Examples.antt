-- ===== src/Outbox/Examples.antt =====
-- Rounds of the worker at concrete rows.
use auditchain_gateway_backe.Prelude.{◌≡◌, ◌*◌, ◌^◌, min, refl, false, none, some, List, [], ◌∷◌}
use auditchain_gateway_backe.Prelude.Text.{Text, codes, text_eq}
use auditchain_gateway_backe.Prelude.Int.{pos, ◌-ℤ◌, ◌+ℤ◌}
use auditchain_gateway_backe.Prelude.Table.{select, order_by, update_where}
use auditchain_gateway_backe.Outbox.{
  SnapshotOutbox, EventType, audit_snapshot, unknown_event, outbox_pending, outbox_retry,
  OutboxStore, Upload, requeue_expired_claims, settle, claim_next, retry_delay,
}
use auditchain_gateway_backe.Outbox.Upload.{
  ObjectInfo, SnapshotStore, upload_snapshot, uploaded, latest_object, IsStored, ReportsChecksums,
  uploaded-IsStored,
}
use auditchain_gateway_backe.Outbox.Retry.{retry_delay_doubles}
use auditchain_gateway_backe.Outbox.Lease.{claimed_once, Action, claims, settles, act, act_all}
use auditchain_gateway_backe.Outbox.Rows.{About}
use auditchain_gateway_backe.Outbox.Unknown.{
  Round, process_rounds, IsDueUnknown, unknown_never_given_up,
}
use auditchain_gateway_backe.Prelude.Counts.{All}

retry_delay_doubles_example : retry_delay 60 5 5 ≡ min (5 * 2 ^ 4) (30 * 60)
retry_delay_doubles_example = retry_delay_doubles 60 5 4

abbrev waiting_row : Text → EventType → SnapshotOutbox
waiting_row id kind = record {
  id = id;
  log_id = codes "log-1";
  event_type = kind;
  payload = codes "{}";
  status = outbox_pending;
  attempt_count = 0;
  next_attempt_at = none;
  locked_at = none;
  locked_by = [];
  last_error = [];
  processed_at = none;
  created_at = pos 1;
}

abbrev two_waiting : List SnapshotOutbox
two_waiting = waiting_row (codes "a") audit_snapshot ∷ waiting_row (codes "b") audit_snapshot ∷ []

abbrev waiting_store : OutboxStore
waiting_store = record { outbox = two_waiting; logs = []; events = [] }

first_claim :
    (claim_next (pos 120) (codes "w1") (pos 200) two_waiting).0
    ≡ some (waiting_row (codes "a") audit_snapshot)
unfolding claim_next order_by select update_where
first_claim = refl

-- the other row is claimed too, and its upload fails
abbrev between : List Action
between =
    claims (codes "w2") (pos 205)
    ∷ settles (λ o. some (codes "no connection")) (pos 206) (waiting_row (codes "b") audit_snapshot)
    ∷ []

abbrev b_again : SnapshotOutbox
b_again = record (waiting_row (codes "b") audit_snapshot) {
  status = outbox_retry;
  attempt_count = 1;
  next_attempt_at = some (pos 211);
  last_error = codes "no connection";
}

second_claim :
    (claim_next
      (pos 120)
      (codes "w2")
      (pos 211)
      (act_all 60 5 10
        (pos 120)
        between
        (act 60 5 10 (pos 120) (claims (codes "w1") (pos 200)) waiting_store)).outbox).0
    ≡ some b_again
unfolding act_all act claim_next order_by select update_where text_eq ◌-ℤ◌ ◌+ℤ◌ settle retry_delay
second_claim = refl

claimed_once_example : text_eq (codes "b") (codes "a") ≡ false
unfolding ◌-ℤ◌ text_eq
claimed_once_example =
    claimed_once 60 5 10 (pos 120) (pos 200) (pos 211) (codes "w1") (codes "w2") waiting_store
      (waiting_row (codes "a") audit_snapshot) b_again between first_claim (refl, (refl, tt)) refl
      second_claim

abbrev refused : Upload
refused o = some (codes "no connection")

abbrev unknown_store : OutboxStore
unknown_store = record {
  outbox = waiting_row (codes "a") unknown_event ∷ [];
  logs = [];
  events = [];
}

-- two rounds with a limit of one attempt
abbrev rounds : List Round
rounds =
    record { round_worker = codes "w1"; round_time = pos 200; round_upload = refused }
    ∷ record { round_worker = codes "w2"; round_time = pos 400; round_upload = refused }
    ∷ []

unknown_never_given_up_example :
    All (About (codes "a") (IsDueUnknown 60 5 1 (pos 120) 0 (pos 600))) (
      requeue_expired_claims
        (pos 120)
        (pos 600)
        (process_rounds 60 5 1 (pos 120) rounds unknown_store).outbox)
unfolding ◌-ℤ◌
unknown_never_given_up_example =
    unknown_never_given_up 60 5 1 (pos 120) (codes "a") 0 (pos 400) (pos 600) rounds unknown_store
      (refl, (refl, tt)) refl refl ((λ mine. (refl, refl, refl)), tt)

-- an object store that holds one object, whose checksum is its text
abbrev stored_object : ObjectInfo
stored_object = record { version_id = codes "v1"; checksum_sha = codes "{}" }

abbrev one_object : SnapshotStore
one_object = record {
  stat_latest = some (λ key. latest_object stored_object);
  get_version = λ key version. some (codes "{}", stored_object);
  put = λ key payload. none;
}

abbrev text_itself : Text → Text
text_itself s = s

upload_again :
    upload_snapshot one_object text_itself (codes "key") (codes "{}") ≡ uploaded stored_object
unfolding upload_snapshot text_eq
upload_again = refl

one_object-ReportsChecksums : ReportsChecksums one_object text_itself
one_object-ReportsChecksums = record {
  of_put = λ key payload info h. absurd (cc h);
  of_read = λ key version bytes info h. cc h;
}

uploaded-IsStored_example : IsStored one_object text_itself (codes "key") (codes "{}") stored_object
uploaded-IsStored_example =
    uploaded-IsStored one_object text_itself (codes "key") (codes "{}") stored_object
      one_object-ReportsChecksums upload_again
