-- ===== src/Recovery/Examples.antt =====
-- A recovery that succeeds.
use auditchain_gateway_backe.Prelude.{ℕ, List, ◌≡◌, refl, true, false, some, []}
use auditchain_gateway_backe.Prelude.Text.{codes, is_blank}
use auditchain_gateway_backe.Prelude.Int.{pos}
use auditchain_gateway_backe.Recovery.EventHash.{
  EventFacts, EventContent, cdc_pending, cdc_confirmed, result_succeeded, result_awaiting_cdc,
}
use auditchain_gateway_backe.Recovery.{
  hashed_event, RecoveryRows, RecoveryEvent, executing, applied_awaiting_cdc, is_succeeded,
  is_cdc_confirmed, begin_execution, persist_direct_applied, reconcile_direct_request,
  finalize_direct_recovery, aggregate_event,
}
use auditchain_gateway_backe.Recovery.Frozen.{
  is_in_tree, HasSameEvidence, HasOwnHash, stays, moves, aggregated_event_is_frozen,
}
use auditchain_gateway_backe.Recovery.Lifecycle.{
  IsReachable, starts, goes, begins, applies, reconciles, finalizes, aggregates, new_request,
  is_confirmed_event, succeeded_is_confirmed,
}

abbrev no_hash : List ℕ → List ℕ
no_hash bs = []

-- the columns of an event of an update
abbrev copied : EventFacts
copied = record {
  id = codes "ev-1";
  client_id = codes "c1";
  request_id = codes "rq-1";
  incident_id = [];
  target_log_id = [];
  selected_log_id = [];
  event_type = [];
  resource = codes "users:7";
  target_actor = [];
  target_action = [];
  source_system = [];
  target_source_system = [];
  target_authorization = [];
  target_source_record_id = [];
  recovered_metadata = [];
  executor_system = [];
  executed_by = [];
  reason = [];
  before_hash = [];
  after_hash = [];
  source_snapshot_object_key = [];
  source_snapshot_version_id = [];
  source_snapshot_checksum = [];
  source_snapshot_plain_hash = [];
  source_anchor_id = [];
  source_expected_merkle_root = [];
  operation = codes "UPSERT";
  reference_log_hash = [];
  reference_merkle_root = [];
  reference_anchor_id = [];
  client_before_hash = [];
  client_after_hash = [];
  readback_status = [];
  target_timestamp = some (pos 5);
  executed_at = pos 9;
}

abbrev applied_content : EventContent
applied_content = record {
  facts = copied;
  result_status = result_awaiting_cdc;
  event_cdc_status = cdc_pending;
  result_audit_log_id = [];
  failure_code = [];
  failure_reason = [];
}

abbrev confirmed_content : EventContent
confirmed_content = record applied_content {
  result_status = result_succeeded;
  event_cdc_status = cdc_confirmed;
  result_audit_log_id = codes "log-2";
}

abbrev confirmed_event : RecoveryEvent
confirmed_event = hashed_event some no_hash confirmed_content

abbrev executing_rows : RecoveryRows
executing_rows = record new_request { status = executing }

abbrev applied_rows : RecoveryRows
applied_rows = record new_request {
  status = applied_awaiting_cdc;
  event = some (hashed_event some no_hash applied_content);
}

abbrev confirmed_rows : RecoveryRows
confirmed_rows = record applied_rows { cdc_status = cdc_confirmed; event = some confirmed_event }

abbrev done_rows : RecoveryRows
done_rows = finalize_direct_recovery confirmed_event confirmed_rows

done-IsReachable : IsReachable some no_hash done_rows
unfolding begin_execution persist_direct_applied reconcile_direct_request
done-IsReachable =
    goes
      (goes
        (goes (goes {r' = executing_rows} starts (begins refl))
          (applies {r' = applied_rows} copied refl))
        (reconciles {r' = confirmed_rows} (some (codes "log-2")) false refl))
      (finalizes confirmed_event)

done_succeeded : is_succeeded done_rows.status ≡ true
unfolding finalize_direct_recovery is_blank
done_succeeded = refl

succeeded_is_confirmed_example :
    (is_cdc_confirmed done_rows.cdc_status ≡ true)
    × (is_confirmed_event done_rows.event ≡ true)
    × (done_rows.incident_resolved ≡ true)
succeeded_is_confirmed_example =
    succeeded_is_confirmed some no_hash done_rows done-IsReachable done_succeeded

-- the event in its tree, before the recovery is finalized
abbrev aggregated_rows : RecoveryRows
aggregated_rows = aggregate_event confirmed_rows

aggregated-IsReachable : IsReachable some no_hash aggregated_rows
unfolding begin_execution persist_direct_applied reconcile_direct_request
aggregated-IsReachable =
    goes
      (goes
        (goes (goes {r' = executing_rows} starts (begins refl))
          (applies {r' = applied_rows} copied refl))
        (reconciles {r' = confirmed_rows} (some (codes "log-2")) false refl))
      aggregates

aggregated_in_tree : is_in_tree aggregated_rows.event ≡ true
unfolding aggregate_event
aggregated_in_tree = refl

aggregated_event_is_frozen_example :
    HasSameEvidence aggregated_rows.event
      (finalize_direct_recovery confirmed_event aggregated_rows).event
    × HasOwnHash some no_hash (finalize_direct_recovery confirmed_event aggregated_rows).event
aggregated_event_is_frozen_example =
    aggregated_event_is_frozen some no_hash aggregated-IsReachable aggregated_in_tree
      (moves stays (finalizes confirmed_event))
