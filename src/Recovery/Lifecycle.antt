-- ===== src/Recovery/Lifecycle.antt =====
-- What a request in status SUCCEEDED has behind it, over all orders of the steps.
use auditchain_gateway_backe.Prelude.{ℕ, List, ◌≡◌, Bool, true, false, Option, none, some, arith}
use auditchain_gateway_backe.Prelude.Text.{Text}
use auditchain_gateway_backe.Recovery.EventHash.{cdc_pending, EventFacts}
use auditchain_gateway_backe.Recovery.{
  pending_execution, RecoveryEvent, RecoveryRows, is_succeeded, is_cdc_confirmed, is_executing,
  is_pending_execution, transition_request, begin_execution, persist_direct_applied,
  fail_direct_request, mark_direct_cdc_confirmed, mark_direct_cdc_timeout, reconcile_direct_request,
  finalize_direct_recovery, aggregate_event, anchor_event,
}

-- a new request
abbrev pub new_request : RecoveryRows
new_request = record {
  status = pending_execution;
  cdc_status = cdc_pending;
  event = none;
  incident_resolved = false;
}

abbrev has_event : Option RecoveryEvent → Bool
has_event none = false
has_event (some e) = true

-- the event records a confirmed change
abbrev pub is_confirmed_event : Option RecoveryEvent → Bool
is_confirmed_event none = false
is_confirmed_event (some e) = is_cdc_confirmed e.content.event_cdc_status

record IsSound (r : RecoveryRows) : Type 0 where
  confirmed : is_cdc_confirmed r.cdc_status ≡ true → is_confirmed_event r.event ≡ true
  executing_unconfirmed : is_executing r.status ≡ true → is_cdc_confirmed r.cdc_status ≡ false
  waiting_unconfirmed : is_pending_execution r.status ≡ true → is_cdc_confirmed r.cdc_status ≡ false
  done : is_succeeded r.status ≡ true → is_cdc_confirmed r.cdc_status ≡ true
  closed : is_succeeded r.status ≡ true → r.incident_resolved ≡ true

module _ (remarshal : Text → Option Text) (sha3 : List ℕ → List ℕ) where
  -- One step of the service on the rows of a request, or of another request on its incident.
  pub data Step : RecoveryRows → RecoveryRows → Type 0 where
    decides :
        {r r' : RecoveryRows} (approve : Bool) → transition_request approve r ≡ some r' → Step r r'
    begins : {r r' : RecoveryRows} → begin_execution r ≡ some r' → Step r r'
    applies :
        {r r' : RecoveryRows} (facts : EventFacts)
        → persist_direct_applied remarshal sha3 facts r ≡ some r'
        → Step r r'
    fails :
        {r : RecoveryRows} (verification : Bool) (facts : EventFacts) (code message : Text)
        → Step r (fail_direct_request remarshal sha3 verification facts code message r)
    reconciles :
        {r r' : RecoveryRows} (found : Option Text) (late : Bool)
        → reconcile_direct_request remarshal sha3 found late r ≡ some r'
        → Step r r'
    finalizes : {r : RecoveryRows} (e : RecoveryEvent) → Step r (finalize_direct_recovery e r)
    aggregates : {r : RecoveryRows} → Step r (aggregate_event r)
    anchors : {r : RecoveryRows} → Step r (anchor_event r)
    resolved_elsewhere : {r : RecoveryRows} → Step r (record r { incident_resolved = true })

  pub data IsReachable : RecoveryRows → Type 0 where
    starts : IsReachable new_request
    goes : {r r' : RecoveryRows} → IsReachable r → Step r r' → IsReachable r'

  Step-IsSound : (r r' : RecoveryRows) → Step r r' → IsSound r → IsSound r'
  unfolding transition_request begin_execution persist_direct_applied fail_direct_request
      reconcile_direct_request mark_direct_cdc_confirmed mark_direct_cdc_timeout
      finalize_direct_recovery aggregate_event anchor_event
  Step-IsSound r r' (decides approve e) h = ground arith
  Step-IsSound r r' (begins e) h = ground arith
  Step-IsSound r r' (applies facts e) h = ground arith
  Step-IsSound r _ (fails verification facts code message) h = ground arith
  Step-IsSound r r' (reconciles none late e) h = ground arith
  Step-IsSound r r' (reconciles (some log_id) late e) h = ground arith
  Step-IsSound r _ (finalizes e) h = ground arith
  Step-IsSound r _ aggregates h = ground arith
  Step-IsSound r _ anchors h = ground arith
  Step-IsSound r _ resolved_elsewhere h = ground arith

  reachable-IsSound : (r : RecoveryRows) → IsReachable r → IsSound r
  reachable-IsSound _ starts = ground arith
  reachable-IsSound r' (goes {r = r} before step) =
      Step-IsSound r r' step (reachable-IsSound r before)

  -- In every state that a request reaches from its creation, by any steps in any order, the status
  -- SUCCEEDED means that the change was confirmed through CDC, in the request and in its event, and
  -- that its incident is resolved.
  pub succeeded_is_confirmed :
      (r : RecoveryRows)
      → IsReachable r
      → is_succeeded r.status ≡ true
      → (is_cdc_confirmed r.cdc_status ≡ true)
        × (is_confirmed_event r.event ≡ true)
        × (r.incident_resolved ≡ true)
  succeeded_is_confirmed r reached done =
      let h = reachable-IsSound r reached in (h.done done, h.confirmed (h.done done), h.closed done)
