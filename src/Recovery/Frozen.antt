-- ===== src/Recovery/Frozen.antt =====
-- What has entered a Merkle tree does not change any more.
use auditchain_gateway_backe.Prelude.{
  ℕ, List, ◌≡◌, refl, ◌∙◌, Bool, true, false, not, Option, none, some, arith,
}
use auditchain_gateway_backe.Prelude.Text.{Text}
use auditchain_gateway_backe.Recovery.EventHash.{generate_recovery_event_hash}
use auditchain_gateway_backe.Recovery.{
  RecoveryEvent, RecoveryRows, is_executing, is_pending_execution, is_awaiting_cdc, is_cdc_pending,
  is_event_hashed, transition_request, begin_execution, persist_direct_applied, fail_direct_request,
  mark_direct_cdc_confirmed, mark_direct_cdc_timeout, reconcile_direct_request,
  finalize_direct_recovery, aggregate_event, anchor_event,
}
use auditchain_gateway_backe.Recovery.Lifecycle.{
  Step, decides, begins, applies, fails, reconciles, finalizes, resolved_elsewhere, aggregates,
  anchors, IsReachable, starts, goes,
}

abbrev waits_for_cdc : Option RecoveryEvent → Bool
waits_for_cdc none = false
waits_for_cdc (some e) = is_cdc_pending e.content.event_cdc_status

abbrev pub is_in_tree : Option RecoveryEvent → Bool
is_in_tree none = false
is_in_tree (some e) = not (is_event_hashed e.event_pipeline)

abbrev has_event : Option RecoveryEvent → Bool
has_event none = false
has_event (some e) = true

-- the columns of an event that its hash covers, and the hash
abbrev pub HasSameEvidence : Option RecoveryEvent → Option RecoveryEvent → Type 0
HasSameEvidence (some e) (some f) = (f.content ≡ e.content) × (f.event_hash ≡ e.event_hash)
HasSameEvidence none o = Unit {0}
HasSameEvidence (some e) none = ⊥

-- While a request waits for CDC its event does too, and such an event is in no tree.
record IsOrdered (r : RecoveryRows) : Type 0 where
  open_event :
      is_awaiting_cdc r.status ≡ true
      → is_cdc_pending r.cdc_status ≡ true
      → has_event r.event ≡ true
      → waits_for_cdc r.event ≡ true
  unexecuted : is_pending_execution r.status ≡ true → has_event r.event ≡ false
  running : is_executing r.status ≡ true → has_event r.event ≡ false
  settled : is_in_tree r.event ≡ true → waits_for_cdc r.event ≡ false

same_evidence_trans :
    (a b c : Option RecoveryEvent) → HasSameEvidence a b → HasSameEvidence b c → HasSameEvidence a c
same_evidence_trans none b c h k = tt
same_evidence_trans (some a) none c h k = absurd h
same_evidence_trans (some a) (some b) none h k = absurd k
same_evidence_trans (some a) (some b) (some c) h k = (k.0 ∙ h.0, k.1 ∙ h.1)

same_evidence_refl : (a : Option RecoveryEvent) → HasSameEvidence a a
same_evidence_refl none = tt
same_evidence_refl (some a) = (refl, refl)

module _ (remarshal : Text → Option Text) (sha3 : List ℕ → List ℕ) where
  Step-IsOrdered : (r r' : RecoveryRows) → Step remarshal sha3 r r' → IsOrdered r → IsOrdered r'
  unfolding transition_request begin_execution persist_direct_applied fail_direct_request
      reconcile_direct_request mark_direct_cdc_confirmed mark_direct_cdc_timeout
      finalize_direct_recovery aggregate_event anchor_event
  Step-IsOrdered r r' (decides approve e) h = ground arith
  Step-IsOrdered r r' (begins e) h = ground arith
  Step-IsOrdered r r' (applies facts e) h = ground arith
  Step-IsOrdered r _ (fails verification facts code message) h = ground arith
  Step-IsOrdered r r' (reconciles none late e) h = ground arith
  Step-IsOrdered r r' (reconciles (some log_id) late e) h = ground arith
  Step-IsOrdered r _ (finalizes e) h = ground arith
  Step-IsOrdered r _ aggregates h = ground arith
  Step-IsOrdered r _ anchors h = ground arith
  Step-IsOrdered r _ resolved_elsewhere h = ground arith

  reachable-IsOrdered : (r : RecoveryRows) → IsReachable remarshal sha3 r → IsOrdered r
  reachable-IsOrdered _ starts = ground arith
  reachable-IsOrdered r' (goes {r = r} before step) =
      Step-IsOrdered r r' step (reachable-IsOrdered r before)

  Step-freezes :
      (r r' : RecoveryRows)
      → Step remarshal sha3 r r'
      → IsOrdered r
      → is_in_tree r.event ≡ true
      → (is_in_tree r'.event ≡ true) × HasSameEvidence r.event r'.event
  unfolding transition_request begin_execution persist_direct_applied fail_direct_request
      reconcile_direct_request mark_direct_cdc_confirmed mark_direct_cdc_timeout
      finalize_direct_recovery aggregate_event anchor_event
  Step-freezes r r' (decides approve e) h t = ground arith
  Step-freezes r r' (begins e) h t = ground arith
  Step-freezes r r' (applies facts e) h t = ground arith
  Step-freezes r _ (fails verification facts code message) h t = ground arith
  Step-freezes r r' (reconciles none late e) h t = ground arith
  Step-freezes r r' (reconciles (some log_id) late e) h t = ground arith
  Step-freezes r _ (finalizes e) h t = ground arith
  Step-freezes r _ aggregates h t = ground arith
  Step-freezes r _ anchors h t = ground arith
  Step-freezes r _ resolved_elsewhere h t = ground arith

  -- steps one after the other
  pub data Steps (r : RecoveryRows) : RecoveryRows → Type 0 where
    stays : Steps r r
    moves : {q s : RecoveryRows} → Steps r q → Step remarshal sha3 q s → Steps r s

  Steps-IsReachable :
      {r s : RecoveryRows} → IsReachable remarshal sha3 r → Steps r s → IsReachable remarshal sha3 s
  Steps-IsReachable h stays = h
  Steps-IsReachable h (moves before step) = goes (Steps-IsReachable h before) step

  frozen :
      {r s : RecoveryRows}
      → IsReachable remarshal sha3 r
      → is_in_tree r.event ≡ true
      → Steps r s
      → (is_in_tree s.event ≡ true) × HasSameEvidence r.event s.event
  frozen {r} h t stays = (t, same_evidence_refl r.event)
  frozen {r} {s} h t (moves {q = q} before step) =
      let (kept, same) = frozen h t before in
      let ordered = reachable-IsOrdered q (Steps-IsReachable h before) in
      let next = Step-freezes q s step ordered kept in
      (next.0, same_evidence_trans r.event q.event s.event same next.1)

  abbrev pub HasOwnHash : Option RecoveryEvent → Type 0
  HasOwnHash none = Unit {0}
  HasOwnHash (some e) = e.event_hash ≡ generate_recovery_event_hash remarshal sha3 e.content

  Step-HasOwnHash :
      (r r' : RecoveryRows) → Step remarshal sha3 r r' → HasOwnHash r.event → HasOwnHash r'.event
  unfolding transition_request begin_execution persist_direct_applied fail_direct_request
      reconcile_direct_request mark_direct_cdc_confirmed mark_direct_cdc_timeout
      finalize_direct_recovery aggregate_event anchor_event
  Step-HasOwnHash r r' (decides approve e) h = ground arith
  Step-HasOwnHash r r' (begins e) h = ground arith
  Step-HasOwnHash r r' (applies facts e) h = ground arith
  Step-HasOwnHash r _ (fails verification facts code message) h = ground arith
  Step-HasOwnHash r r' (reconciles none late e) h = ground arith
  Step-HasOwnHash r r' (reconciles (some log_id) late e) h = ground arith
  Step-HasOwnHash r _ (finalizes e) h = ground arith
  Step-HasOwnHash r _ aggregates h = ground arith
  Step-HasOwnHash r _ anchors h = ground arith
  Step-HasOwnHash r _ resolved_elsewhere h = ground arith

  reachable-HasOwnHash : (r : RecoveryRows) → IsReachable remarshal sha3 r → HasOwnHash r.event
  reachable-HasOwnHash _ starts = tt
  reachable-HasOwnHash r' (goes {r = r} before step) =
      Step-HasOwnHash r r' step (reachable-HasOwnHash r before)

  -- Once the event of a request has been put in a Merkle tree, no later steps of the service, in any
  -- order, change any column that its hash covers, nor the hash, which is that of the columns: the
  -- leaf in the tree stays the hash of the event.
  pub aggregated_event_is_frozen :
      {r s : RecoveryRows}
      → IsReachable remarshal sha3 r
      → is_in_tree r.event ≡ true
      → Steps r s
      → HasSameEvidence r.event s.event × HasOwnHash s.event
  aggregated_event_is_frozen {r} {s} h t later =
      ((frozen h t later).1, reachable-HasOwnHash s (Steps-IsReachable h later))
