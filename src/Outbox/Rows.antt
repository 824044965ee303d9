-- ===== src/Outbox/Rows.antt =====
-- How a claim and the end of an upload change the rows of the outbox.
use auditchain_gateway_backe.Prelude.{
  ℕ, suc, leb, ◌==◌, if◌then◌else◌, ◌≡◌, refl, ap, subst, ◌∙◌, Bool, true, false, Bool-cases, inl,
  inr, some, List, [], ◌∷◌, arith, Option-cases,
}
use auditchain_gateway_backe.Prelude.Text.{Text, text_eq, text_eq_iff}
use auditchain_gateway_backe.Prelude.Int.{ℤ}
use auditchain_gateway_backe.Prelude.Counts.{All}
use auditchain_gateway_backe.Prelude.Table.{update_where, select, order_by, insert_by}
use auditchain_gateway_backe.Model.{SnapshotStatus, verified, snapshot_failed, snapshot_retry}
use auditchain_gateway_backe.Outbox.{
  SnapshotOutbox, OutboxStore, Upload, EventType, audit_snapshot, recovery_snapshot, completed_row,
  failed_row, commit, unknown_event, is_claimable, head_row, oldest_row, has_outbox_id, lock_row,
  mark_failure, mark_success, settle, claim_next, requeue_expired_claims, set_record_status,
}

module _ {ℓ κ} {A : Type ℓ} (P : A → Type κ) where
  pub All-update_where :
      (p : A → Bool) (f : A → A) (xs : List A)
      → ((a : A) → p a ≡ true → P a → P (f a))
      → All P xs
      → All P (update_where p f xs)
  unfolding update_where
  All-update_where p f [] keep h = tt
  All-update_where p f (x ∷ xs) keep h = elim (Bool-cases (p x)) [
    | inl e ↦ rw e (keep x e h.0, All-update_where p f xs keep h.1)
    | inr e ↦ rw e (h.0, All-update_where p f xs keep h.1)
  ]

  All-insert_by :
      (before : A → A → Bool) (x : A) (ys : List A) → P x → All P ys → All P (insert_by before x ys)
  unfolding insert_by
  All-insert_by before x [] hx h = (hx, tt)
  All-insert_by before x (y ∷ ys) hx h = elim (Bool-cases (before x y)) [
    | inl e ↦ rw e (hx, (h.0, h.1))
    | inr e ↦ rw e (h.0, All-insert_by before x ys hx h.1)
  ]

  All-order_by : (before : A → A → Bool) (xs : List A) → All P xs → All P (order_by before xs)
  unfolding order_by
  All-order_by before [] h = tt
  All-order_by before (x ∷ xs) h =
      All-insert_by before x (order_by before xs) h.0 (All-order_by before xs h.1)

  -- the rows that a query selects, and that it selects them
  All-select : (p : A → Bool) (xs : List A) → All P xs → All (λ a. P a × (p a ≡ true)) (select p xs)
  unfolding select
  All-select p [] h = tt
  All-select p (x ∷ xs) h = elim (Bool-cases (p x)) [
    | inl e ↦ rw e ((h.0, e), All-select p xs h.1)
    | inr e ↦ rw e (All-select p xs h.1)
  ]

head_row-All {κ} :
    (P : SnapshotOutbox → Type κ) (xs : List SnapshotOutbox) (o : SnapshotOutbox)
    → All P xs
    → head_row xs ≡ some o
    → P o
head_row-All P [] o h e = absurd (cc e)
head_row-All P (x ∷ xs) o h e = let same : x ≡ o = cc in subst P same h.0

module _ (lease : ℤ) (worker : Text) (now : ℤ) (rows : List SnapshotOutbox) where
  -- the claimed row is one of the rows after the expired claims are freed, and is due
  pub claim_next-claimable {κ} :
      (o : SnapshotOutbox) (P : SnapshotOutbox → Type κ)
      → All P (requeue_expired_claims lease now rows)
      → (claim_next lease worker now rows).0 ≡ some o
      → P o × (is_claimable now o ≡ true)
  unfolding claim_next
  claim_next-claimable o P h e =
      elim (Option-cases (
        head_row (
          order_by oldest_row
            (select (is_claimable now) (requeue_expired_claims lease now rows))))) [
              | inl n ↦ absurd (cc (rw (n, claim_next) at e))
              | inr (a, found) ↦
                  head_row-All (λ x. P x × (is_claimable now x ≡ true)) _ o
                    (All-order_by (λ x. P x × (is_claimable now x ≡ true)) oldest_row _
                      (All-select P (is_claimable now) (requeue_expired_claims lease now rows) h))
                    (found ∙ rw (found, claim_next) at e)
            ]

  -- a claim keeps what its two updates keep
  pub claim_next-All {κ} :
      (P : SnapshotOutbox → Type κ)
      → All P (requeue_expired_claims lease now rows)
      → ((a r : SnapshotOutbox)
          → P a
          → is_claimable now a ≡ true
          → has_outbox_id a.id r ≡ true
          → P r
          → P (lock_row now worker r))
      → All P (claim_next lease worker now rows).1
  unfolding claim_next
  claim_next-All P h keep =
      elim (Option-cases (
        head_row (
          order_by oldest_row
            (select (is_claimable now) (requeue_expired_claims lease now rows))))) [
              | inl n ↦ rw (n, claim_next) h
              | inr (a, found) ↦
                  let claimed = claim_next-claimable a P h (rw (found, claim_next) refl) in
                  rw (found, claim_next)
                    (All-update_where P (has_outbox_id a.id) (lock_row now worker)
                      (requeue_expired_claims lease now rows)
                      (λ r same kept. keep a r claimed.0 claimed.1 same kept) h)
            ]

-- a property of the rows of one id
abbrev pub About : Text → (SnapshotOutbox → Type 0) → SnapshotOutbox → Type 0
About id Q o = text_eq o.id id ≡ true → Q o

pub other_row :
    (id other : Text) (r : SnapshotOutbox)
    → text_eq other id ≡ false
    → has_outbox_id other r ≡ true
    → text_eq r.id id ≡ true
    → ⊥
other_row id other r differ same mine =
    cc (differ, ap (λ (t : Text). text_eq t id) ((text_eq_iff r.id other).0 same), mine)

set_record_status-outbox :
    (kind : EventType) (id : Text) (status : SnapshotStatus) (s s' : OutboxStore) (n : ℕ)
    → set_record_status kind id status s ≡ some (n, s')
    → s'.outbox ≡ s.outbox
unfolding set_record_status
set_record_status-outbox recovery_snapshot id status s s' n e = ground arith
set_record_status-outbox audit_snapshot id status s s' n e = ground arith
set_record_status-outbox unknown_event id status s s' n e = absurd (cc e)

module _ (id : Text) (Q : SnapshotOutbox → Type 0) where
  mark_success-other :
      (now : ℤ) (o : SnapshotOutbox) (s : OutboxStore)
      → text_eq o.id id ≡ false
      → All (About id Q) s.outbox
      → All (About id Q) (commit s (mark_success now o s)).outbox
  unfolding mark_success
  mark_success-other now o s differ h =
      elim (Option-cases (set_record_status o.event_type o.log_id verified s)) [
        | inl e ↦ rw (e, mark_success) h
        | inr ((n, s'), e) ↦ elim (Bool-cases (n == 1)) [
          | inr f ↦ rw (e, mark_success) (rw f h)
          | inl f ↦
              rw (e, mark_success)
                (rw f (
                  All-update_where (About id Q) (has_outbox_id o.id) (completed_row now) s'.outbox
                    (λ r same kept mine. absurd (other_row id o.id r differ same mine))
                    (rw (set_record_status-outbox o.event_type o.log_id verified s s' n e) h)))
        ]
      ]

  mark_failure-other :
      (minute base max_attempts : ℕ) (now : ℤ) (error : Text) (o : SnapshotOutbox) (s : OutboxStore)
      → text_eq o.id id ≡ false
      → All (About id Q) s.outbox
      → All (About id Q) (commit s (mark_failure minute base max_attempts now error o s)).outbox
  unfolding mark_failure
  mark_failure-other minute base max_attempts now error o s differ h =
      let status =
        if leb max_attempts (suc o.attempt_count) then snapshot_failed else snapshot_retry in
      elim (Option-cases (set_record_status o.event_type o.log_id status s)) [
        | inl e ↦ rw (e, mark_failure) h
        | inr ((n, s'), e) ↦
            rw (e, mark_failure)
              (All-update_where (About id Q) (has_outbox_id o.id)
                (failed_row minute base max_attempts now (suc o.attempt_count) error) s'.outbox
                (λ r same kept mine. absurd (other_row id o.id r differ same mine))
                (rw (set_record_status-outbox o.event_type o.log_id status s s' n e) h))
      ]

  -- the end of the upload of another row
  pub settle-other :
      (minute base max_attempts : ℕ) (upload : Upload) (now : ℤ) (o : SnapshotOutbox)
      (s : OutboxStore)
      → text_eq o.id id ≡ false
      → All (About id Q) s.outbox
      → All (About id Q) (settle minute base max_attempts upload now o s).outbox
  unfolding settle
  settle-other minute base max_attempts upload now o s differ h = elim (Option-cases (upload o)) [
    | inl e ↦ rw (e, settle) (mark_success-other now o s differ h)
    | inr (error, e) ↦
        rw (e, settle) (mark_failure-other minute base max_attempts now error o s differ h)
  ]

pub settle-unknown :
    (minute base max_attempts : ℕ) (upload : Upload) (now : ℤ) (o : SnapshotOutbox)
    (s : OutboxStore)
    → o.event_type ≡ unknown_event
    → settle minute base max_attempts upload now o s ≡ s
unfolding settle mark_success mark_failure set_record_status
settle-unknown minute base max_attempts upload now o s u = elim (Option-cases (upload o)) [
  | inl e ↦ rw (e, settle, mark_success, mark_failure, u) refl
  | inr (error, e) ↦ rw (e, settle, mark_success, mark_failure, u) refl
]
