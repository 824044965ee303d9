-- ===== src/Outbox/Unknown.antt =====
-- A row whose event type the worker does not know is never given up.
use auditchain_gateway_backe.Prelude.{
  ℕ, Option, none, ◌≡◌, Bool, true, false, ◌&&◌, ◌||◌, not, Bool-cases, inl, inr, some, List, [],
  ◌∷◌, arith, Option-cases,
}
use auditchain_gateway_backe.Prelude.Text.{Text, text_eq}
use auditchain_gateway_backe.Prelude.Int.{ℤ, ltb_ℤ, ◌-ℤ◌}
use auditchain_gateway_backe.Prelude.Counts.{All}
use auditchain_gateway_backe.Prelude.Table.{update_where}
use auditchain_gateway_backe.Outbox.Rows.{
  About, All-update_where, claim_next-claimable, claim_next-All, settle-other, settle-unknown,
}
use auditchain_gateway_backe.Outbox.{
  SnapshotOutbox, OutboxStore, Upload, unknown_event, is_processing, is_claimable, locked_before,
  claim_next, requeue_expired_claims, process_one,
}

-- one call of processOne: its worker, its time and the outcomes of its uploads
pub record Round : Type 0 where
  pub round_worker : Text
  pub round_time : ℤ
  pub round_upload : Upload

abbrev pub locked_until : ℤ → Option ℤ → Bool
locked_until time none = false
locked_until time (some t) = not (ltb_ℤ time t)

-- The row is claimed, or can be claimed, and nothing about it is later than `time`.
abbrev pub is_open : ℤ → SnapshotOutbox → Bool
is_open time o = (is_processing o.status && locked_until time o.locked_at) || is_claimable time o

-- what a row of unknown type with `n` attempts stays
abbrev pub IsOpenUnknown : ℕ → ℤ → SnapshotOutbox → Type 0
IsOpenUnknown n time o =
    (o.event_type ≡ unknown_event) × (o.attempt_count ≡ n) × (is_open time o ≡ true)

due_again :
    (cutoff time later : ℤ) (o : SnapshotOutbox)
    → ltb_ℤ time cutoff ≡ true
    → ltb_ℤ later time ≡ false
    → (is_processing o.status && locked_before cutoff o.locked_at) ≡ false
    → is_open time o ≡ true
    → is_claimable later o ≡ true
due_again cutoff time later o over after kept open_row = ground arith

module _ (minute base max_attempts : ℕ) (lease : ℤ) where
  unfoldable pub process_rounds : List Round → OutboxStore → OutboxStore
  process_rounds [] s = s
  process_rounds (r ∷ rs) s =
      process_rounds rs
        (process_one minute base max_attempts lease r.round_worker r.round_upload r.round_time s)

  requeue_keeps-open :
      (id : Text) (n : ℕ) (time now : ℤ) (rows : List SnapshotOutbox)
      → ltb_ℤ time now ≡ false
      → All (About id (IsOpenUnknown n time)) rows
      → All (About id (IsOpenUnknown n time)) (requeue_expired_claims lease now rows)
  unfolding requeue_expired_claims
  requeue_keeps-open id n time now rows before h =
      All-update_where (About id (IsOpenUnknown n time)) _ _ rows
        (λ o expired kept mine. ((kept mine).0, (kept mine).1, ground (arith, before))) h

  round_keeps-open :
      (id : Text) (n : ℕ) (time : ℤ) (r : Round) (s : OutboxStore)
      → ltb_ℤ time r.round_time ≡ false
      → All (About id (IsOpenUnknown n time)) s.outbox
      → let s' : OutboxStore =
          process_one minute base max_attempts lease r.round_worker r.round_upload r.round_time s in
        All (About id (IsOpenUnknown n time)) s'.outbox
  unfolding process_one
  round_keeps-open id n time r s before h =
      let freed = requeue_keeps-open id n time r.round_time s.outbox before h in
      let kept =
        claim_next-All lease r.round_worker r.round_time s.outbox (About id (IsOpenUnknown n time))
          freed (λ a o ka due same ko mine. ((ko mine).0, (ko mine).1, ground (arith, before))) in
      elim (Option-cases (claim_next lease r.round_worker r.round_time s.outbox).0) [
        | inl e ↦ rw (e, process_one) kept
        | inr (o, e) ↦
            let claimed =
              claim_next-claimable lease r.round_worker r.round_time s.outbox o
                (About id (IsOpenUnknown n time)) freed e in
            elim (Bool-cases (text_eq o.id id)) [
              | inl mine ↦
                  rw
                    (
                      e,
                      process_one,
                      settle-unknown minute base max_attempts r.round_upload r.round_time o _
                          (claimed.0 mine).0,
                    )
                    kept
              | inr other ↦
                  rw (e, process_one)
                    (settle-other id (IsOpenUnknown n time) minute base max_attempts r.round_upload
                      r.round_time o _ other kept)
            ]
      ]

  rounds_keep-open :
      (id : Text) (n : ℕ) (time : ℤ) (rs : List Round) (s : OutboxStore)
      → All (λ (r : Round). ltb_ℤ time r.round_time ≡ false) rs
      → All (About id (IsOpenUnknown n time)) s.outbox
      → All (About id (IsOpenUnknown n time)) (process_rounds rs s).outbox
  unfolding process_rounds
  rounds_keep-open id n time [] s before h = h
  rounds_keep-open id n time (r ∷ rs) s before h =
      rounds_keep-open id n time rs _ before.1 (round_keeps-open id n time r s before.0 h)

  -- still waiting for a worker, with the same number of attempts
  abbrev pub IsDueUnknown : ℕ → ℤ → SnapshotOutbox → Type 0
  IsDueUnknown n later o =
      (o.event_type ≡ unknown_event) × (o.attempt_count ≡ n) × (is_claimable later o ≡ true)

  requeue_frees :
      (id : Text) (n : ℕ) (time later : ℤ) (rows : List SnapshotOutbox)
      → ltb_ℤ time (later -ℤ lease) ≡ true
      → ltb_ℤ later time ≡ false
      → All (About id (IsOpenUnknown n time)) rows
      → All (About id (IsDueUnknown n later)) (requeue_expired_claims lease later rows)
  unfolding requeue_expired_claims update_where
  requeue_frees id n time later [] over after h = tt
  requeue_frees id n time later (o ∷ os) over after h =
      elim (Bool-cases (is_processing o.status && locked_before (later -ℤ lease) o.locked_at)) [
        | inl e ↦ rw e (
          (λ mine. ((h.0 mine).0, (h.0 mine).1, ground arith)),
          requeue_frees id n time later os over after h.1,
        )
        | inr e ↦ rw e (
          (λ mine. (
            (h.0 mine).0,
            (h.0 mine).1,
            due_again (later -ℤ lease) time later o over after e (h.0 mine).2,
          )),
          requeue_frees id n time later os over after h.1,
        )
      ]

  -- A row of a type that the worker does not know is never given up: after any rounds of any workers
  -- up to a time, whatever their uploads give and whatever the limit of attempts is, the row has the
  -- attempts that it had, and once the lease is over its claim is freed and it is due again.
  pub unknown_never_given_up :
      (id : Text) (n : ℕ) (time later : ℤ) (rs : List Round) (s : OutboxStore)
      → All (λ (r : Round). ltb_ℤ time r.round_time ≡ false) rs
      → ltb_ℤ time (later -ℤ lease) ≡ true
      → ltb_ℤ later time ≡ false
      → All (About id (IsOpenUnknown n time)) s.outbox
      → All
          (About id (IsDueUnknown n later))
          (requeue_expired_claims lease later (process_rounds rs s).outbox)
  unknown_never_given_up id n time later rs s before over after h =
      requeue_frees id n time later _ over after (rounds_keep-open id n time rs s before h)
