-- ===== src/Outbox/Lease.antt =====
-- A claimed row is not claimed again while its lease lasts.
use auditchain_gateway_backe.Prelude.{
  ℕ, ◌≡◌, refl, sym, ap, subst, ◌∙◌, Bool, true, false, ◌&&◌, Bool-cases, inl, inr, some, List, [],
  ◌∷◌, arith, Option-cases,
}
use auditchain_gateway_backe.Prelude.Text.{Text, text_eq}
use auditchain_gateway_backe.Prelude.Int.{ℤ, ltb_ℤ, ◌-ℤ◌}
use auditchain_gateway_backe.Prelude.Counts.{All}
use auditchain_gateway_backe.Prelude.Table.{update_where, select, order_by}
use auditchain_gateway_backe.Outbox.Rows.{
  About, All-update_where, claim_next-claimable, claim_next-All, other_row, settle-other,
}
use auditchain_gateway_backe.Outbox.{
  SnapshotOutbox, OutboxStore, Upload, is_processing, is_claimable, head_row, oldest_row,
  has_outbox_id, lock_row, locked_before, settle, claim_next, requeue_expired_claims,
}

-- the row is locked at this time, and all rows of this id are
abbrev pub IsLockedAt : ℤ → SnapshotOutbox → Type 0
IsLockedAt now o = (is_processing o.status ≡ true) × (o.locked_at ≡ some now)

abbrev pub IsLocked : Text → ℤ → SnapshotOutbox → Type 0
IsLocked id now = About id (IsLockedAt now)

and_right : (a b : Bool) → (a && b) ≡ true → b ≡ true
and_right true b h = h
and_right false b h = absurd (cc h)

no_expiry :
    (cutoff now : ℤ) (o : SnapshotOutbox)
    → ltb_ℤ now cutoff ≡ false
    → (is_processing o.status && locked_before cutoff o.locked_at) ≡ true
    → (is_processing o.status ≡ true) × (o.locked_at ≡ some now)
    → ⊥
no_expiry cutoff now o held expired locked = cc (
    sym held
    ∙ ap (locked_before cutoff) (sym locked.1)
    ∙ and_right (is_processing o.status) (locked_before cutoff o.locked_at) expired)

requeue_keeps-IsLocked :
    (lease : ℤ) (id : Text) (now later : ℤ) (rows : List SnapshotOutbox)
    → ltb_ℤ now (later -ℤ lease) ≡ false
    → All (IsLocked id now) rows
    → All (IsLocked id now) (requeue_expired_claims lease later rows)
unfolding requeue_expired_claims
requeue_keeps-IsLocked lease id now later rows held h =
    All-update_where (IsLocked id now) _ _ rows
      (λ o expired locked same.
        absurd (no_expiry (later -ℤ lease) now o held expired (locked same)))
      h

waits_not_processing :
    (p : SnapshotOutbox) (now : ℤ) → is_claimable now p ≡ true → is_processing p.status ≡ true → ⊥
waits_not_processing p now c h = ground arith

-- a locked row is not the one that a claim takes
claimed_other :
    (id : Text) (now later : ℤ) (p : SnapshotOutbox)
    → IsLocked id now p
    → is_claimable later p ≡ true
    → text_eq p.id id ≡ false
claimed_other id now later p locked c = elim (Bool-cases (text_eq p.id id)) [
  | inl e ↦ absurd (waits_not_processing p later c (locked e).0)
  | inr e ↦ e
]

-- the second update of a claim locks the row
lock_row-IsLocked :
    (id worker : Text) (now : ℤ) (rows : List SnapshotOutbox)
    → All (IsLocked id now) (update_where (has_outbox_id id) (lock_row now worker) rows)
unfolding update_where
lock_row-IsLocked id worker now [] = tt
lock_row-IsLocked id worker now (o ∷ os) = elim (Bool-cases (text_eq o.id id)) [
  | inl e ↦ rw e ((λ h. (refl, refl)), lock_row-IsLocked id worker now os)
  | inr e ↦ rw e ((λ h. absurd (cc)), lock_row-IsLocked id worker now os)
]

claim_next-IsLocked :
    (lease : ℤ) (worker : Text) (now : ℤ) (rows : List SnapshotOutbox) (o : SnapshotOutbox)
    → (claim_next lease worker now rows).0 ≡ some o
    → All (IsLocked o.id now) (claim_next lease worker now rows).1
unfolding claim_next
claim_next-IsLocked lease worker now rows o e =
    elim (Option-cases (
      head_row (
        order_by oldest_row (select (is_claimable now) (requeue_expired_claims lease now rows))))) [
          | inl n ↦ absurd (cc (rw (n, claim_next) at e))
          | inr (a, found) ↦
              let same : a ≡ o = cc (rw (found, claim_next) at e) in
              rw (found, claim_next, All)
                (subst
                  (λ x. All (IsLocked x.id now) (
                    update_where (has_outbox_id a.id) (lock_row now worker)
                      (requeue_expired_claims lease now rows)))
                  same (lock_row-IsLocked a.id worker now (requeue_expired_claims lease now rows)))
        ]

-- What the workers do between two claims: a claim by any of them, or the end of an upload with the
-- transaction of markSuccess or markFailure.
pub data Action : Type 0 where
  claims : Text → ℤ → Action
  settles : Upload → ℤ → SnapshotOutbox → Action

module _ (minute base max_attempts : ℕ) (lease : ℤ) where
  unfoldable pub act : Action → OutboxStore → OutboxStore
  act (claims worker time) s = record s { outbox = (claim_next lease worker time s.outbox).1 }
  act (settles upload time o) s = settle minute base max_attempts upload time o s

  unfoldable pub act_all : List Action → OutboxStore → OutboxStore
  unfolding act
  act_all [] s = s
  act_all (a ∷ acts) s = act_all acts (act a s)

  -- The claims are made while the lease from `now` lasts, and the uploads are of other rows.
  abbrev pub LeavesAlone : Text → ℤ → Action → Type 0
  LeavesAlone id now (claims worker time) = ltb_ℤ now (time -ℤ lease) ≡ false
  LeavesAlone id now (settles upload time o) = text_eq o.id id ≡ false

  act-IsLocked :
      (id : Text) (now : ℤ) (a : Action) (s : OutboxStore)
      → LeavesAlone id now a
      → All (IsLocked id now) s.outbox
      → All (IsLocked id now) (act a s).outbox
  unfolding act
  act-IsLocked id now (claims worker time) s held h =
      claim_next-All lease worker time s.outbox (IsLocked id now)
        (requeue_keeps-IsLocked lease id now time s.outbox held h)
        (λ a r locked due same kept mine.
          absurd (other_row id a.id r (claimed_other id now time a locked due) same mine))
  act-IsLocked id now (settles upload time o) s differ h =
      settle-other id (IsLockedAt now) minute base max_attempts upload time o s differ h

  act_all-IsLocked :
      (id : Text) (now : ℤ) (acts : List Action) (s : OutboxStore)
      → All (LeavesAlone id now) acts
      → All (IsLocked id now) s.outbox
      → All (IsLocked id now) (act_all acts s).outbox
  unfolding act_all
  act_all-IsLocked id now [] s held h = h
  act_all-IsLocked id now (a ∷ acts) s held h =
      act_all-IsLocked id now acts (act a s) held.1 (act-IsLocked id now a s held.0 h)

  -- A row that is claimed is not claimed again while its lease lasts and its own upload has not
  -- ended, whatever other claims of all workers and ends of the uploads of other rows come between,
  -- in any order.
  pub claimed_once :
      (now later : ℤ) (worker other : Text) (s : OutboxStore) (o p : SnapshotOutbox)
      (acts : List Action)
      → (claim_next lease worker now s.outbox).0 ≡ some o
      → All (LeavesAlone o.id now) acts
      → ltb_ℤ now (later -ℤ lease) ≡ false
      → (claim_next lease other later (act_all acts (act (claims worker now) s)).outbox).0 ≡ some p
      → text_eq p.id o.id ≡ false
  unfolding act
  claimed_once now later worker other s o p acts first apart held second =
      let s' : OutboxStore = act_all acts (act (claims worker now) s) in
      let locked : All (IsLocked o.id now) s'.outbox =
        act_all-IsLocked o.id now acts (act (claims worker now) s) apart
          (claim_next-IsLocked lease worker now s.outbox o first) in
      let claimed =
        claim_next-claimable lease other later s'.outbox p (IsLocked o.id now)
          (requeue_keeps-IsLocked lease o.id now later s'.outbox held locked) second in
      claimed_other o.id now later p claimed.0 claimed.1
