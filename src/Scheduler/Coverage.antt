-- ===== src/Scheduler/Coverage.antt =====
-- The ranges that the scheduler chooses leave no gap, and a client has one scheduled run at a time.
use auditchain_gateway_backe.Prelude.{
  ℕ, suc, ◌+◌, ◌≤◌, ◌≡◌, refl, true, false, ◌&&◌, Bool-cases, Option-cases, inl, inr, Option, none,
  some, List, [], ◌∷◌, arith, leb,
}
use auditchain_gateway_backe.Prelude.Text.{Text, is_empty, text_eq, codes}
use auditchain_gateway_backe.Prelude.Int.{ℤ, pos, ltb_ℤ, ◌-ℤ◌, ◌≤ℤ◌, -ℤ_parts}
use auditchain_gateway_backe.Prelude.Table.{count_where}
use auditchain_gateway_backe.Prelude.Mapped.{count_where-append}
use auditchain_gateway_backe.Jobs.{VerificationRun, JobStore, is_active, find_active, enqueue}
use auditchain_gateway_backe.Scheduler.{
  SchedulerConfig, new_scheduler, calculate_verification_range, has_active_run, enqueue_due_run,
}

-- the range begins no later than the end of the last completed run
abbrev pub JoinsLast : ℤ → Option ℤ → Type 0
JoinsLast from none = Unit
JoinsLast from (some to_time) = from ≤ℤ to_time

range_of_config :
    (cfg : SchedulerConfig) (now : ℤ) (last : Option ℤ)
    → ltb_ℤ (pos 0) cfg.lookback ≡ true
    → ltb_ℤ cfg.overlap (pos 0) ≡ false
    → let (from, to) = calculate_verification_range now last cfg.lookback cfg.overlap in
      (ltb_ℤ from to ≡ true) × (to ≡ now) × JoinsLast from last
unfolding calculate_verification_range
range_of_config cfg now none lb ov = (ground (arith, -ℤ_parts now cfg.lookback), refl, tt)
range_of_config cfg now (some t) lb ov = elim (Bool-cases (ltb_ℤ (t -ℤ cfg.overlap) now)) [
  | inl e ↦ rw e (e, refl, ground (arith, -ℤ_parts t cfg.overlap))
  | inr e ↦ rw e (
    ground (arith, -ℤ_parts now cfg.lookback),
    refl,
    ground (arith, -ℤ_parts now cfg.lookback, -ℤ_parts t cfg.overlap),
  )
]

new_scheduler_defaults :
    (day : ℤ) (c : SchedulerConfig)
    → ltb_ℤ (pos 0) day ≡ true
    → (ltb_ℤ (pos 0) (new_scheduler day c).lookback ≡ true)
      × (ltb_ℤ (new_scheduler day c).overlap (pos 0) ≡ false)
unfolding new_scheduler
new_scheduler_defaults day c h = ground arith

-- Whatever the settings are, a scheduled range is not empty, ends now, and begins no later than
-- the end of the client's last completed run. (A day has a positive length.)
pub scheduled_range_joins :
    (day : ℤ) (c : SchedulerConfig) (now : ℤ) (last : Option ℤ)
    → ltb_ℤ (pos 0) day ≡ true
    → let cfg = new_scheduler day c in
      let (from, to) = calculate_verification_range now last cfg.lookback cfg.overlap in
      (ltb_ℤ from to ≡ true) × (to ≡ now) × JoinsLast from last
scheduled_range_joins day c now last h =
    let (lookback, overlap) = new_scheduler_defaults day c h in
    range_of_config (new_scheduler day c) now last lookback overlap

-- how many runs of a client are queued or running
abbrev pub active_runs : Text → List VerificationRun → ℕ
active_runs client =
    count_where (λ (r : VerificationRun). text_eq r.client_id client && is_active r.status)

active_runs_of_one : (client : Text) (r : VerificationRun) → active_runs client (r ∷ []) ≤ 1
unfolding count_where
active_runs_of_one client r = ground arith

-- the tables after a call of Enqueue
store_after : JobStore → Option (VerificationRun × JobStore) → JobStore
store_after s none = s
store_after s (some found) = found.1

enqueue_active :
    (from to : ℤ) (client by : Text) (size : ℤ) (configured : ℕ) (id : Text) (now : ℤ)
    (s : JobStore)
    → active_runs client (store_after s (enqueue from to client by size configured id now s)).runs
      ≤ active_runs client s.runs + 1
unfolding enqueue store_after
enqueue_active from to client by size configured id now s = elim (Bool-cases (is_empty client)) [
  | inl e ↦ rw e (omega arith)
  | inr e ↦ elim (Option-cases (find_active from to client s.runs)) [
    | inl n ↦
        rw (e, n)
          (omega (
            arith,
            count_where-append
                (λ (r : VerificationRun). text_eq r.client_id client && is_active r.status) s.runs
                _,
            active_runs_of_one client _,
          ))
    | inr found ↦ rw (e, found.1) (omega arith)
  ]
]

leb-false : (a b : ℕ) → leb a b ≡ false → suc b ≤ a
leb-false a b h = ground arith

-- A tick of the scheduler for a client that has at most one active run leaves it with at most
-- one.
pub one_active_run :
    (cfg : SchedulerConfig) (configured : ℕ) (now : ℤ) (id client : Text) (s : JobStore)
    → active_runs client s.runs ≤ 1
    → active_runs client (enqueue_due_run cfg configured now id client s).runs ≤ 1
unfolding enqueue_due_run has_active_run store_after
one_active_run cfg configured now id client s h =
    elim (Bool-cases (leb 1 (active_runs client s.runs))) [
      | inl e ↦ rw e h
      | inr e ↦ rw e (
          omega (
            arith,
            leb-false 1 (active_runs client s.runs) e,
            enqueue_active _ _ client (codes "system:scheduler") cfg.batch_size configured id now s,
          ))
    ]
