-- ===== src/Scheduler.antt =====
-- The scheduler of verification runs (internal/modules/audit/verification_scheduler.go): one run
-- for each active client on each tick, from where the client's last completed run ended. Times and
-- durations are integers in one unit.
pub mod Coverage
mod Examples
use auditchain_gateway_backe.Prelude.{
  ℕ, Bool, true, false, not, ◌&&◌, Option, none, some, List, [], ◌∷◌, leb, if◌then◌else◌,
}
use auditchain_gateway_backe.Prelude.Text.{Text, codes, text_eq}
use auditchain_gateway_backe.Prelude.Int.{ℤ, pos, ltb_ℤ, ◌-ℤ◌}
use auditchain_gateway_backe.Prelude.Table.{select, count_where, order_by}
use auditchain_gateway_backe.Jobs.{
  VerificationRun, JobStore, is_active, is_completed, head_run, enqueue, same_time,
}

pub record SchedulerConfig : Type 0 where
  pub interval : ℤ
  pub lookback : ℤ
  pub overlap : ℤ
  pub batch_size : ℤ

-- the defaults of NewVerificationScheduler; `day` is 24 hours
unfoldable pub new_scheduler : ℤ → SchedulerConfig → SchedulerConfig
new_scheduler day c =
    let interval : ℤ = if ltb_ℤ (pos 0) c.interval then c.interval else day in
    record {
      interval = interval;
      lookback = if ltb_ℤ (pos 0) c.lookback then c.lookback else interval;
      overlap = if ltb_ℤ c.overlap (pos 0) then pos 0 else c.overlap;
      batch_size = c.batch_size;
    }

-- calculateVerificationRange, for the end of the last completed run
unfoldable pub calculate_verification_range : ℤ → Option ℤ → ℤ → ℤ → ℤ × ℤ
calculate_verification_range now none lookback overlap = (now -ℤ lookback, now)
calculate_verification_range now (some to_time) lookback overlap =
    if ltb_ℤ (to_time -ℤ overlap) now then (to_time -ℤ overlap, now) else (now -ℤ lookback, now)

unfoldable pub has_active_run : Text → List VerificationRun → Bool
has_active_run client runs =
    leb 1
      (count_where (λ (r : VerificationRun). text_eq r.client_id client && is_active r.status) runs)

-- ORDER BY of a column that may be null, with nulls first as in a descending order
unfoldable pub later_first : Option ℤ → Option ℤ → Bool
later_first none b = true
later_first (some a) none = false
later_first (some a) (some b) = not (ltb_ℤ a b)

-- ORDER BY to_time DESC, completed_at DESC, created_at DESC
unfoldable pub latest_first : VerificationRun → VerificationRun → Bool
unfolding later_first
latest_first a b =
    if ltb_ℤ b.to_time a.to_time
    then true
    else if ltb_ℤ a.to_time b.to_time
    then false
    else if not (later_first b.completed_at a.completed_at)
    then true
    else if not (later_first a.completed_at b.completed_at)
    then false
    else not (ltb_ℤ a.created_at b.created_at)

unfoldable pub latest_completed_run : Text → List VerificationRun → Option VerificationRun
unfolding latest_first
latest_completed_run client runs = head_run (
    order_by latest_first
      (select (λ (r : VerificationRun). text_eq r.client_id client && is_completed r.status) runs))

abbrev pub end_of : Option VerificationRun → Option ℤ
end_of none = none
end_of (some r) = some r.to_time

-- one client in the loop of enqueueDueRuns; `id` is the UUID of a new run
unfoldable pub enqueue_due_run : SchedulerConfig → ℕ → ℤ → Text → Text → JobStore → JobStore
unfolding calculate_verification_range
enqueue_due_run cfg configured now id client s =
    if has_active_run client s.runs
    then s
    else let (from, to) =
        calculate_verification_range now (end_of (latest_completed_run client s.runs)) cfg.lookback
          cfg.overlap in
      elim (enqueue from to client (codes "system:scheduler") cfg.batch_size configured id now s) [
        | none ↦ s
        | some found ↦ found.1
      ]

-- the loop, for the clients with the ids of their new runs
unfoldable pub enqueue_due_runs : SchedulerConfig → ℕ → ℤ → List (Text × Text) → JobStore → JobStore
unfolding enqueue_due_run
enqueue_due_runs cfg configured now [] s = s
enqueue_due_runs cfg configured now ((client, id) ∷ clients) s =
    enqueue_due_runs cfg configured now clients (enqueue_due_run cfg configured now id client s)
