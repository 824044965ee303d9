-- ===== src/Scheduler/Examples.antt =====
-- Ticks of the scheduler at concrete settings.
use auditchain_gateway_backe.Prelude.{◌≤◌, ◌≡◌, refl, true, some, [], ◌∷◌, arith}
use auditchain_gateway_backe.Prelude.Text.{codes, text_eq}
use auditchain_gateway_backe.Prelude.Int.{pos, negsuc, ltb_ℤ}
use auditchain_gateway_backe.Prelude.Table.{count_where}
use auditchain_gateway_backe.Jobs.{JobStore, new_run}
use auditchain_gateway_backe.Samples.{received_log}
use auditchain_gateway_backe.Scheduler.{
  SchedulerConfig, new_scheduler, calculate_verification_range, enqueue_due_run,
}
use auditchain_gateway_backe.Scheduler.Coverage.{
  JoinsLast, scheduled_range_joins, active_runs, one_active_run,
}

-- no interval, no look-back, and an overlap below zero
abbrev unset : SchedulerConfig
unset = record { interval = pos 0; lookback = pos 0; overlap = negsuc 4; batch_size = pos 0 }

scheduled_range_joins_example :
    let cfg = new_scheduler (pos 24) unset in
    let (from, to) =
      calculate_verification_range (pos 100) (some (pos 90)) cfg.lookback cfg.overlap in
    (ltb_ℤ from to ≡ true) × (to ≡ pos 100) × JoinsLast from (some (pos 90))
scheduled_range_joins_example = scheduled_range_joins (pos 24) unset (pos 100) (some (pos 90)) refl

abbrev queued_store : JobStore
queued_store = record {
  rows = received_log (codes "a") (pos 5) ∷ [];
  runs = new_run (codes "run") (pos 0) (pos 9) (codes "c1") (codes "budi") 100 1 (pos 10) ∷ [];
}

one_run : active_runs (codes "c1") queued_store.runs ≤ 1
unfolding count_where text_eq
one_run = omega arith

one_active_run_example :
    active_runs
      (codes "c1")
      (enqueue_due_run unset 100 (pos 50) (codes "next") (codes "c1") queued_store).runs
    ≤ 1
one_active_run_example =
    one_active_run unset 100 (pos 50) (codes "next") (codes "c1") queued_store one_run
