-- ===== src/Kafka/Statistics.antt =====
-- The counters of the dashboard (RecordLogStats of internal/engine/stats/stats.go).
use auditchain_gateway_backe.Prelude.{◌≡◌, List, [], ◌∷◌, arith, Bool-cases, inl, inr, ◌==◌}
use auditchain_gateway_backe.Prelude.Text.{Text}
use auditchain_gateway_backe.Prelude.Int.{ℤ}
use auditchain_gateway_backe.Prelude.Counts.{All}
use auditchain_gateway_backe.Prelude.Table.{update_where, count_where}
use auditchain_gateway_backe.Kafka.Tables.{
  Action, DashboardStats, is_stats_of, updated_stats, record_log_stats,
}

-- A log as RecordLogStats counts it: the client, the action and the clock.
pub record Recorded : Type 0 where
  pub recorded_client : Text
  pub recorded_action : Action
  pub recorded_at : ℤ

pub record_all : List Recorded → List DashboardStats → List DashboardStats
record_all [] rows = rows
record_all (r ∷ rs) rows =
    record_all rs (record_log_stats r.recorded_client r.recorded_action r.recorded_at rows)

-- the count of today is that of all days
abbrev pub CountsAllDays : DashboardStats → Type 0
CountsAllDays s = s.logs_today ≡ s.total_logs

updated_counts :
    (client : Text) (action : Action) (now : ℤ) (rows : List DashboardStats)
    → All CountsAllDays rows
    → All CountsAllDays (update_where (is_stats_of client) (updated_stats action now) rows)
unfolding update_where updated_stats
updated_counts client action now [] h = tt
updated_counts client action now (s ∷ rows) h = elim (Bool-cases (is_stats_of client s)) [
  | inl e ↦ rw e (omega arith, updated_counts client action now rows h.1)
  | inr e ↦ rw e (h.0, updated_counts client action now rows h.1)
]

recorded_counts :
    (client : Text) (action : Action) (now : ℤ) (rows : List DashboardStats)
    → All CountsAllDays rows
    → All CountsAllDays (record_log_stats client action now rows)
unfolding record_log_stats
recorded_counts client action now rows h =
    elim (Bool-cases (count_where (is_stats_of client) rows == 0)) [
      | inl e ↦ rw e (omega arith, h)
      | inr e ↦ rw e (updated_counts client action now rows h)
    ]

-- However many days the recorded logs span, the dashboard's number of logs of today is the number
-- of all logs: the reset at a new day is not written to the row.
pub logs_today_never_reset :
    (rs : List Recorded) (rows : List DashboardStats)
    → All CountsAllDays rows
    → All CountsAllDays (record_all rs rows)
unfolding record_all
logs_today_never_reset [] rows h = h
logs_today_never_reset (r ∷ rs) rows h =
    logs_today_never_reset rs _
      (recorded_counts r.recorded_client r.recorded_action r.recorded_at rows h)
