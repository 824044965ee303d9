-- ===== src/Trend/Examples.antt =====
-- A day with three logs, one of them outside the window.
use auditchain_gateway_backe.Prelude.{
  ℕ, ◌+◌, ◌≡◌, refl, ◌*◌, ◌/◌, none, some, List, [], ◌∷◌, get_elem?, arith,
}
use auditchain_gateway_backe.Prelude.Text.{Text, codes}
use auditchain_gateway_backe.Prelude.Int.{ℤ, pos, ◌+ℤ◌, ◌-ℤ◌}
use auditchain_gateway_backe.Trend.{
  TrendWindow, TrendRow, TrendCounts, window, parse_trend_range, counts_of, in_window, in_bucket,
  bucket_index_of, load_trend,
}
use auditchain_gateway_backe.Prelude.Table.{count_where}
use auditchain_gateway_backe.Trend.Buckets.{load_trend-counts}
use auditchain_gateway_backe.Trend.Totals.{total_over, total_of, load_trend-total}

abbrev hour : ℕ
hour = 3600000000

abbrev log_at : ℕ → Text → TrendRow
log_at time action = record {
  row_client = codes "c";
  row_time = pos time;
  row_action = some action;
  row_status = some (codes " valid ");
  row_source_status = none;
}

abbrev logs : List TrendRow
logs =
    log_at (10 * hour) (codes "insert")
    ∷ log_at (17 * hour) (codes "RECOVERY")
    ∷ log_at (17 * hour + 5) (codes "DELETE")
    ∷ []

abbrev eight_hours : TrendWindow
eight_hours = window (codes "8H") 8 8

range_of_query : parse_trend_range (codes " 8h ") ≡ some eight_hours
unfolding parse_trend_range
range_of_query = refl

last_bucket : bucket_index_of eight_hours (pos (10 * hour)) (log_at (17 * hour + 5) []) ≡ 7
unfolding bucket_index_of
last_bucket = refl

abbrev end_of_window : ℤ
end_of_window = pos (18 * hour)

load_trend-counts_example :
    get_elem? (load_trend logs (codes "c" ∷ []) eight_hours end_of_window) 7
    ≡ some (record {
      bucket_start = (end_of_window -ℤ pos (28800 * 1000000)) +ℤ pos (7 * (28800 / 8 * 1000000));
      point_counts =
          counts_of
            (in_bucket eight_hours
              (codes "c" ∷ [])
              (end_of_window -ℤ pos (28800 * 1000000))
              end_of_window
              7)
            logs;
    })
load_trend-counts_example =
    load_trend-counts logs (codes "c" ∷ []) eight_hours end_of_window 7 (omega arith)

abbrev last_counts : TrendCounts
last_counts =
    counts_of (in_bucket eight_hours (codes "c" ∷ []) (pos (10 * hour)) end_of_window 7) logs

delete_in_last_bucket : last_counts.delete_count ≡ 1
unfolding counts_of in_window bucket_index_of
delete_in_last_bucket = refl

load_trend-total_example :
    total_over 8 (λ (i : ℕ).
      total_of (get_elem? (load_trend logs (codes "c" ∷ []) eight_hours end_of_window) i))
    ≡ count_where
        (in_window (codes "c" ∷ []) (end_of_window -ℤ pos (28800 * 1000000)) end_of_window)
        logs
load_trend-total_example =
    load_trend-total logs (codes "c" ∷ []) eight_hours end_of_window (omega arith)
