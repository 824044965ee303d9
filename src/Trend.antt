-- ===== src/Trend.antt =====
-- The trend of audit logs on the dashboard (internal/modules/client/dashboard_trend.go): the buckets
-- of a window, and the counts of the logs in each. Times are microseconds, as the database keeps
-- them.
pub mod Buckets
pub mod Totals
mod Examples
use auditchain_gateway_backe.Prelude.{
  ℕ, zero, suc, ◌+◌, ◌-◌, ◌*◌, ◌/◌, Bool, true, false, not, ◌&&◌, ◌||◌, Option, none, some, List,
  [], ◌∷◌, map, min, get_elem?, set, ◌==◌, if◌then◌else◌,
}
use auditchain_gateway_backe.Prelude.Text.{Text, codes, text_eq, trim_space, upper}
use auditchain_gateway_backe.Prelude.Int.{ℤ, pos, negsuc, ◌+ℤ◌, ◌-ℤ◌, ltb_ℤ}
use auditchain_gateway_backe.Prelude.Table.{count_where}
use auditchain_gateway_backe.Pipeline.{drop_spaces, drop_last_spaces}

-- dashboardTrendWindow, with its duration in seconds
pub record TrendWindow : Type 0 where
  pub window_name : Text
  pub seconds : ℕ
  pub bucket_qty : ℕ

abbrev pub window : Text → ℕ → ℕ → TrendWindow
window name hours qty = record { window_name = name; seconds = hours * 3600; bucket_qty = qty }

unfoldable pub parse_trend_range : Text → Option TrendWindow
unfolding trim_space upper text_eq
parse_trend_range value =
    let name : Text = map upper (trim_space value) in
    if text_eq name (codes "8H")
    then some (window name 8 8)
    else if text_eq name (codes "24H")
    then some (window name 24 12)
    else if text_eq name (codes "7D")
    then some (window name 168 7)
    else if text_eq name (codes "30D")
    then some (window name 720 10)
    else none

-- the columns of audit_logs that the query reads
pub record TrendRow : Type 0 where
  pub row_client : Text
  pub row_time : ℤ
  pub row_action : Option Text
  pub row_status : Option Text
  pub row_source_status : Option Text

-- UPPER(TRIM(COALESCE(column, '')))
unfoldable pub column_text : Option Text → Text
unfolding drop_spaces drop_last_spaces upper
column_text none = []
column_text (some s) = map upper (drop_last_spaces (drop_spaces s))

abbrev pub column_is : Text → Option Text → Bool
column_is value column = text_eq (column_text column) value

-- column IN (…)
abbrev pub column_in : List Text → Option Text → Bool
column_in [] column = false
column_in (value ∷ values) column = column_is value column || column_in values column

abbrev pub unavailable_texts : List Text
unavailable_texts =
    codes "UNREACHABLE" ∷ codes "UNAVAILABLE" ∷ codes "AGENT_ERROR" ∷ codes "FABRIC_ERROR" ∷ []

-- the counters that an aggregate and a point share
pub record TrendCounts : Type 0 where
  pub total_logs : ℕ
  pub valid_count : ℕ
  pub tampered_count : ℕ
  pub source_tampered : ℕ
  pub pending_count : ℕ
  pub unavailable_count : ℕ
  pub not_checked : ℕ
  pub insert_count : ℕ
  pub update_count : ℕ
  pub delete_count : ℕ

pub record TrendAggregate : Type 0 where
  pub bucket_index : ℕ
  pub aggregate_counts : TrendCounts

pub record TrendPoint : Type 0 where
  pub bucket_start : ℤ
  pub point_counts : TrendCounts

abbrev pub no_counts : TrendCounts
no_counts = record {
  total_logs = 0;
  valid_count = 0;
  tampered_count = 0;
  source_tampered = 0;
  pending_count = 0;
  unavailable_count = 0;
  not_checked = 0;
  insert_count = 0;
  update_count = 0;
  delete_count = 0;
}

-- LEAST(last, GREATEST(0, FLOOR(… / bucketSeconds)))
abbrev pub floor_in : ℕ → ℕ → ℤ → ℕ
floor_in last unit (pos n) = min last (n / unit)
floor_in last unit (negsuc n) = 0

unfoldable pub bucket_index_of : TrendWindow → ℤ → TrendRow → ℕ
unfolding ◌-ℤ◌
bucket_index_of w from r =
    floor_in (w.bucket_qty - 1) (w.seconds / w.bucket_qty * 1000000) (r.row_time -ℤ from)

is_one_of : List Text → Text → Bool
is_one_of [] client = false
is_one_of (id ∷ ids) client = text_eq id client || is_one_of ids client

-- the WHERE clause
unfoldable pub in_window : List Text → ℤ → ℤ → TrendRow → Bool
unfolding is_one_of column_text text_eq
in_window clients from to r =
    is_one_of clients r.row_client
    && not (ltb_ℤ r.row_time from)
    && ltb_ℤ r.row_time to
    && not (column_is (codes "RECOVERY") r.row_action)

-- COUNT(*) FILTER (WHERE test) in a group
unfoldable pub counted : (TrendRow → Bool) → List TrendRow → (TrendRow → Bool) → ℕ
unfolding count_where
counted group rows test = count_where (λ (r : TrendRow). group r && test r) rows

-- the selected columns, from COUNT(*) and the counts with a FILTER
abbrev pub counts_with : ℕ → ((TrendRow → Bool) → ℕ) → TrendCounts
counts_with total filtered = record {
  total_logs = total;
  valid_count = filtered λ (r : TrendRow). column_is (codes "VALID") r.row_status;
  tampered_count = filtered λ (r : TrendRow). column_is (codes "TAMPERED") r.row_status;
  source_tampered = filtered λ (r : TrendRow). column_is (codes "TAMPERED") r.row_source_status;
  pending_count = filtered λ (r : TrendRow). column_is (codes "PENDING") r.row_status;
  unavailable_count = filtered λ (r : TrendRow). column_in unavailable_texts r.row_status;
  not_checked = filtered λ (r : TrendRow). column_in ([] ∷ codes "NOT_CHECKED" ∷ []) r.row_status;
  insert_count = filtered λ (r : TrendRow). column_is (codes "INSERT") r.row_action;
  update_count = filtered λ (r : TrendRow). column_is (codes "UPDATE") r.row_action;
  delete_count = filtered λ (r : TrendRow). column_is (codes "DELETE") r.row_action;
}

unfoldable pub counts_of : (TrendRow → Bool) → List TrendRow → TrendCounts
unfolding counted
counts_of group rows = counts_with (count_where group rows) (counted group rows)

-- the rows of the query with an index
abbrev pub in_bucket : TrendWindow → List Text → ℤ → ℤ → ℕ → TrendRow → Bool
in_bucket w clients from to index r =
    in_window clients from to r && bucket_index_of w from r == index

-- GROUP BY bucket_index ORDER BY bucket_index: the groups with a row, from `index` on. No index is
-- above the last one, because of LEAST.
unfoldable pub groups_from : ℕ → ℕ → (ℕ → TrendRow → Bool) → List TrendRow → List TrendAggregate
unfolding counts_of
groups_from zero index group rows = []
groups_from (suc n) index group rows =
    let rest = groups_from n (suc index) group rows in
    if count_where (group index) rows == 0
    then rest
    else record { bucket_index = index; aggregate_counts = counts_of (group index) rows } ∷ rest

unfoldable pub blank_points : ℕ → ℕ → ℕ → ℤ → List TrendPoint
blank_points zero index unit from = []
blank_points (suc n) index unit from =
    record { bucket_start = from +ℤ pos (index * unit); point_counts = no_counts }
    ∷ blank_points n (suc index) unit from

-- an index outside the points is passed over
abbrev pub write_point : ℕ → TrendCounts → Option TrendPoint → List TrendPoint → List TrendPoint
write_point index c none points = points
write_point index c (some p) points = set points index (record p { point_counts = c })

unfoldable pub fill_points : List TrendAggregate → List TrendPoint → List TrendPoint
fill_points [] points = points
fill_points (a ∷ rest) points =
    fill_points rest
      (write_point a.bucket_index a.aggregate_counts (get_elem? points a.bucket_index) points)

-- buildDashboardTrendResponse: its points
unfoldable pub trend_points : TrendWindow → ℤ → List TrendAggregate → List TrendPoint
unfolding fill_points blank_points
trend_points w from aggregates =
    fill_points aggregates (blank_points w.bucket_qty 0 (w.seconds / w.bucket_qty * 1000000) from)

-- loadDashboardTrendForClients, where the query succeeds: its points. Without clients no row is
-- asked for.
unfoldable pub load_trend : List TrendRow → List Text → TrendWindow → ℤ → List TrendPoint
unfolding trend_points groups_from
load_trend rows [] w to = trend_points w (to -ℤ pos (w.seconds * 1000000)) []
load_trend rows (c ∷ cs) w to =
    let from : ℤ = to -ℤ pos (w.seconds * 1000000) in
    trend_points w from (groups_from w.bucket_qty 0 (in_bucket w (c ∷ cs) from to) rows)
