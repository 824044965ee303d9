-- ===== src/Range.antt =====
-- Verification of a range of logs (internal/modules/audit/service.go): a page of rows, each judged
-- by verifyLogIntegrity without the Agent or taken from its last result, and counted in a summary.
-- The rows are the table of AuditLog; a database call does not fail.
pub mod Neutral
pub mod Tally
use auditchain_gateway_backe.Prelude.{
  ℕ, suc, ◌+◌, Bool, true, false, not, ◌&&◌, ◌||◌, Option, none, some, List, [], ◌∷◌, length, take,
  drop, if◌then◌else◌, ◌==◌, leb, ltb,
}
use auditchain_gateway_backe.Prelude.Text.{Text, text_eq, is_empty}
use auditchain_gateway_backe.Prelude.Int.{ℤ, ltb_ℤ}
use auditchain_gateway_backe.Prelude.Table.{select, update_where, first_where, order_by}
use auditchain_gateway_backe.Model.{
  AuditLog, IntegrityStatus, not_checked, valid, tampered, pending, unreachable, IntegritySource,
  background_run, scheduled_run,
}
use auditchain_gateway_backe.Audit.{Fabric, Lookup}
use auditchain_gateway_backe.Audit.Verify.{
  ResultStatus, success, pending_result, inconclusive, failed_local, failed_onchain, failed_source,
  verify_log_integrity, integrity_status_of,
}
use auditchain_gateway_backe.Pipeline.{is_recovery_row}

-- RangeItemResult.VerifyStatus
pub data RangeStatus : Type 0 where
  checked : ResultStatus → RangeStatus
  failed_cached inconclusive_cached range_error : RangeStatus

pub record RangeSummary : Type 0 where
  pub total : ℕ
  pub valid : ℕ
  pub invalid : ℕ
  pub pending : ℕ
  pub inconclusive : ℕ
  pub already_verified : ℕ
  pub verified_now : ℕ

abbrev pub empty_summary : RangeSummary
empty_summary = record {
  total = 0;
  valid = 0;
  invalid = 0;
  pending = 0;
  inconclusive = 0;
  already_verified = 0;
  verified_now = 0;
}

-- the classes of the switch of addRangeSummary
abbrev pub is_valid_status : RangeStatus → Bool
is_valid_status (checked success) = true
is_valid_status _ = false

abbrev pub is_pending_status : RangeStatus → Bool
is_pending_status (checked pending_result) = true
is_pending_status _ = false

abbrev pub is_invalid_status : RangeStatus → Bool
is_invalid_status (checked failed_local) = true
is_invalid_status (checked failed_onchain) = true
is_invalid_status (checked failed_source) = true
is_invalid_status failed_cached = true
is_invalid_status _ = false

unfoldable pub add_range_summary : RangeSummary → RangeStatus → RangeSummary
add_range_summary s status =
    let counted : RangeSummary = record s { total = suc s.total } in
    if is_valid_status status
    then record counted { valid = suc s.valid }
    else if is_pending_status status
    then record counted { pending = suc s.pending }
    else if is_invalid_status status
    then record counted { invalid = suc s.invalid }
    else record counted { inconclusive = suc s.inconclusive }

-- hasCachedIntegrity
abbrev pub is_checked : IntegrityStatus → Bool
is_checked not_checked = false
is_checked _ = true

abbrev pub has_time : Option ℤ → Bool
has_time none = false
has_time (some t) = true

unfoldable pub has_cached_integrity : AuditLog → Bool
has_cached_integrity l = has_time l.integrity_checked_at && is_checked l.integrity_status

unfoldable pub cached_range_status : IntegrityStatus → RangeStatus
cached_range_status valid = checked success
cached_range_status pending = checked pending_result
cached_range_status tampered = failed_cached
cached_range_status unreachable = inconclusive_cached
cached_range_status not_checked = range_error

-- WHERE log_id = ? AND client_id = ?
abbrev pub is_row_of : Text → Text → AuditLog → Bool
is_row_of id client row = text_eq row.log_id id && text_eq row.client_id client

-- the columns that persistIntegrityStatus writes
abbrev pub mark_integrity : IntegrityStatus → IntegritySource → Text → ℤ → AuditLog → AuditLog
mark_integrity status source run now row = record row {
  integrity_status = status;
  integrity_checked_at = some now;
  integrity_source = source;
  integrity_run_id = run;
}

unfoldable pub persist_integrity_status :
    Text → Text → IntegrityStatus → IntegritySource → Text → ℤ → List AuditLog → List AuditLog
persist_integrity_status id client status source run now rows =
    if is_empty id || is_empty client
    then rows
    else update_where (is_row_of id client) (mark_integrity status source run now) rows

abbrev pub forces_recheck : IntegritySource → Bool
forces_recheck background_run = true
forces_recheck scheduled_run = true
forces_recheck _ = false

-- the order of the page: timestamp asc, log_id asc
unfoldable pub text_before : Text → Text → Bool
text_before [] t = true
text_before (a ∷ s) [] = false
text_before (a ∷ s) (b ∷ t) = ltb a b || (a == b && text_before s t)

unfoldable pub row_before : AuditLog → AuditLog → Bool
unfolding text_before
row_before a b =
    ltb_ℤ a.timestamp b.timestamp
    || (not (ltb_ℤ b.timestamp a.timestamp) && text_before a.log_id b.log_id)

unfoldable pub in_range : ℤ → ℤ → Text → AuditLog → Bool
in_range from to client l =
    text_eq l.client_id client
    && not (ltb_ℤ l.timestamp from)
    && not (ltb_ℤ to l.timestamp)
    && not (is_recovery_row l.action)

-- all rows of the range, in the order of the pages
unfoldable pub range_rows : ℤ → ℤ → Text → List AuditLog → List AuditLog
range_rows from to client rows = order_by row_before (select (in_range from to client) rows)

-- GetLogsByTimeRangePage
unfoldable pub get_logs_page : ℤ → ℤ → Text → ℕ → ℕ → List AuditLog → List AuditLog
unfolding range_rows
get_logs_page from to client limit offset rows =
    take (if limit == 0 then 100 else limit) (drop offset (range_rows from to client rows))

-- CountLogsByTimeRange
unfoldable pub count_logs : ℤ → ℤ → Text → List AuditLog → ℕ
count_logs from to client rows = length (select (in_range from to client) rows)

-- the rows and the summary that a batch changes
pub record RangeState : Type 0 where
  pub rows : List AuditLog
  pub summary : RangeSummary

module _ (remarshal : Text → Option Text) (sha3 : List ℕ → List ℕ) (lookup : Lookup)
    (fabric : Fabric) where
  -- The status of verifyLogIntegrity, which reads the row again; no row is its error.
  abbrev pub result_of_row : Option AuditLog → Option ResultStatus
  result_of_row none = none
  result_of_row (some l) = some (verify_log_integrity remarshal sha3 lookup fabric l).status

  abbrev pub range_status_of : Option ResultStatus → RangeStatus
  range_status_of none = range_error
  range_status_of (some status) = checked status

  abbrev pub persisted_status_of : Option ResultStatus → IntegrityStatus
  persisted_status_of none = unreachable
  persisted_status_of (some status) = integrity_status_of status

  -- one round of the loop of verifyRangeItems, verifyRangeLog included
  unfoldable pub verify_range_log :
      Text → IntegritySource → Text → Bool → ℤ → AuditLog → RangeState → RangeState
  unfolding add_range_summary has_cached_integrity cached_range_status
  verify_range_log client source run force now l s =
      if not force && has_cached_integrity l
      then record {
        rows = s.rows;
        summary =
            add_range_summary
              (record s.summary { already_verified = suc s.summary.already_verified })
              (cached_range_status l.integrity_status);
      }
      else let result : Option ResultStatus =
          result_of_row (first_where (is_row_of l.log_id client) s.rows) in
        record {
          rows =
              persist_integrity_status l.log_id client (persisted_status_of result) source run now
                s.rows;
          summary =
              add_range_summary (record s.summary { verified_now = suc s.summary.verified_now })
                (range_status_of result);
        }

  unfoldable pub verify_range_items :
      Text → IntegritySource → Text → Bool → ℤ → List AuditLog → RangeState → RangeState
  unfolding verify_range_log
  verify_range_items client source run force now [] s = s
  verify_range_items client source run force now (l ∷ ls) s =
      verify_range_items client source run force now ls
        (verify_range_log client source run force now l s)

  -- verifyRangeBatch: the new rows with the summary of the batch, and how many rows were loaded
  unfoldable pub verify_range_batch :
      ℤ → ℤ → Text → Text → IntegritySource → ℕ → ℕ → ℤ → List AuditLog → RangeState × ℕ
  verify_range_batch from to client run source limit offset now rows =
      let page : List AuditLog = get_logs_page from to client limit offset rows in
      (
        verify_range_items client source run (forces_recheck source) now page
            (record { rows = rows; summary = empty_summary }),
        length page,
      )
