-- ===== src/Jobs.antt =====
-- Background verification runs (internal/modules/audit/verification_jobs.go): a table of runs,
-- QUEUED → RUNNING → COMPLETED or FAILED, and the worker that pages through a run's range.
-- A database call does not fail; a cancelled context stops a run between two pages.
pub mod Pages
pub mod Complete
mod Examples
use auditchain_gateway_backe.Prelude.{
  ℕ, zero, suc, ◌+◌, Bool, true, false, not, ◌&&◌, ◌||◌, Option, none, some, List, [], ◌∷◌, ◌++◌,
  length, if◌then◌else◌, ◌==◌, leb, ltb,
}
use auditchain_gateway_backe.Prelude.Text.{Text, codes, text_eq, is_empty, equal_fold, trim_space}
use auditchain_gateway_backe.Prelude.Int.{ℤ, pos, ltb_ℤ, pos_part, neg_part, ◌-ℤ◌}
use auditchain_gateway_backe.Prelude.Table.{select, update_where, first_where, order_by}
use auditchain_gateway_backe.Model.{AuditLog, IntegritySource, background_run, scheduled_run}
use auditchain_gateway_backe.Audit.{Fabric, Lookup}
use auditchain_gateway_backe.Range.{RangeSummary, RangeState, verify_range_batch, count_logs}

-- VerificationRun.Status
pub data RunStatus : Type 0 where
  queued running completed run_failed : RunStatus

pub record VerificationRun : Type 0 where
  pub id : Text
  pub client_id : Text
  pub requested_by : Text
  pub from_time : ℤ
  pub to_time : ℤ
  pub status : RunStatus
  pub batch_size : ℕ
  pub total_items : ℕ
  pub processed_items : ℕ
  pub total_valid : ℕ
  pub total_invalid : ℕ
  pub total_pending : ℕ
  pub already_verified : ℕ
  pub verified_now : ℕ
  pub error_message : Text
  pub started_at : Option ℤ
  pub completed_at : Option ℤ
  pub created_at : ℤ

-- the two tables
pub record JobStore : Type 0 where
  pub rows : List AuditLog
  pub runs : List VerificationRun

abbrev pub is_queued : RunStatus → Bool
is_queued queued = true
is_queued _ = false

abbrev pub is_running : RunStatus → Bool
is_running running = true
is_running _ = false

abbrev pub is_completed : RunStatus → Bool
is_completed completed = true
is_completed _ = false

-- status IN (QUEUED, RUNNING)
abbrev pub is_active : RunStatus → Bool
is_active status = is_queued status || is_running status

-- the part of configuredVerificationBatchSize behind Atoi (`none`: unset or no number)
unfoldable pub configured_batch_size : Option ℤ → ℕ
configured_batch_size none = 100
configured_batch_size (some size) =
    if not (ltb_ℤ (pos 0) size) then 100 else if ltb_ℤ (pos 500) size then 500 else pos_part size

unfoldable pub integrity_source_for : Text → IntegritySource
integrity_source_for requested_by =
    if equal_fold (trim_space requested_by) (codes "system:scheduler")
    then scheduled_run
    else background_run

-- the clamps of Enqueue, for the size in the request and the size of the service
unfoldable pub enqueue_batch_size : ℤ → ℕ → ℕ
enqueue_batch_size size configured =
    let wanted : ℕ = if not (ltb_ℤ (pos 0) size) then configured else pos_part size in
    if ltb 500 wanted then 500 else wanted

abbrev pub same_time : ℤ → ℤ → Bool
same_time a b = not (ltb_ℤ a b) && not (ltb_ℤ b a)

unfoldable pub is_active_for : ℤ → ℤ → Text → VerificationRun → Bool
is_active_for from to client r =
    text_eq r.client_id client
    && same_time r.from_time from
    && same_time r.to_time to
    && is_active r.status

-- ORDER BY created_at DESC and ASC
abbrev pub newest_first : VerificationRun → VerificationRun → Bool
newest_first a b = not (ltb_ℤ a.created_at b.created_at)

abbrev pub oldest_first : VerificationRun → VerificationRun → Bool
oldest_first a b = not (ltb_ℤ b.created_at a.created_at)

abbrev pub head_run : List VerificationRun → Option VerificationRun
head_run [] = none
head_run (r ∷ rs) = some r

unfoldable pub find_active : ℤ → ℤ → Text → List VerificationRun → Option VerificationRun
unfolding is_active_for
find_active from to client runs =
    head_run (order_by newest_first (select (is_active_for from to client) runs))

abbrev pub new_run : Text → ℤ → ℤ → Text → Text → ℕ → ℕ → ℤ → VerificationRun
new_run id from to client requested_by size total now = record {
  id = id;
  client_id = client;
  requested_by = requested_by;
  from_time = from;
  to_time = to;
  status = queued;
  batch_size = size;
  total_items = total;
  processed_items = 0;
  total_valid = 0;
  total_invalid = 0;
  total_pending = 0;
  already_verified = 0;
  verified_now = 0;
  error_message = [];
  started_at = none;
  completed_at = none;
  created_at = now;
}

-- Enqueue; `id` and `now` are the new UUID and the time of the insert. `none` is the error for an
-- empty client.
unfoldable pub enqueue :
    ℤ → ℤ → Text → Text → ℤ → ℕ → Text → ℤ → JobStore → Option (VerificationRun × JobStore)
unfolding find_active enqueue_batch_size
enqueue from to client requested_by size configured id now s =
    if is_empty client then none else elim (find_active from to client s.runs) [
      | some r ↦ some (r, s)
      | none ↦
          let run : VerificationRun =
            new_run id from to client requested_by (enqueue_batch_size size configured)
              (count_logs from to client s.rows) now in
          some (run, record s { runs = s.runs ++ run ∷ [] })
    ]

abbrev pub has_id : Text → VerificationRun → Bool
has_id id r = text_eq r.id id

-- claimNextRun
unfoldable pub claim_next_run :
    ℤ → List VerificationRun → Option VerificationRun × List VerificationRun
claim_next_run now runs =
    elim (head_run
      (order_by oldest_first (select (λ (r : VerificationRun). is_queued r.status) runs))) [
        | none ↦ (none, runs)
        | some r ↦ (
          some (record r { status = running; started_at = some now; error_message = [] }),
          update_where (has_id r.id)
              (λ row. record row { status = running; started_at = some now; error_message = [] })
              runs,
        )
      ]

-- the columns that updateProgress and the end of processRun write
abbrev pub add_progress : ℕ → RangeSummary → VerificationRun → VerificationRun
add_progress loaded summary row = record row {
  processed_items = row.processed_items + loaded;
  total_valid = row.total_valid + summary.valid;
  total_invalid = row.total_invalid + summary.invalid;
  total_pending = row.total_pending + summary.pending;
  already_verified = row.already_verified + summary.already_verified;
  verified_now = row.verified_now + summary.verified_now;
}

abbrev pub complete_run : ℤ → VerificationRun → VerificationRun
complete_run now row = record row {
  status = completed;
  processed_items =
      if ltb row.processed_items row.total_items then row.total_items else row.processed_items;
  completed_at = some now;
}

unfoldable pub update_progress :
    Text → ℕ → RangeSummary → List VerificationRun → List VerificationRun
update_progress id loaded summary = update_where (has_id id) (add_progress loaded summary)

unfoldable pub mark_failed : Text → Text → List VerificationRun → List VerificationRun
mark_failed id message =
    update_where (has_id id) (λ row. record row { status = run_failed; error_message = message })

unfoldable pub requeue_interrupted_runs : List VerificationRun → List VerificationRun
requeue_interrupted_runs =
    update_where (λ (r : VerificationRun). is_running r.status)
      (λ row. record row {
        status = queued;
        processed_items = 0;
        total_valid = 0;
        total_invalid = 0;
        total_pending = 0;
        already_verified = 0;
        verified_now = 0;
        error_message = [];
      })

module _ (remarshal : Text → Option Text) (sha3 : List ℕ → List ℕ) (lookup : Lookup)
    (fabric : Fabric) where
  -- The loop of processRun from an offset, and its end. The context is cancelled after `rounds`
  -- rounds; true is a nil error.
  unfoldable pub process_pages : ℕ → ℤ → VerificationRun → ℕ → JobStore → JobStore × Bool
  unfolding update_progress
  process_pages zero now run offset s = (s, false)
  process_pages (suc rounds) now run offset s =
      let (batch, loaded) =
        verify_range_batch remarshal sha3 lookup fabric run.from_time run.to_time run.client_id
          run.id (integrity_source_for run.requested_by) run.batch_size offset now s.rows in
      let s' : JobStore = record {
        rows = batch.rows;
        runs = update_progress run.id loaded batch.summary s.runs;
      } in
      let rest = process_pages rounds now run (offset + loaded) s' in
      if loaded == 0
      then (
        record s {
          rows = batch.rows;
          runs = update_where (has_id run.id) (complete_run now) s.runs;
        },
        true,
      )
      else if ltb loaded run.batch_size
      then (record s' { runs = update_where (has_id run.id) (complete_run now) s'.runs }, true)
      else rest

  unfoldable pub process_run : ℕ → ℤ → VerificationRun → JobStore → JobStore × Bool
  unfolding process_pages
  process_run rounds now run s = process_pages rounds now run 0 s

  -- processNext; a cancelled run stays RUNNING
  unfoldable pub process_next : ℕ → ℤ → JobStore → JobStore
  unfolding process_run claim_next_run
  process_next rounds now s =
      let (claimed, runs) = claim_next_run now s.runs in
      elim claimed [
        | none ↦ s
        | some run ↦ (process_run rounds now run (record s { runs = runs })).0
      ]
