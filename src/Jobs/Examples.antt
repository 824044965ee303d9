-- ===== src/Jobs/Examples.antt =====
-- A run over two rows in pages of one.
use auditchain_gateway_backe.Prelude.{
  ℕ, ◌<◌, Option, none, some, List, [], ◌∷◌, length, replicate, arith,
}
use auditchain_gateway_backe.Prelude.Text.{Text, codes, text_eq}
use auditchain_gateway_backe.Prelude.Int.{pos}
use auditchain_gateway_backe.Model.{AuditLog}
use auditchain_gateway_backe.Samples.{received_log}
use auditchain_gateway_backe.Audit.{Lookup}
use auditchain_gateway_backe.Prelude.Table.{select, order_by}
use auditchain_gateway_backe.Pipeline.{is_recovery_row}
use auditchain_gateway_backe.Range.{range_rows, in_range, row_before}
use auditchain_gateway_backe.Range.Tally.{tally}
use auditchain_gateway_backe.Jobs.{VerificationRun, new_run, process_run}
use auditchain_gateway_backe.Jobs.Complete.{run_ids, IsFinished, process_run-IsFinished}

abbrev no_json : Text → Option Text
no_json s = none

abbrev zero_sha3 : List ℕ → List ℕ
zero_sha3 bs = replicate 32 0

abbrev no_rows : Lookup
no_rows hash = some []

abbrev two_rows : List AuditLog
two_rows = received_log (codes "b") (pos 7) ∷ received_log (codes "a") (pos 5) ∷ []

abbrev paged_run : VerificationRun
paged_run = new_run (codes "run") (pos 0) (pos 9) (codes "c1") (codes "budi") 1 2 (pos 10)

two_rows_in_range :
    length (run_ids no_json zero_sha3 no_rows none (pos 11) paged_run (omega arith) two_rows) < 3
unfolding range_rows order_by select in_range text_eq is_recovery_row row_before
two_rows_in_range = omega arith

process_run-IsFinished_example :
    IsFinished
      (pos 11)
      paged_run
      (length (run_ids no_json zero_sha3 no_rows none (pos 11) paged_run (omega arith) two_rows))
      (tally no_json zero_sha3 no_rows none two_rows
        (codes "c1")
        (run_ids no_json zero_sha3 no_rows none (pos 11) paged_run (omega arith) two_rows))
      (record { rows = two_rows; runs = paged_run ∷ [] })
      (process_run no_json zero_sha3 no_rows none 3
        (pos 11)
        paged_run
        (record { rows = two_rows; runs = paged_run ∷ [] }))
process_run-IsFinished_example =
    process_run-IsFinished no_json zero_sha3 no_rows none (pos 11) paged_run (omega arith) two_rows
      3 (paged_run ∷ []) two_rows_in_range
