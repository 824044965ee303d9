-- ===== src/Jobs/Complete.antt =====
-- A run that is not cancelled verifies each row of its range once and completes.
use auditchain_gateway_backe.Prelude.{
  ℕ, zero, suc, ◌+◌, ◌≤◌, ◌<◌, ◌≡◌, refl, sym, ap, ◌∙◌, Bool, true, false, Bool-cases, inl, inr,
  Option, List, [], ◌++◌, length, length-map, length-take, length-append, take-append-drop, take,
  drop, arith, ltb, ltb→lt, ◌==◌, ==_iff,
}
use auditchain_gateway_backe.Prelude.Text.{Text}
use auditchain_gateway_backe.Prelude.Int.{ℤ}
use auditchain_gateway_backe.Prelude.Table.{update_where, count_where}
use auditchain_gateway_backe.Prelude.Mapped.{
  update_where_twice, update_where_cong, count_where-append,
}
use auditchain_gateway_backe.Model.{AuditLog}
use auditchain_gateway_backe.Audit.{Fabric, Lookup}
use auditchain_gateway_backe.Range.{
  RangeSummary, RangeState, empty_summary, range_rows, get_logs_page, verify_range_batch,
}
use auditchain_gateway_backe.Range.Neutral.{SameRows, ids_of, range_ids_same}
use auditchain_gateway_backe.Range.Tally.{Tally, IsCounted, tally, verify_range_items-IsCounted}
use auditchain_gateway_backe.Jobs.{
  VerificationRun, JobStore, integrity_source_for, has_id, add_progress, complete_run,
  update_progress, process_pages, process_run,
}
use auditchain_gateway_backe.Jobs.Pages.{
  finished, no_more, last_page, next_page, source_is_forced, page_ids, drop_further, take_short,
  no_items,
}

-- The run is complete in the table: `items` rows counted with the tally `t`.
pub record IsFinished (now : ℤ) (run : VerificationRun) (items : ℕ) (t : Tally) (s : JobStore)
    (result : JobStore × Bool) : Type 0 where
  pub no_error : result.1 ≡ true
  pub counted : result.0.runs ≡ update_where (has_id run.id) (finished now items t) s.runs
  pub same_rows : SameRows result.0.rows s.rows

module _ (remarshal : Text → Option Text) (sha3 : List ℕ → List ℕ) (lookup : Lookup)
    (fabric : Fabric) (now : ℤ) (run : VerificationRun) (positive : 1 ≤ run.batch_size)
    (rows : List AuditLog) where
  -- the ids of the run's rows, in the order of the pages
  abbrev pub run_ids : List Text
  run_ids = ids_of (range_rows run.from_time run.to_time run.client_id rows)

  run_tally : List Text → Tally
  run_tally ids = tally remarshal sha3 lookup fabric rows run.client_id ids

  -- the rows of a page, and what the page's verification counts
  page-IsCounted :
      (offset : ℕ) (s : List AuditLog)
      → SameRows s rows
      → let result =
          verify_range_batch remarshal sha3 lookup fabric run.from_time run.to_time run.client_id
            run.id
            (integrity_source_for run.requested_by)
            run.batch_size
            offset
            now
            s in
        (result.1 ≡ length (take run.batch_size (drop offset run_ids)))
        × IsCounted empty_summary result.0.summary result.1
            (run_tally (take run.batch_size (drop offset run_ids)))
        × SameRows result.0.rows rows
  unfolding verify_range_batch run_tally
  page-IsCounted offset s same =
      let page : List AuditLog =
        get_logs_page run.from_time run.to_time run.client_id run.batch_size offset s in
      let ids : ids_of page ≡ take run.batch_size (drop offset run_ids) =
        page_ids run.from_time run.to_time run.client_id run.batch_size offset s positive
        ∙ ap (λ all. take run.batch_size (drop offset all))
            (range_ids_same run.from_time run.to_time run.client_id s rows same) in
      let (counted, kept) =
        verify_range_items-IsCounted remarshal sha3 lookup fabric rows run.client_id
          (integrity_source_for run.requested_by) run.id now page
          (record { rows = s; summary = empty_summary }) same in
      let size : length (ids_of page) ≡ length page =
        length-map page (λ (l : AuditLog). l.log_id) in
      (
        sym size ∙ ap length ids,
        rw (source_is_forced run.requested_by) (rw (sym size) (rw (sym ids) counted)),
        rw (source_is_forced run.requested_by) kept,
      )

  run_tally-append :
      (xs ys : List Text)
      → ((run_tally (xs ++ ys)).valid ≡ (run_tally xs).valid + (run_tally ys).valid)
        × ((run_tally (xs ++ ys)).invalid ≡ (run_tally xs).invalid + (run_tally ys).invalid)
        × ((run_tally (xs ++ ys)).pending ≡ (run_tally xs).pending + (run_tally ys).pending)
  unfolding run_tally tally
  run_tally-append xs ys =
      (count_where-append _ xs ys, count_where-append _ xs ys, count_where-append _ xs ys)

  run_tally-nil :
      ((run_tally []).valid ≡ 0) × ((run_tally []).invalid ≡ 0) × ((run_tally []).pending ≡ 0)
  unfolding run_tally tally count_where
  run_tally-nil = (refl, refl, refl)

  update_progress-finished :
      (loaded items : ℕ) (summary : RangeSummary) (t u w : Tally) (runs : List VerificationRun)
      → IsCounted empty_summary summary loaded t
      → w.valid ≡ t.valid + u.valid
      → w.invalid ≡ t.invalid + u.invalid
      → w.pending ≡ t.pending + u.pending
      → update_where
          (has_id run.id)
          (finished now items u)
          (update_progress run.id loaded summary runs)
        ≡ update_where (has_id run.id) (finished now (loaded + items) w) runs
  unfolding update_progress
  update_progress-finished loaded items summary t u w runs h v i p =
      update_where_twice (has_id run.id) (add_progress loaded summary) (finished now items u) runs
        (λ r. refl)
      ∙ update_where_cong (has_id run.id) _ (finished now (loaded + items) w) runs
          (λ r. next_page now loaded items summary t u w r h v i p)

  update_progress-completed :
      (loaded : ℕ) (summary : RangeSummary) (t : Tally) (runs : List VerificationRun)
      → IsCounted empty_summary summary loaded t
      → update_where (has_id run.id) (complete_run now) (update_progress run.id loaded summary runs)
        ≡ update_where (has_id run.id) (finished now loaded t) runs
  unfolding update_progress
  update_progress-completed loaded summary t runs h =
      update_where_twice (has_id run.id) (add_progress loaded summary) (complete_run now) runs
        (λ r. refl)
      ∙ update_where_cong (has_id run.id) _ (finished now loaded t) runs
          (λ r. last_page now loaded summary t r h)

  full_page :
      (loaded : ℕ) (ids : List Text)
      → ltb loaded run.batch_size ≡ false
      → loaded ≡ length (take run.batch_size ids)
      → run.batch_size ≡ loaded
  full_page loaded ids full e = ground (arith, length-take run.batch_size ids)

  process_pages-IsFinished :
      (rounds offset : ℕ) (s : JobStore)
      → SameRows s.rows rows
      → length (drop offset run_ids) < rounds
      → IsFinished now run
          (length (drop offset run_ids))
          (run_tally (drop offset run_ids))
          s
          (process_pages remarshal sha3 lookup fabric rounds now run offset s)
  unfolding process_pages
  process_pages-IsFinished zero offset s same enough = absurd (omega arith)
  process_pages-IsFinished (suc rounds) offset s same enough =
      let batch : RangeState × ℕ =
        verify_range_batch remarshal sha3 lookup fabric run.from_time run.to_time run.client_id
          run.id (integrity_source_for run.requested_by) run.batch_size offset now s.rows in
      let (loaded, counted, kept) = page-IsCounted offset s.rows same in
      elim (Bool-cases (batch.1 == 0)) [
        | inl e ↦
            let none_left : drop offset run_ids ≡ [] =
              no_items run.batch_size (drop offset run_ids) positive
                (sym loaded ∙ (==_iff batch.1 0).0 e) in
            rw (e, none_left)
              (record {
                no_error = refl;
                counted = update_where_cong (has_id run.id) (complete_run now) _ s.runs (λ r.
                    no_more now r (run_tally []) run_tally-nil.0 run_tally-nil.1 run_tally-nil.2);
                same_rows = kept ∙ sym same;
              })
        | inr e ↦ elim (Bool-cases (ltb batch.1 run.batch_size)) [
          | inl short ↦
              let all : take run.batch_size (drop offset run_ids) ≡ drop offset run_ids =
                take_short run.batch_size (drop offset run_ids)
                  (omega (arith, ltb→lt batch.1 run.batch_size short, loaded)) in
              rw (e, short)
                (record {
                  no_error = refl;
                  counted =
                      update_progress-completed batch.1 batch.0.summary
                        (run_tally (take run.batch_size (drop offset run_ids))) s.runs counted
                      ∙ ap
                          (λ n.
                            update_where (has_id run.id)
                              (finished now n
                                (run_tally (take run.batch_size (drop offset run_ids))))
                              s.runs)
                          loaded
                      ∙ ap
                          (λ ids.
                            update_where (has_id run.id) (finished now (length ids) (run_tally ids))
                              s.runs)
                          all;
                  same_rows = kept ∙ sym same;
                })
          | inr full ↦
              let after : drop run.batch_size (drop offset run_ids)
                  ≡ drop (offset + batch.1) run_ids =
                drop_further offset run.batch_size run_ids
                ∙ ap (λ n. drop (offset + n) run_ids)
                    (full_page batch.1 (drop offset run_ids) full loaded) in
              let whole : take run.batch_size (drop offset run_ids)
                    ++ drop (offset + batch.1) run_ids
                  ≡ drop offset run_ids =
                ap (λ ids. take run.batch_size (drop offset run_ids) ++ ids) (sym after)
                ∙ take-append-drop run.batch_size (drop offset run_ids) in
              let size : batch.1 + length (drop (offset + batch.1) run_ids)
                  ≡ length (drop offset run_ids) =
                omega (
                  arith,
                  loaded,
                  length-append (take run.batch_size (drop offset run_ids))
                      (drop (offset + batch.1) run_ids),
                  ap length whole,
                ) in
              let rest =
                process_pages-IsFinished rounds (offset + batch.1)
                  (record {
                    rows = batch.0.rows;
                    runs = update_progress run.id batch.1 batch.0.summary s.runs;
                  })
                  kept
                  (omega (
                    arith,
                    full_page batch.1 (drop offset run_ids) full loaded,
                    positive,
                    size,
                    enough,
                  )) in
              let split =
                run_tally-append (take run.batch_size (drop offset run_ids))
                  (drop (offset + batch.1) run_ids) in
              rw (e, full)
                (record {
                  no_error = rest.no_error;
                  counted =
                      rest.counted
                      ∙ update_progress-finished batch.1 (length (drop (offset + batch.1) run_ids))
                          batch.0.summary (run_tally (take run.batch_size (drop offset run_ids)))
                          (run_tally (drop (offset + batch.1) run_ids))
                          (run_tally (
                            take run.batch_size (drop offset run_ids)
                            ++ drop (offset + batch.1) run_ids))
                          s.runs counted split.0 split.1 split.2
                      ∙ ap
                          (λ n.
                            update_where (has_id run.id)
                              (finished now n (
                                run_tally (
                                  take run.batch_size (drop offset run_ids)
                                  ++ drop (offset + batch.1) run_ids)))
                              s.runs)
                          size
                      ∙ ap
                          (λ ids.
                            update_where (has_id run.id)
                              (finished now (length (drop offset run_ids)) (run_tally ids)) s.runs)
                          whole;
                  same_rows = rest.same_rows ∙ kept ∙ sym same;
                })
        ]
      ]

  -- A run over the rows of a table, that is given a batch size of one or more and more rounds than
  -- the range has rows before it is cancelled, ends with no error; its row is COMPLETED, with as
  -- many items processed as the range has rows (at least the number estimated), each of them
  -- verified now, and with the numbers of valid, invalid and pending rows that a verification of
  -- each row of the range by itself gives. In the rows, only the results of verifications change.
  pub process_run-IsFinished :
      (rounds : ℕ) (runs : List VerificationRun)
      → length run_ids < rounds
      → IsFinished now run
          (length run_ids)
          (tally remarshal sha3 lookup fabric rows run.client_id run_ids)
          (record { rows = rows; runs = runs })
          (process_run remarshal sha3 lookup fabric rounds now run
            (record { rows = rows; runs = runs }))
  unfolding process_run run_tally
  process_run-IsFinished rounds runs enough =
      process_pages-IsFinished rounds 0 (record { rows = rows; runs = runs }) refl enough
