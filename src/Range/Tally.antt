-- ===== src/Range/Tally.antt =====
-- A forced verification of a list of rows counts each row once, under the status of its row.
use auditchain_gateway_backe.Prelude.{
  ℕ, suc, ◌+◌, ◌≡◌, refl, sym, ◌∙◌, true, Bool-cases, inl, inr, Option, List, [], ◌∷◌, length,
  arith,
}
use auditchain_gateway_backe.Prelude.Text.{Text, is_empty}
use auditchain_gateway_backe.Prelude.Int.{ℤ}
use auditchain_gateway_backe.Prelude.Table.{first_where, count_where}
use auditchain_gateway_backe.Prelude.Mapped.{map-update_where}
use auditchain_gateway_backe.Model.{AuditLog, IntegrityStatus, IntegritySource}
use auditchain_gateway_backe.Audit.{Fabric, Lookup}
use auditchain_gateway_backe.Audit.Verify.{ResultStatus}
use auditchain_gateway_backe.Range.{
  RangeStatus, RangeSummary, RangeState, is_valid_status, is_pending_status, is_invalid_status,
  add_range_summary, is_row_of, mark_integrity, persist_integrity_status, result_of_row,
  persisted_status_of, range_status_of, verify_range_log, verify_range_items,
}
use auditchain_gateway_backe.Range.Neutral.{forget, SameRows, ids_of, status_in, status_in_same}

-- How many of the statuses fall in each class of addRangeSummary.
pub record Tally : Type 0 where
  pub valid : ℕ
  pub invalid : ℕ
  pub pending : ℕ

-- What the summary of a forced verification adds up to, from one summary to a later one.
pub record IsCounted (before after : RangeSummary) (items : ℕ) (t : Tally) : Type 0 where
  pub total : after.total ≡ before.total + items
  pub valid : after.valid ≡ before.valid + t.valid
  pub invalid : after.invalid ≡ before.invalid + t.invalid
  pub pending : after.pending ≡ before.pending + t.pending
  pub inconclusive :
      after.inconclusive + t.valid + t.invalid + t.pending ≡ before.inconclusive + items
  pub verified_now : after.verified_now ≡ before.verified_now + items
  pub already_verified : after.already_verified ≡ before.already_verified

persist_integrity_status_same :
    (id client : Text) (status : IntegrityStatus) (source : IntegritySource) (run : Text) (now : ℤ)
    (rows : List AuditLog)
    → SameRows (persist_integrity_status id client status source run now rows) rows
unfolding persist_integrity_status
persist_integrity_status_same id client status source run now rows =
    elim (Bool-cases (is_empty id)) [
      | inl e ↦ rw e refl
      | inr e ↦ elim (Bool-cases (is_empty client)) [
        | inl n ↦ rw (e, n) refl
        | inr n ↦
            rw (e, n)
              (map-update_where forget (is_row_of id client) (mark_integrity status source run now)
                rows (λ a. refl))
      ]
    ]

module _ (remarshal : Text → Option Text) (sha3 : List ℕ → List ℕ) (lookup : Lookup)
    (fabric : Fabric) where
  -- the tally of the statuses that the rows of these ids have in the table
  unfoldable pub tally : List AuditLog → Text → List Text → Tally
  tally rows client ids = record {
    valid =
        count_where (λ id. is_valid_status (status_in remarshal sha3 lookup fabric rows client id))
          ids;
    invalid =
        count_where
          (λ id. is_invalid_status (status_in remarshal sha3 lookup fabric rows client id)) ids;
    pending =
        count_where
          (λ id. is_pending_status (status_in remarshal sha3 lookup fabric rows client id)) ids;
  }

  -- one more status in the summary, whatever it is
  add_range_summary_counts :
      (rows : List AuditLog) (client id : Text) (ids : List Text) (before after : RangeSummary)
      (st : RangeStatus)
      → st ≡ status_in remarshal sha3 lookup fabric rows client id
      → IsCounted
          (add_range_summary (record before { verified_now = suc before.verified_now }) st)
          after
          (length ids)
          (tally rows client ids)
      → IsCounted before after (suc (length ids)) (tally rows client (id ∷ ids))
  unfolding tally add_range_summary count_where
  add_range_summary_counts rows client id ids before after st e h = record {
    total = ground (arith, h.total);
    valid = rw (sym e) (ground (arith, h.valid));
    invalid = rw (sym e) (ground (arith, h.invalid));
    pending = rw (sym e) (ground (arith, h.pending));
    inconclusive = rw (sym e) (ground (arith, h.inconclusive));
    verified_now = ground (arith, h.verified_now);
    already_verified = ground (arith, h.already_verified);
  }

  -- The summary of a forced verification, and that it changes results only.
  pub verify_range_items-IsCounted :
      (rows : List AuditLog) (client : Text) (source : IntegritySource) (run : Text) (now : ℤ)
      (ls : List AuditLog) (s : RangeState)
      → SameRows s.rows rows
      → IsCounted s.summary
          (verify_range_items remarshal sha3 lookup fabric client source run true now ls s).summary
          (length (ids_of ls))
          (tally rows client (ids_of ls))
        × SameRows
            (verify_range_items remarshal sha3 lookup fabric client source run true now ls s).rows
            rows
  unfolding verify_range_items verify_range_log tally count_where
  verify_range_items-IsCounted rows client source run now [] s same = (omega arith, same)
  verify_range_items-IsCounted rows client source run now (l ∷ ls) s same =
      let result : Option ResultStatus =
        result_of_row remarshal sha3 lookup fabric
          (first_where (is_row_of l.log_id client) s.rows) in
      let (counted, kept) =
        verify_range_items-IsCounted rows client source run now ls
          (verify_range_log remarshal sha3 lookup fabric client source run true now l s)
          (persist_integrity_status_same l.log_id client
              (persisted_status_of remarshal sha3 lookup fabric result) source run now s.rows
            ∙ same) in
      (
        add_range_summary_counts rows client l.log_id (ids_of ls) s.summary _
            (range_status_of remarshal sha3 lookup fabric result)
            (status_in_same remarshal sha3 lookup fabric s.rows rows client l.log_id same) counted,
        kept,
      )
