-- ===== src/Jobs/Pages.antt =====
-- The pages of a run, and what they add to its row.
use auditchain_gateway_backe.Prelude.{
  ℕ, zero, suc, ◌+◌, ◌≤◌, ◌<◌, ◌≡◌, refl, sym, ap, ◌∙◌, true, false, Bool-cases, inl, inr, List, [],
  ◌∷◌, length, take, drop, arith, ◌==◌,
}
use auditchain_gateway_backe.Prelude.Text.{Text, equal_fold, trim_space, codes}
use auditchain_gateway_backe.Prelude.Int.{ℤ}
use auditchain_gateway_backe.Prelude.Mapped.{take-map, drop-map}
use auditchain_gateway_backe.Model.{AuditLog}
use auditchain_gateway_backe.Range.{
  RangeSummary, empty_summary, forces_recheck, range_rows, get_logs_page,
}
use auditchain_gateway_backe.Range.Neutral.{ids_of}
use auditchain_gateway_backe.Range.Tally.{Tally, IsCounted}
use auditchain_gateway_backe.Jobs.{
  VerificationRun, integrity_source_for, add_progress, complete_run,
}

-- the summary of a forced verification with this tally
abbrev pub forced_summary : ℕ → Tally → RangeSummary
forced_summary items t = record empty_summary {
  valid = t.valid;
  invalid = t.invalid;
  pending = t.pending;
  verified_now = items;
}

-- the row of a run that has counted this tally over these items and is complete
abbrev pub finished : ℤ → ℕ → Tally → VerificationRun → VerificationRun
finished now items t row = complete_run now (add_progress items (forced_summary items t) row)

pub no_more :
    (now : ℤ) (row : VerificationRun) (t : Tally)
    → t.valid ≡ 0
    → t.invalid ≡ 0
    → t.pending ≡ 0
    → complete_run now row ≡ finished now 0 t row
no_more now row t v i p = rw (v, i, p) (ground arith)

pub last_page :
    (now : ℤ) (items : ℕ) (s : RangeSummary) (t : Tally) (row : VerificationRun)
    → IsCounted empty_summary s items t
    → complete_run now (add_progress items s row) ≡ finished now items t row
last_page now items s t row h =
    rw (h.valid, h.invalid, h.pending, h.verified_now, h.already_verified) (ground arith)

pub next_page :
    (now : ℤ) (items more : ℕ) (s : RangeSummary) (t u w : Tally) (row : VerificationRun)
    → IsCounted empty_summary s items t
    → w.valid ≡ t.valid + u.valid
    → w.invalid ≡ t.invalid + u.invalid
    → w.pending ≡ t.pending + u.pending
    → finished now more u (add_progress items s row) ≡ finished now (items + more) w row
next_page now items more s t u w row h v i p =
    rw (h.valid, h.invalid, h.pending, h.verified_now, h.already_verified, v, i, p) (ground arith)

pub source_is_forced :
    (requested_by : Text) → forces_recheck (integrity_source_for requested_by) ≡ true
unfolding integrity_source_for
source_is_forced requested_by =
    elim (Bool-cases (equal_fold (trim_space requested_by) (codes "system:scheduler"))) [
      | inl e ↦ rw e refl
      | inr e ↦ rw e refl
    ]

pub positive_limit : (n : ℕ) → 1 ≤ n → (n == 0) ≡ false
positive_limit n h = ground arith

pub page_ids :
    (from to : ℤ) (client : Text) (limit offset : ℕ) (rows : List AuditLog)
    → 1 ≤ limit
    → ids_of (get_logs_page from to client limit offset rows)
      ≡ take limit (drop offset (ids_of (range_rows from to client rows)))
unfolding get_logs_page
page_ids from to client limit offset rows h =
    let id_of : AuditLog → Text = λ (l : AuditLog). l.log_id in
    let all : List AuditLog = range_rows from to client rows in
    rw (positive_limit limit h) (
      sym (take-map id_of limit (drop offset all))
      ∙ ap (take limit) (sym (drop-map id_of offset all)))

pub drop_further : (n m : ℕ) (xs : List Text) → drop m (drop n xs) ≡ drop (n + m) xs
drop_further zero m xs = let same : m ≡ 0 + m = omega arith in ap (λ k. drop k xs) same
drop_further (suc n) zero [] =
    let same : suc n ≡ suc n + 0 = omega arith in ap (λ k. drop k []) same
drop_further (suc n) (suc m) [] =
    let same : suc (n + suc m) ≡ suc n + suc m = omega arith in ap (λ k. drop k []) same
drop_further (suc n) m (x ∷ xs) =
    let same : suc (n + m) ≡ suc n + m = omega arith in
    drop_further n m xs ∙ ap (λ k. drop k (x ∷ xs)) same

pub take_short : (n : ℕ) (xs : List Text) → length (take n xs) < n → take n xs ≡ xs
take_short zero xs h = absurd (omega arith)
take_short (suc n) [] h = refl
take_short (suc n) (x ∷ xs) h = ap (λ ys. x ∷ ys) (take_short n xs (omega arith))

pub no_items : (n : ℕ) (xs : List Text) → 1 ≤ n → length (take n xs) ≡ 0 → xs ≡ []
no_items zero xs p h = absurd (omega arith)
no_items (suc n) [] p h = refl
no_items (suc n) (x ∷ xs) p h = absurd (omega arith)
