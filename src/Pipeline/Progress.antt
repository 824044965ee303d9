-- ===== src/Pipeline/Progress.antt =====
-- When the transaction of a batch commits.
use auditchain_gateway_backe.Prelude.{
  ℕ, ◌≡◌, refl, ap, ◌∙◌, Bool, true, false, Bool-cases, inl, inr, some, List, [], ◌∷◌, map, arith,
  leb, ◌==◌,
}
use auditchain_gateway_backe.Prelude.Text.{Text, text_eq, text_eq_iff, text_eq_refl}
use auditchain_gateway_backe.Prelude.Counts.{count, Distinct, All}
use auditchain_gateway_backe.Prelude.Table.{update_where, count_where}
use auditchain_gateway_backe.Merkle.{Proofs, MerkleResult, build_merkle_tree}
use auditchain_gateway_backe.Model.{AuditLog, MerkleMetadata, aggregated}
use auditchain_gateway_backe.Pipeline.{
  Store, still_hashed, hash_values, aggregate_log, aggregate_logs, commit_batch, process_rows,
}

abbrev pub log_ids : List AuditLog → List Text
log_ids = map (λ (l : AuditLog). l.log_id)

-- the log is one HASHED row of the table
abbrev pub IsWaiting : List AuditLog → AuditLog → Type 0
IsWaiting rows l = count_where (still_hashed l) rows ≡ 1

abbrev mark_aggregated : Text → AuditLog → AuditLog
mark_aggregated root row = record row { merkle_root = root; status = aggregated }

other_id : (a b c : Text) → text_eq b a ≡ false → text_eq c a ≡ true → text_eq c b ≡ false
other_id a b c ne e =
    ground (arith, text_eq_iff c a, text_eq_iff c b, text_eq_iff b a, text_eq_refl a)

-- aggregating one log leaves the others waiting
still_hashed_kept :
    (root : Text) (l other : AuditLog) (rows : List AuditLog)
    → text_eq other.log_id l.log_id ≡ false
    → count_where (still_hashed other) (update_where (still_hashed l) (mark_aggregated root) rows)
      ≡ count_where (still_hashed other) rows
unfolding count_where update_where
still_hashed_kept root l other [] ne = refl
still_hashed_kept root l other (r ∷ rows) ne = elim (Bool-cases (text_eq r.log_id l.log_id)) [
  | inl e ↦
      let foreign : text_eq r.log_id other.log_id ≡ false =
        other_id l.log_id other.log_id r.log_id ne e in
      ground (arith, e, foreign, still_hashed_kept root l other rows ne)
  | inr e ↦ ground (arith, e, still_hashed_kept root l other rows ne)
]

IsWaiting-kept :
    (root : Text) (l : AuditLog) (rows : List AuditLog) (ls : List AuditLog)
    → count l.log_id (log_ids ls) ≡ 0
    → All (IsWaiting rows) ls
    → All (IsWaiting (update_where (still_hashed l) (mark_aggregated root) rows)) ls
unfolding count
IsWaiting-kept root l rows [] c h = tt
IsWaiting-kept root l rows (k ∷ ls) c h = elim (Bool-cases (text_eq k.log_id l.log_id)) [
  | inl e ↦ absurd (omega (arith, rw e at c))
  | inr e ↦ (still_hashed_kept root l k rows e ∙ h.0, IsWaiting-kept root l rows ls (rw e at c) h.1)
]

Distinct-head : (a : Text) (xs : List Text) → Distinct (a ∷ xs) → count a xs ≡ 0
unfolding count
Distinct-head a xs d = ground (arith, d.once a, text_eq_refl a)

Distinct-tail : (a : Text) (xs : List Text) → Distinct (a ∷ xs) → Distinct xs
unfolding count
Distinct-tail a xs d = record { once = λ b. ground (arith, d.once b) }

aggregate_logs-commits :
    (root : Text) (proofs : Proofs) (ls : List AuditLog) (s : Store)
    → Distinct (log_ids ls)
    → All (IsWaiting s.logs) ls
    → (s' : Store) × (aggregate_logs root proofs ls s ≡ some s')
unfolding aggregate_logs aggregate_log
aggregate_logs-commits root proofs [] s d h = (s, refl)
aggregate_logs-commits root proofs (l ∷ ls) s d h =
    let found : (count_where (still_hashed l) s.logs == 1) ≡ true = ap (λ n. n == 1) h.0 in
    rw (found, aggregate_logs, aggregate_log)
      (aggregate_logs-commits root proofs ls _ (Distinct-tail l.log_id (log_ids ls) d)
        (IsWaiting-kept root l s.logs ls (Distinct-head l.log_id (log_ids ls) d) h.1))

abbrev pub has_root : Text → MerkleMetadata → Bool
has_root root m = text_eq m.root root

commit_batch-commits :
    (r : MerkleResult) (ls : List AuditLog) (s : Store)
    → Distinct (log_ids ls)
    → All (IsWaiting s.logs) ls
    → count_where (has_root r.root) s.metadata ≡ 0
    → (s' : Store) × (commit_batch r ls s ≡ some s')
unfolding commit_batch
commit_batch-commits r ls s d h fresh =
    let free : leb 1 (count_where (has_root r.root) s.metadata) ≡ false = ap (leb 1) fresh in
    rw free (aggregate_logs-commits r.root r.proofs ls _ d h)

-- If the rows of a batch have distinct ids and each is one HASHED row of the table, and the root of
-- their tree is not in the metadata, then the batch is aggregated with no error.
pub waiting_batch_commits :
    (sha3 : List ℕ → List ℕ) (l : AuditLog) (ls : List AuditLog) (s : Store) (r : MerkleResult)
    → build_merkle_tree sha3 (hash_values (l ∷ ls)) ≡ some r
    → Distinct (log_ids (l ∷ ls))
    → All (IsWaiting s.logs) (l ∷ ls)
    → count_where (has_root r.root) s.metadata ≡ 0
    → (process_rows sha3 (l ∷ ls) s).1 ≡ true
unfolding process_rows
waiting_batch_commits sha3 l ls s r built d h fresh =
    let (s', done) = commit_batch-commits r (l ∷ ls) s d h fresh in
    rw (built, done, process_rows) refl
