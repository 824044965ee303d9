-- ===== src/Pipeline.antt =====
-- The background pipeline of audit logs, RECEIVED → HASHED → AGGREGATED → ANCHORED:
-- internal/engine/hasher/hasher.go (ProcessPendingLogs), internal/engine/aggregator/aggregator.go
-- (ProcessBatch) and internal/blockchain/fabric.go (AnchorPendingRoots).
-- The store holds the tables that these steps share. A database call fails here for a unique index
-- only; `none` is the error that rolls a transaction back.
pub mod Rows
pub mod Stored
pub mod Verdict
pub mod Progress
mod Examples
use auditchain_gateway_backe.Prelude.{
  ℕ, Bool, true, false, not, ◌&&◌, ◌||◌, Option, none, some, List, [], ◌∷◌, ◌++◌, map, length, take,
  if◌then◌else◌, ◌==◌, leb,
}
use auditchain_gateway_backe.Prelude.Text.{Text, codes, text_eq, upper, is_empty}
use auditchain_gateway_backe.Prelude.Int.{ℤ, ltb_ℤ}
use auditchain_gateway_backe.Prelude.Table.{select, update_where, count_where, order_by}
use auditchain_gateway_backe.Merkle.{ProofStep, Proofs, MerkleResult, build_merkle_tree, proof_of}
use auditchain_gateway_backe.Model.{
  LogStatus, received, hashed, aggregated, anchored, SnapshotStatus, verified, AuditLog,
  MerkleMetadata, MerkleProofRow,
}
use auditchain_gateway_backe.LogHash.{generate_log_hash}

pub record Store : Type 0 where
  pub logs : List AuditLog
  pub metadata : List MerkleMetadata
  pub proofs : List MerkleProofRow

abbrev pub is_received : LogStatus → Bool
is_received received = true
is_received _ = false

abbrev pub is_hashed : LogStatus → Bool
is_hashed hashed = true
is_hashed _ = false

abbrev pub is_aggregated : LogStatus → Bool
is_aggregated aggregated = true
is_aggregated _ = false

abbrev pub is_verified : SnapshotStatus → Bool
is_verified verified = true
is_verified _ = false

-- TRIM of SQL takes spaces off both ends
unfoldable pub drop_spaces : Text → Text
drop_spaces [] = []
drop_spaces (c ∷ s) = let rest = drop_spaces s in if c == 32 then rest else c ∷ s

unfoldable pub drop_last_spaces : Text → Text
drop_last_spaces [] = []
drop_last_spaces (c ∷ s) =
    let rest = drop_last_spaces s in if c == 32 && is_empty rest then [] else c ∷ rest

-- COALESCE(UPPER(TRIM(action)), '') = 'RECOVERY'
unfoldable pub is_recovery_row : Text → Bool
unfolding drop_spaces drop_last_spaces text_eq upper
is_recovery_row action =
    text_eq (map upper (drop_last_spaces (drop_spaces action))) (codes "RECOVERY")

abbrev pub by_timestamp : AuditLog → AuditLog → Bool
by_timestamp a b = not (ltb_ℤ b.timestamp a.timestamp)

module _ (remarshal : Text → Option Text) (sha3 : List ℕ → List ℕ) where
  -- Save writes the row of the log's id, unless another row has the new hash (unique index).
  unfoldable pub save_hashed : Text → AuditLog → List AuditLog → List AuditLog
  save_hashed hash log rows =
      if leb 1 (
        count_where
          (λ (r : AuditLog). text_eq r.hash_value hash && not (text_eq r.log_id log.log_id)) rows)
      then rows
      else update_where (λ (r : AuditLog). text_eq r.log_id log.log_id)
          (λ _. record log { hash_value = hash; status = hashed }) rows

  -- the loop of ProcessPendingLogs
  unfoldable pub hash_logs : List AuditLog → List AuditLog → List AuditLog
  unfolding save_hashed
  hash_logs [] rows = rows
  hash_logs (log ∷ logs) rows =
      hash_logs logs (save_hashed (generate_log_hash remarshal sha3 log) log rows)

  unfoldable pub process_pending_logs : Store → Store
  unfolding hash_logs
  process_pending_logs s = record s {
    logs =
        hash_logs
          (order_by by_timestamp (
            select (λ (r : AuditLog). is_received r.status && not (is_recovery_row r.action))
              s.logs))
          s.logs;
  }

-- the two fields of aggregator.Engine that choose the batch
pub record BatchConfig : Type 0 where
  pub recovery_cutoff : Option ℤ
  pub snapshot_required : Bool

-- db_timestamp IS NOT NULL AND db_timestamp >= cutoff
unfoldable pub since_cutoff : Option ℤ → Option ℤ → Bool
since_cutoff none stamp = true
since_cutoff (some cutoff) none = false
since_cutoff (some cutoff) (some stamp) = not (ltb_ℤ stamp cutoff)

unfoldable pub is_eligible : BatchConfig → AuditLog → Bool
unfolding since_cutoff
is_eligible cfg l =
    is_hashed l.status
    && not (is_recovery_row l.action)
    && since_cutoff cfg.recovery_cutoff l.db_timestamp
    && (not cfg.snapshot_required || is_verified l.snapshot_status)

-- the query of ProcessBatch
unfoldable pub select_batch : BatchConfig → ℕ → Store → List AuditLog
unfolding is_eligible
select_batch cfg size s = take size (order_by by_timestamp (select (is_eligible cfg) s.logs))

-- WHERE log_id = ? AND status = 'HASHED'
abbrev pub still_hashed : AuditLog → AuditLog → Bool
still_hashed log row = text_eq row.log_id log.log_id && is_hashed row.status

abbrev pub proof_row : Text → Text → ProofStep → MerkleProofRow
proof_row root hash p = record {
  transaction_hash = hash;
  sibling_hash = p.sibling_hash;
  is_left = p.is_left;
  tree_level = p.tree_level;
  merkle_root = root;
}

-- one round of the loop in the transaction of ProcessBatch
unfoldable pub aggregate_log : Text → Proofs → AuditLog → Store → Option Store
aggregate_log root proofs log s =
    if count_where (still_hashed log) s.logs == 1
    then some (record s {
      logs =
          update_where (still_hashed log)
            (λ row. record row { merkle_root = root; status = aggregated }) s.logs;
      proofs = s.proofs ++ map (proof_row root log.hash_value) (proof_of proofs log.hash_value);
    })
    else none

unfoldable pub aggregate_logs : Text → Proofs → List AuditLog → Store → Option Store
unfolding aggregate_log
aggregate_logs root proofs [] s = some s
aggregate_logs root proofs (log ∷ logs) s = elim (aggregate_log root proofs log s) [
  | none ↦ none
  | some s' ↦ aggregate_logs root proofs logs s'
]

-- the transaction of ProcessBatch; merkle_root is a unique column of MerkleMetadata
unfoldable pub commit_batch : MerkleResult → List AuditLog → Store → Option Store
unfolding aggregate_logs
commit_batch result logs s =
    if leb 1 (count_where (λ (m : MerkleMetadata). text_eq m.root result.root) s.metadata)
    then none
    else aggregate_logs result.root result.proofs logs (record s {
      metadata = s.metadata ++ record { root = result.root; batch_size = length logs } ∷ [];
    })

abbrev pub hash_values : List AuditLog → List Text
hash_values = map (λ (l : AuditLog). l.hash_value)

module _ (sha3 : List ℕ → List ℕ) where
  -- ProcessBatch, from the loaded rows; true is a nil error
  unfoldable pub process_rows : List AuditLog → Store → Store × Bool
  unfolding commit_batch
  process_rows [] s = (s, true)
  process_rows (log ∷ logs) s = elim (build_merkle_tree sha3 (hash_values (log ∷ logs))) [
    | none ↦ (s, true)
    | some result ↦ elim (commit_batch result (log ∷ logs) s) [
      | none ↦ (s, false)
      | some s' ↦ (s', true)
    ]
  ]

  unfoldable pub process_batch : BatchConfig → ℕ → Store → Store × Bool
  unfolding process_rows select_batch
  process_batch cfg size s = process_rows (select_batch cfg size s) s

-- DISTINCT merkle_root
unfoldable pub distinct : List Text → List Text
distinct [] = []
distinct (r ∷ rs) = let rest = distinct rs in r ∷ select (λ (t : Text). not (text_eq t r)) rest

-- The outcome of submitting one root: the anchor's id and time, or `none` if Fabric refuses.
abbrev pub Submit : Type 0
Submit = Text → Option (Text × ℤ)

-- one root of AnchorPendingRoots: without metadata, or if Fabric refuses, it waits for a later cycle
unfoldable pub anchor_root : Submit → Text → Store → Store
anchor_root submit root s =
    if leb 1 (count_where (λ (m : MerkleMetadata). text_eq m.root root) s.metadata)
    then elim (submit root) [
      | none ↦ s
      | some (id, time) ↦ record s {
        logs =
            update_where (λ (r : AuditLog). text_eq r.merkle_root root)
              (λ r. record r {
                status = anchored;
                blockchain_tx_id = some id;
                blockchain_timestamp = some time;
              })
              s.logs;
      }
    ]
    else s

unfoldable pub anchor_roots : Submit → List Text → Store → Store
unfolding anchor_root
anchor_roots submit [] s = s
anchor_roots submit (root ∷ roots) s = anchor_roots submit roots (anchor_root submit root s)

unfoldable pub anchor_pending_roots : Submit → Store → Store
unfolding anchor_roots distinct
anchor_pending_roots submit s =
    anchor_roots submit
      (distinct (
        map (λ (r : AuditLog). r.merkle_root)
          (select (λ (r : AuditLog). is_aggregated r.status && not (is_recovery_row r.action))
            s.logs)))
      s
