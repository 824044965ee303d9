-- ===== src/Lib.antt =====
-- The AuditChain gateway: client audit logs are hashed, collected in Merkle trees, anchored on a
-- Fabric ledger, and checked again later.
--
-- A log is a row of the gateway's database. The hasher gives it a hash over its fields, the
-- aggregator puts hashed logs in a Merkle tree and stores each log's proof, and the anchoring step
-- submits the root to Fabric. A later verification hashes the row again and leads its hash along
-- the stored proof to the root that Fabric has. Verifications of whole time ranges run in the
-- background, page by page, as rows of a table of runs; a scheduler adds such runs. Snapshots of
-- logs go through an outbox with leases and retries.
--
-- Which file models what:
--   Merkle     pkg/crypto/merkle.go and pkg/crypto/hash.go: BuildMerkleTree (build_merkle_tree, with
--              climb for the outer loop and next_level for the inner one), ReconstructMerkleRoot,
--              VerifyMerkleProof, hashNodes. The map of proofs is an association list.
--   LogHash    internal/engine/hasher/hasher.go: GenerateLogHash, canonicalizeJSON
--   Pipeline   ProcessPendingLogs of that file, ProcessBatch of
--              internal/engine/aggregator/aggregator.go, AnchorPendingRoots of
--              internal/blockchain/fabric.go, as functions on the tables
--   Audit      internal/modules/audit/service.go: classifyIntegrityDetailed (Audit.Evidence),
--              verifyLogIntegrity without the Agent (Audit.Verify), one log of
--              VerifyGatewayIntegrityBatch (Audit.Scanner)
--   Range      verifyRangeBatch, verifyRangeItems, verifyRangeLog and addRangeSummary of that file,
--              with the pages of internal/modules/audit/repository.go
--   Jobs       internal/modules/audit/verification_jobs.go
--   Scheduler  internal/modules/audit/verification_scheduler.go
--   Outbox     internal/engine/snapshotworker/worker.go; Outbox.Rows says which rows an operation
--              touches, Outbox.Unknown follows a row of unknown type through rounds
--   Recovery   internal/modules/recovery/direct_recovery.go and transitionRequest of
--              internal/modules/recovery/service.go: the statuses of one request, its event and its
--              incident; Recovery.EventHash for internal/engine/hasher/recovery.go
--   Kafka      internal/engine/kafkaconsumer/consumer.go: processMessage and what it calls (Payload for
--              the fields of a change, Metadata, Actor, Users, Store for the transaction, Consumer for
--              the whole), with RecordLogStats of internal/engine/stats/stats.go in Kafka.Tables
--   Trend      internal/modules/client/dashboard_trend.go, with the query as a function of the rows
--   RateLimit  internal/middleware/rate_limit.go: tokens are fixed-point numbers, and the tokens that
--              float64 adds for an elapsed time are the parameter add_refill
--   Snapshot   internal/storage/snapshotstore: snapshot.go and crypto.go for audit logs, and Build of
--              outbox.go
--   Redaction  pkg/redaction/json.go, on the decoded document (Json)
--   Canonical  pkg/canonicalstate/canonical.go: canonicalNumber in Canonical.Number, and the rows of
--              clients as decoded documents
--   Model      internal/models/log.go: the columns that these parts read or write
--   Hex, Base64, Decimal, Prelude   encoding/hex, encoding/base64, decimal numbers, and texts, tables
--              and lists
--
-- Parameters stand for code outside the repository: sha3 for SHA3-256, remarshal for the decoding
-- and encoding of encoding/json, Fabric for the replies of the ledger (the anchor's root as text),
-- Submit for a submission to it, SnapshotStore for the object store, checksum for SHA-256, Libraries
-- for what the consumer takes from encoding/json, fmt and unicode (float64 is a type of it with the
-- tests and formats that the code uses), wide_lower for unicode.ToLower on texts outside ASCII. A call
-- of the consumer reads the clock once and is given the id that generateLogID makes. Go ranges over
-- the fields of a message in a random order; the model meets them in the order of the message, which
-- matters only where two of its keys differ in nothing but case. Where a
-- theorem needs it, sha3 is assumed to give 32 bytes; no theorem assumes that it has no collisions. A
-- lookup of proof rows is a function of the hash, or an error.
--
-- Texts are lists of bytes, times are integers in one unit (microseconds where a log is hashed), a
-- null column is `none`. Tables are lists of rows, and an ORDER BY keeps rows that tie in their
-- order. The functions that stop on fuel: climb takes as many rounds as there are leaves, which is
-- enough; process_pages takes the number of rounds before the context is cancelled, and a run needs
-- more rounds than its range has rows only in the worst case of pages of one row.
--
-- Not modelled: the Agent of the client and what its answers change, what a recovery writes to the client and
-- compares, the recovery from snapshots, the connection to Kafka, the
-- statistics of anchors, the HTTP layer, and failures of the database other than unique
-- indexes and the errors that the code itself returns.
pub mod Prelude
pub mod Hex
pub mod Merkle
pub mod Model
pub mod Decimal
pub mod LogHash
pub mod Pipeline
pub mod Audit
pub mod Range
pub mod Jobs
pub mod Scheduler
pub mod Outbox
pub mod Recovery
pub mod Json
pub mod Base64
pub mod Redaction
pub mod Canonical
pub mod Trend
pub mod RateLimit
pub mod Snapshot
pub mod Kafka
pub mod Samples
