-- ===== src/Lib.antt =====
-- Vyomanaut: a verification library for the Go program of this repository, a storage network in which
-- owners' files are cut into segments, each segment is erasure-coded into shards, providers store the
-- shards in a chunk log, a microservice audits them, repairs what departed providers held, charges
-- owners and pays providers from an escrow ledger.
--
-- Which file models what:
-- Base: shared helpers. Lists and tests over the native numbers, xor, results, int64 words, and a
--   check of a property of all numbers below a bound.
-- Erasure (internal/erasure): Field models the log and antilog tables that `init` fills and `gfMul`,
--   `gfPow`, `gfInv` (rs_internal.go); Row and Matrix model `invertMatrix` with its pivot search, row
--   swap, scaling and elimination; Coder models `buildGeneratorMatrix`, `newRSEncoder`, `encode`,
--   `reconstruct`, `NewEngine`, `EncodeSegment` and `DecodeSegment` (engine.go, params.go). Polynomial
--   is the mathematics between them: a row of the encoding matrix evaluates a polynomial at a point.
-- Payment (internal/payment): Ledger models the escrow tables and `InsertEscrowEvent` (ledger.go);
--   Charge models `fileMonthlyCostPaise` and `splitByLargestRemainder`, and Charge/Distribution
--   `computeChargeForFile` and `ComputeMonthlyCharges` (charge.go); Release models
--   `computeReleaseForProvider`, `ComputeMonthlyRelease` and `PreviewMonthlyRelease` (release.go) with
--   the release of the mock provider (mock.go). Calendar models the monthly loops of both,
--   `runChargeOnCalendarDate` and `runReleaseOnCalendarDate`, with their tests of the date.
-- Repair (internal/repair): Queue models the table repair_jobs with `EnqueueJob`, `DequeueNextJob`,
--   `MarkJobComplete` and `PromoteStalePreWarningJobs` (queue.go); Departure models `DetectOnce`,
--   `processDeparture`, `EnqueueRepairForRealChunks` and `computeSealedBalance` (departure.go) with
--   `IsVettingChunk` and `DeleteVettingChunksOnDeparture` (queue.go), on the queue of Queue and the
--   escrow table of Payment/Ledger; Assignment models `SelectReplacementProvider` (assignment.go).
-- Scoring (internal/scoring): Passes models `IncrementConsecutivePasses` and `ResetConsecutivePasses`
--   (passes.go) on a provider's row.
-- Storage (internal/storage): Index models the twelve-byte index value and the operations of the chunk
--   index (engine_rocksdb.go); Vlog models `appendToVLog`, `readFromVLog`, `AppendChunk`, `LookupChunk`
--   and `DeleteChunk`, Vlog/Recover `RecoverFromCrash`, Vlog/Collect `RunGC` (vlog.go). Chunks is the
--   specification, a set of content-addressed chunks, and the proofs that the store implements it.
-- Audit (internal/audit): Secret models `ClusterSecretCache` with `Load`, its upward scan,
--   `CurrentSecret`, `IsVersionValid` and `SecretForVersion` (secret.go); Signing the bytes that
--   `ChallengeNonce`, `ValidateResponse` and `ValidateFailResponse` sign or check (challenge.go,
--   validate.go); Receipts the tables of receipts and nonces with `WriteReceiptPhase1`,
--   `WriteReceiptRecordResponse` and `WriteReceiptPhase2` (receipt.go).
--
-- How the state corresponds: a byte is a number below 256, a shard a list of bytes, a nil shard `none`;
-- a Go error is a constructor of an error type, a panic is a value of its own. ShardSize is a parameter
-- of the erasure definitions, so that a test runs on short shards. An int64 is its bit pattern, with
-- the wrap-around written out. A database table is a list of rows with the constraints of
-- migrations/001_initial_schema.sql, and a statement reaches it or not as a parameter says. SHA-256, the
-- database RocksDB and the visiting order of a Go map are parameters. The value log is a list of bytes,
-- and a parameter says which of the system's calls fail. A loop is a structural recursion on the list or
-- the count that the Go loop runs through; the two scans of the value log have fuel, one turn for each
-- byte of the file and one more, which Storage/Vlog/Ends shows to be enough.
--
-- A worker's transaction on a table is one step, so that concurrent workers are a sequence of steps.
--
-- Not modelled: opening and closing the chunk store and its Windows engine (the other
-- files of internal/storage), the check of suspiciously fast
-- answers (internal/audit/jit.go, on floating-point numbers), the scores
-- (the other files of internal/scoring), vetting (internal/vettingchunk), cryptography (internal/crypto), configuration
-- (internal/config, internal/cluster), the execution of a repair (internal/repair/executor.go),
-- the live payment service (internal/payment/razorpay.go) and the loops of the demonstration mode; and the HTTP
-- API, the peer-to-peer host, the clients, the command-line programs and the metrics, which are I/O and
-- glue around these parts.
pub mod Audit
pub mod Base
pub mod Erasure
pub mod Payment
pub mod Repair
pub mod Scoring
pub mod Storage
