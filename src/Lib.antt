-- ===== src/Lib.antt =====
-- Verification of AlphaProof, a system that runs capital scenarios of agents in shadow portfolios,
-- accounts for them by receipts, follows cross-chain transfers of USDC, evaluates the outcome and
-- commits to its audit trail by Merkle trees.
--
-- The parts and their files:
--
-- * Accounting (packages/accounting/src/index.ts, packages/schemas/src/accounting.ts). State and
--   Receipt hold the data; Amounts is `mulDiv` and `rescaleMinor`; Books holds the cash books and
--   `applyCosts`; Effects has one function for each kind of receipt, which are the branches of
--   `applyReceipt`; Check is `assertPortfolio` with its checks in order, and Check/Schema the range
--   tests of the schemas; Create is `createPortfolio`; Apply is `applyReceipt` as a whole; Replay is
--   `replay`; Value is `valuePortfolio` and `globalBookValue`. Conservation holds the proofs on what
--   receipts do to the value of a portfolio.
-- * Transfers (packages/transfers/src/index.ts, packages/schemas/src/transfer.ts). State is the
--   transfer, its events and `createTransfer`; Evidence is `verifyEvidence`; Lifecycle is
--   `applyTransferEvent` and `replayTransfer`; Table has the transition table that they follow;
--   Receipts is `accountingReceiptForTransferEvent` with the conversions beside it; Agreement puts
--   the life cycle beside the receivable of the accounting, both of which packages/storage/src/m5.ts
--   applies, where the two disagree.
-- * Commitments (packages/commitments/src/index.ts, packages/schemas/src/m6.ts and objects.ts).
--   Merkle is `nextLevel`, `merkleRoot`, `createProof` and `verifyProof`; Audit is the chain of
--   audit events and their leaves; Batches is `buildBatch`, `assertBatchContinuity` and
--   `verifyPublication`; Export is `verifyExport`.
-- * Valuation (packages/valuation/src/index.ts, packages/schemas/src/evaluation.ts). Valuation is
--   `makeReferences`, `checkpointPortfolio`, `createScenarioCheckpoint` and `portfolioPositionMark`;
--   Accruals (with Steps, Fresh and Chain), Mark, References and Comparable hold the proofs on them.
-- * Evaluation (packages/evaluation/src/index.ts, packages/schemas/src/evaluation.ts and objects.ts).
--   Evaluation is `evaluateEligibility`; Metrics is `metrics` and `evaluateScenario`; Replay is
--   `replayM4`, which makes the checkpoint again by Valuation and evaluates it again by Metrics.
-- * Execution (packages/execution/src/index.ts, packages/schemas/src/objects.ts and primitives.ts).
--   `planAllocation` with the schemas of policies, intents, allocations and plans.
-- * Market (packages/market-data/src/index.ts, packages/schemas/src/economic.ts). The archives in
--   memory and in files, archived JSON, and the freshness of observations.
-- * Storage (packages/storage/src/m3.ts, m5.ts and operations.ts). Queue is `claimJob` and `claim`,
--   with what claims do in Leases, Exclusive and Drained; Repository is `TransferRepository`:
--   Repository has the rows, `create` and `load`, Append the other calls, Steps the calls as steps of
--   the rows, and Appended, Once, Created, Jobs, Accounts, Replayed and History the proofs on them.
--   Actions is `savePlan` and `applyActionReceipt`; Journal is `appendEvent` of the economic journal;
--   Requests is `consumeRequest` of operations.ts.
-- * Canonical (packages/domain/src/index.ts) is `canonicalJson`, which Market archives by.
-- * Base holds Boolean tests, lists, signed integers and the results of fallible code.
--
-- How code is modelled. A function that throws returns a `Result`, with the code of the error and
-- without its text; a refusal by a schema is `schema_rejected`. State is passed on explicitly: the
-- code clones a portfolio before it changes it. Identifiers, hashes, timestamps and reason codes are
-- numbers, compared and ordered as such; decimal texts are the numbers they denote, with the bound
-- of 256 bits tested where the code tests it. Maps and sets are lists without repeated keys.
--
-- The database. A table is a list of rows in the order of insertion; a transaction is a function of
-- the rows that returns new ones or an error, and then the rows are as before. A key that is taken,
-- a missing reference and the trigger of db/migrations/0004_cctp_transfers.sql are the one error
-- `constraint_violated`. Calls run one after another, each at one time of the database's clock: the
-- row locks of the code make its transactions on one row do so. JSON that is written is read back
-- as it was.
--
-- Parameters. `contentHash` and keccak256 (viem's, over canonical JSON) are functions without
-- further hypotheses: what depends on their quality is stated as "or two different objects have one
-- hash". The encodings of hashed objects are parameters in the same way, as are the test for UTF-8
-- and the `JSON.parse` that archived bytes go through.
--
-- Loops. The only loops whose end is not visible are those over the levels of a Merkle tree. They
-- run on fuel, as many rounds as there are hashes: every round halves the number of hashes, so the
-- loops are done before the fuel is.
--
-- Texts of identifiers. Where the code composes a text of identifiers, or looks into one, that is a
-- field of a record of functions (`CheckpointHasher` of Valuation, `Texts` of Execution), since
-- identifiers are numbers here. Canonical JSON works on texts as lists of UTF-16 code units.
--
-- Not modelled: the patterns of texts in schemas, the adapters of protocols, configuration, the
-- drivers of experiments, the rest of storage, the numeric ranges of columns, and the applications
-- and contracts around them.
pub mod Base
pub mod Canonical
pub mod Accounting
pub mod Transfers
pub mod Commitments
pub mod Valuation
pub mod Evaluation
pub mod Execution
pub mod Market
pub mod Storage
