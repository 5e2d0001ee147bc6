-- ===== src/Lib.antt =====
-- LedgerFlow payment reconciliation: the executable core (src/ledgerflow) of a platform that turns
-- payment events into accepted evidence, a balanced ledger and a current state for each payment, the
-- Spark jobs (spark_jobs) that do the same at scale, and the handlers (lambdas) through which payments
-- and settlement files arrive.
--
-- Prelude: names of the libraries, integers, texts, orders and sorting, sets, and results.
-- Json: what `json.loads` yields; Json/Dumps is `canonical_json` of src/ledgerflow/contracts.py.
-- Contracts (src/ledgerflow/contracts.py): the types of events and sources. Contracts/Privacy is
--   `reject_prohibited_fields` and `redact_payload`, Contracts/Identity `identity_fingerprint`,
--   `tokenize_customer` and `extract_business_payload`, Contracts/Validate `validate_event`,
--   and Contracts/Registry `load_source_registry`.
-- Ledger (src/ledgerflow/ledger.py): `build_postings` and `assert_balanced`; Ledger/Rules is
--   `load_posting_rules`. Ledger/Config has the rules of config/posting_rules.json.
--   Proofs are in Ledger/Balance and Ledger/Posting.
-- Store (src/ledgerflow/store.py): Store/Tables is the schema with a function for each INSERT,
--   Store/Ingest `_ingest_one`, Store/Lifecycle the assessment and status of a transaction,
--   Store/Project `_project_transaction` and `_rebuild_projections`, Store/Summary `summary`,
--   Store/Process `process`, and Store/Settlement `expected_settlement` and `reconcile_settlement`,
--   with the dicts of amounts in Store/Amounts. Proofs are in their child modules.
-- Spark (spark_jobs): Spark/Reconstruct is `reconstruct` of spark_jobs/reconstruct_payment_state.py:
--   the columns over a transaction's window and the chain of errors; Spark/Reconstruct/Rows the two
--   DataFrames that it returns. Spark/Posting is spark_jobs/post_ledger.py,
--   and Spark/Settlement spark_jobs/reconcile_settlements.py without its merge of the evidence.
--   Spark/Manifest is spark_jobs/validate_settlement_manifest.py.
-- Manifest (src/ledgerflow/manifest.py): Manifest/Digest is `file_sha256`, and Manifest/Build
--   `build_manifest` and `verify_manifest`. Proofs are in Manifest/Totals,
--   Manifest/Currencies and Manifest/Verify.
-- Simulator (src/ledgerflow/simulator.py): the generated lifecycles, the injected faults and the
--   fixtures. Proofs are in Simulator/Injected, Simulator/Counts, Simulator/Shapes and
--   Simulator/Lawful.
-- Interleaving: workers whose moves on one world interleave, and invariants of their runs.
-- Services: the cloud's tables as an interface with laws, and the exceptions of a handler.
-- ManifestLoader (lambdas/manifest_loader/handler.py): ManifestLoader/Keys reads object keys,
--   ManifestLoader/Verify is `_record` and the checks of `handler`, ManifestLoader/Register is
--   `_register_revision` and `handler`. ManifestLoader/Steps lets the service calls of many handlers
--   interleave. Proofs are in ManifestLoader/Checked, ManifestLoader/Redelivery and the child modules
--   of ManifestLoader/Steps.
-- IdentityGate (lambdas/schema_identity_gate/handler.py): IdentityGate/Publish is
--   `_publish_accepted`, IdentityGate/Handler the batch `handler`, and IdentityGate/Steps the
--   interleaved service calls of many handlers. Proofs are in IdentityGate/Keys,
--   IdentityGate/Recovery, IdentityGate/Screened and the child modules of IdentityGate/Steps.
-- Examples: runs and instances on concrete inputs.
--
-- How the code is read. A table is the list of its rows in the order of insertion, and an INSERT
-- checks the 64-bit range of the integers, CHECK, the primary key and the foreign keys. A call of
-- `process` takes the committed tables and returns the committed tables, together with its summary or
-- the error that it raises; ROLLBACK is the return to the tables at BEGIN. An exception is an error
-- value. The amounts and versions of an accepted event are positive, so they are natural numbers; all
-- other money of the Python code is an unbounded integer. Texts are sequences of Unicode scalar values,
-- so a lone surrogate, which `json.loads` lets through, is not covered.
--
-- Prelude/Int64 has the 64-bit integers. The sums and differences of Spark's bigint columns wrap
-- around, as they do with ANSI mode off, and the proofs about exact amounts ask that these stay below
-- 2 ^ 63. A SUM of SQLite over the ledger raises where a partial sum, in the order of the rows, leaves
-- the 64-bit integers; since `summary` runs after COMMIT, such a call raises with its changes kept.
-- Counts of rows are natural numbers.
--
-- What is a parameter: the record `Platform` (case folding, lower case, strip, `fromisoformat`,
-- SHA-256 and HMAC), `to_date` of Spark, the text of an exception, and the readings of the clock;
-- what S3, DynamoDB and Step Functions answer, which are tables whose reads see their writes; the
-- decoding of base64 and of the lines of a file, the digest of hashlib, and the simulator's shuffle.
--
-- All recursion is structural. Three functions run on fuel: `decimal` has the number itself, which has
-- fewer digits than that, `file_sha256` the size of the file, which has fewer chunks, and the loop of
-- `generate_payment_events` the minimum of records, to which each round adds two at least.
--
-- Not modelled: files and connections (`connect`, `read_json`, `write_json`), the evidence harness,
-- the command line, the Airflow workflows, and the arguments and table names of the Spark jobs.
pub mod Prelude
pub mod Json
pub mod Contracts
pub mod Ledger
pub mod Spark
pub mod Store
pub mod Manifest
pub mod Simulator
pub mod Services
pub mod Interleaving
pub mod ManifestLoader
pub mod IdentityGate
pub mod Examples
