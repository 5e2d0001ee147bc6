-- ===== src/Store.antt =====
-- ledgerflow/store.py: the transactional store. The tables are in Tables, `_ingest_one` in Ingest,
-- `_project_transaction` in Lifecycle and Project, `process` in Process.
pub mod Tables
pub mod Ingest
pub mod Lifecycle
pub mod Project
pub mod Summary
pub mod Process
pub mod Amounts
pub mod Settlement
