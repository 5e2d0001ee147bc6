-- ===== src/Examples.antt =====
-- Concrete inputs: runs of the model, and each theorem at an input that meets its hypotheses.
mod Fixtures
mod Opened
mod LedgerRuns
mod StoreRuns
mod SettlementRuns
mod SparkRuns
mod PrivacyRuns
mod PostingRuns
mod EvidenceRuns
mod Cloud
mod LoaderRuns
mod GateRuns
mod ManifestRuns
mod RegistryRuns
mod SimulatorRuns
