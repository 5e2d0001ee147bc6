-- ===== src/Spark.antt =====
-- The Spark jobs (spark_jobs). A DataFrame is the list of its rows.
pub mod Reconstruct
pub mod Posting
pub mod Settlement
pub mod Manifest
