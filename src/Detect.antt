-- ===== src/Detect.antt =====
-- The detection jobs (flink/sih_detect), one module for each file.
pub mod FlowDelta
pub mod Incidents
pub mod Scan
