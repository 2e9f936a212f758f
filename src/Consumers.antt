-- ===== src/Consumers.antt =====
-- The consumers of the broker (consumers/sih_consumers), one module for each file.
pub mod Archive
pub mod Base
