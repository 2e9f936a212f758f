-- ===== src/Receiver.antt =====
-- The receiver of the one-way link (ingest/receiver/sih_receiver), one module for each file.
pub mod Dedup
pub mod Spool
pub mod Core
pub mod Publisher
