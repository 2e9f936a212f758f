-- ===== src/Sender.antt =====
-- The sender of the one-way link (ingest/sender/sih_sender), one module for each file.
pub mod Normalizer
pub mod State
pub mod Link
pub mod Context
pub mod Replay
pub mod Tail
