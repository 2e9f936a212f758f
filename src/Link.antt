-- ===== src/Link.antt =====
-- The one-way link: frames, and the reassembly of records from them.
pub mod Frame
pub mod Reassembly
