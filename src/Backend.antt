-- ===== src/Backend.antt =====
-- The API of the dashboard (backend/sih_api).
pub mod Auth
pub mod Live
