-- ===== src/Helpers.antt =====
-- backend/internal/helpers
pub mod Validation
pub mod Filename
pub mod Requests
