-- ===== src/Auth.antt =====
-- backend/internal/auth
pub mod ShareToken
pub mod Validator
