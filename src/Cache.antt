-- ===== src/Cache.antt =====
-- backend/internal/cache: what is kept outside the database.
pub mod Redis
pub mod AccessList
pub mod PresignedUrl
pub mod Invalidation
