-- ===== src/Handlers.antt =====
-- backend/internal/handlers: the HTTP handlers that decide more than which query to run.
pub mod Shares
pub mod Payments
pub mod Tracks
pub mod Offline
pub mod Collaboration
pub mod Projects
pub mod Rollback
