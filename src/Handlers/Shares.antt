-- ===== src/Handlers/Shares.antt =====
-- backend/internal/handlers/shares.go: share links of a project, by which others see it. A handler
-- that writes is told of each of its statements whether it is executed; the reads fail as a whole
-- while the server is not reached.
pub mod Tokens
pub mod Links
pub mod Access
mod Tests
