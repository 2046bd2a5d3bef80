-- ===== src/Mirror.antt =====
-- The repository mirror: src/debcraft/domain/mirror/ and src/debcraft/infrastructure/mirror/.
pub mod Sync
pub mod RateLimiter
pub mod Download
pub mod Transfers
pub mod Files
pub mod Engine
pub mod Packages
pub mod Coordinator
pub mod Recovery
