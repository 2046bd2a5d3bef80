-- ===== src/Database.antt =====
-- The database layer: src/debcraft/infrastructure/database/.
pub mod UnitOfWork
