-- ===== src/Kernel.antt =====
-- The platform kernel: src/debcraft/platform/kernel/.
pub mod Container
pub mod Resources
pub mod Events
pub mod Workflow
