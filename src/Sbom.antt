-- ===== src/Sbom.antt =====
-- Software bills of materials: src/debcraft/domain/sbom/.
pub mod Values
pub mod Assembler
