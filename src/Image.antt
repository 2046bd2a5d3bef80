-- ===== src/Image.antt =====
-- Filesystem layers of container images: src/debcraft/domain/_whiteouts.py and
-- src/debcraft/domain/_archive_paths.py.
pub mod Whiteouts
pub mod Layers
