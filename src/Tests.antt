-- ===== src/Tests.antt =====
-- Runs of the models on concrete inputs, and the theorems at such inputs.
mod Spdx
mod Dpkg
mod Kernel
mod Mirror
mod Purl
mod Image
mod Symlinks
mod Sbom
mod Transfers
mod Database
mod Engine
