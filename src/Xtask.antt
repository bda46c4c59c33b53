-- ===== src/Xtask.antt =====
-- The packaging task, crates/xtask/src/main.rs: its SHA-256 and the package that it writes.
pub mod Sha256
pub mod Os
pub mod Package
