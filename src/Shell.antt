-- ===== src/Shell.antt =====
-- The quoting of internal/spind/up/run.go for the exports that it prints.
pub mod Posix
pub mod Fish
