-- ===== src/Kconfig.antt =====
-- The configuration tool of tools/kconfig.
pub mod Expr
