-- ===== src/Runtime.antt =====
-- The native runtime of sw/runtime/gpu/gpu.c, behind the public header sw/include/runtime.h.
pub mod Types
pub mod Range
pub mod Alloc
pub mod Transfer
pub mod Device
pub mod Launch
pub mod Execute
pub mod Init
