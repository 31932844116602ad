-- ===== src/Iss.antt =====
-- The instruction-set simulator of sw/sim/sm/iss.cpp.
pub mod State
pub mod Decode
pub mod Alu
pub mod Step
pub mod Grid
pub mod Driver
