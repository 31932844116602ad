-- ===== src/Cycle.antt =====
-- The cycle model of sw/sim/hm/difftest.cpp, which runs in lockstep with the hardware.
pub mod State
pub mod Mask
pub mod Transfer
pub mod Lane
pub mod Core
pub mod Kmu
pub mod Pack
pub mod Step
pub mod Names
pub mod Agree
