-- ===== src/Rtl.antt =====
-- The hardware model of sw/sim/hm: the bridge dpi.cpp, which the generated design calls, the harness
-- rtl.cpp, which drives the design, and the branches of sw/sim/model.cpp that call it.
pub mod Dpi
pub mod Top
pub mod Harness
pub mod Driver
