-- ===== src/Tests.antt =====
-- Tests, and the theorems at concrete inputs: the default configuration of Kconfig, a device with
-- one block in its heap, small images and command lines.
mod Fixture
mod Memory
mod Heap
mod Kernels
mod Launch
mod Simulator
mod Kconfig
mod Sorting
mod Cycle
mod Agree
mod Loads
mod Rtl
mod Hardware
mod Host
