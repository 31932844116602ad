-- ===== src/Lib.antt =====
-- OpenGPU's native runtime, its simulators, and the harness that compares the hardware with them.
--
-- The program. A host application calls the runtime of sw/runtime/gpu/gpu.c (public header
-- sw/include/runtime.h): it opens the one device, allocates device memory, moves bytes, loads a
-- kernel image, launches a grid and waits. The runtime keeps the device memory of
-- sw/runtime/device/memory.c, and drives a simulator through the interface of sw/sim/model.h. The
-- simulator is either the instruction-set simulator of sw/sim/sm/iss.cpp or a hardware model; a
-- differential build runs the first as a reference before the second, and compares the memories.
--
-- The files.
-- Config: the CONFIG_ macros of the generated header, and the constants of
--   sw/runtime/gpu/gpu.h. `IsSupported` states the ranges of Kconfig, and that the memory holds the
--   kernel area, reaches the heap, ends below 2^32 and does not start in the first word.
-- Memory: memory.c. `pmem` is an optional function from offsets to bytes.
-- Trace: the gpu_trace_ functions of gpu.c; what they print is a list of lines.
-- Backend: the interface of sw/sim/model.h as the record `Model`.
-- Runtime: gpu.c. Types has its structures; Range its arithmetic on words; Alloc the heap
--   (gpu_mem_alloc, gpu_mem_free, allocation_contains); Transfer the copies and kernel loads; Device
--   the open, the close and the configuration; Launch the checks and the staging of a launch;
--   Execute gpu_launch and gpu_wait; Init memu_runtime_init and memu_runtime_fini.
-- Host: the main function of sw/launcher.cpp; the application is a parameter.
-- Iss: iss.cpp. State has its globals, Decode the fields of an instruction, Alu the
--   arithmetic of step_core, Step step_core itself and gpu_iss_step, Grid gpu_iss_launch, Driver
--   the software branches of sw/sim/model.cpp, which are a value of `Model`.
-- Cycle: the cycle model of sw/sim/hm/difftest.cpp, which the hardware is compared with. State has
--   its structures, Mask the masks and the choice in turn, Transfer the memory, Lane what a lane
--   computes, Core accept_cta and step_core, Kmu the parts of cycle_diff_step, Pack the packed
--   state, Names cycle_diff_field_name, and Step the hooks. std::sort and std::unique are arguments.
--   Agree sets the cycle model beside iss.cpp: a lane of a core stands for a lane there.
-- Rtl: the hardware model of sw/sim/hm. Top is what Verilator generates from the hardware, as a
--   parameter: its inputs, and a function from inputs and state to the calls of one evaluation. Dpi
--   has dpi.cpp, which answers those calls, and passes on the calls of the trace functions of gpu.c;
--   Harness rtl.cpp, with the statics of both and the cycle model in one record; Driver the hardware
--   branches of sw/sim/model.cpp, which are a value of `Model` for every design.
-- Kconfig: tools/kconfig, which writes the configuration. Expr has the dependency expressions of
--   expr.c: expr_eliminate_yn, expr_contains_symbol, expr_depends_symbol and expr_calc_value, the
--   last on given values of the symbols and given outcomes of comparing two of them.
-- Tests: runs at fixed inputs, and the theorems at concrete inputs.
--
-- How the code is read. A struct is a record and a call returns the new state beside its result.
-- An `Option` around the whole is `none` where the process aborts by a failing `Assert`, or where C
-- leaves the access undefined: a copy outside the memory, a division by zero, a NULL dereference.
-- Words of 32 and 64 bits are natural numbers with the wrap written out. Calls of the C library
-- (calloc, malloc, strtoull, the file functions) are arguments that say how they end. A kernel
-- handle is the immutable struct that it points to, so a handle that outlives its device is not
-- distinguished from a live one. The fields for a differential build are always present and stay
-- NULL in other builds. A write to a register index of 16 or more, which both simulators refuse
-- beforehand, goes where the layout of the struct puts it: into the words after `gpr` of a lane in
-- iss.cpp, and into the registers of the next lane in difftest.cpp. Stored words are little-endian,
-- as on the hosts that are supported.
--
-- Fuel. The address search of gpu_mem_alloc runs on 65 rounds, one for each slot and one more; a
-- round that moves the candidate leaves one block fewer above it, so these are enough. The scans and
-- the wait of the simulator are counted loops in the source and recur on their counts.
--
-- Not modelled: the waves of rtl.cpp, its printing and the end of the design in rtl_exit (a model
-- that is destroyed is a model that is no longer there); the hardware under hw; the kernels and
-- tests; the rest of tools/kconfig, and tools/fixdep. The class that Verilator
-- generates is a parameter without laws: what is proved holds for every design.
pub mod Prelude
pub mod Config
pub mod Memory
pub mod Trace
pub mod Backend
pub mod Iss
pub mod Cycle
pub mod Rtl
pub mod Kconfig
pub mod Runtime
pub mod Host
pub mod Tests
