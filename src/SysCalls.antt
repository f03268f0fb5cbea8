-- ===== src/SysCalls.antt =====
-- The dispatch of system calls: keow-kernel/KeowKernel/SysCalls.cpp.
pub mod Numbers
pub mod Names
pub mod Table
pub mod Dispatch
pub mod Refusals
mod Tests
