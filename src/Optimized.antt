-- ===== src/Optimized.antt =====
-- src/evm_optimized.cpp: the table-driven interpreter that works on stack items in place and has
-- handlers for storage.
pub mod Ops
pub mod Storage
pub mod Run
pub mod Agree
pub mod Effects
pub mod Dispatch
pub mod Equiv
pub mod Ends
pub mod Tracing
pub mod Bounds
