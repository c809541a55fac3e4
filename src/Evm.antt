-- ===== src/Evm.antt =====
-- src/evm.cpp: the interpreter with a switch and one price for every operation.
pub mod Ops
pub mod Decode
pub mod Run
pub mod Effects
pub mod Ends
pub mod Agree
pub mod Tracing
pub mod Jumps
pub mod Bounds
