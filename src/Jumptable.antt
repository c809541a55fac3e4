-- ===== src/Jumptable.antt =====
-- src/evm_jumptable.cpp: the interpreter with a table of handlers and a price for each.
pub mod Ops
pub mod Table
pub mod Run
pub mod Effects
pub mod Rounds
pub mod Ends
pub mod Items
pub mod Values
pub mod Words
pub mod Programs
pub mod Execution
pub mod Memory
pub mod Tracing
pub mod Bounds
pub mod Limits
