-- ===== src/Instr.antt =====
-- The operations that the interpreters dispatch to: one constructor for each handler. How a byte
-- of code selects one is each interpreter's own (Evm.Decode, Jumptable.Table, Optimized.Table).
use metaru.Common.{ℕ}

pub data Instr : Type 0 where
  stop add mul sub div modulo lt gt eq iszero and or xor not : Instr
  pop mload mstore mstore8 sload sstore jump jumpi pc msize gas jumpdest push0 : Instr
  push dup swap : ℕ → Instr
  stub invalid : Instr
