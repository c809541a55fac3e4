-- ===== src/Optimized/Run.antt =====
-- execute_message of src/evm_optimized.cpp, with its JUMP_TABLE.
use metaru.Common.{ℕ, Option, Bool, List, [], ◌∷◌, ◌++◌, get_or}
use metaru.Frame.{Frame}
use metaru.Instr.{Instr}
use metaru.Loop.{Run, Progress, execute}
use metaru.Jumptable.Ops.{Handler}
use metaru.Jumptable.Table.{stubs, arithmetic_rows, flow_rows, wide_rows}
use metaru.Jumptable.Run.{round_of}
use metaru.Optimized.Ops.{
  op_stop, op_add, op_mul, op_sub, op_div, op_mod, op_lt, op_gt, op_eq, op_iszero, op_and, op_or,
  op_xor, op_not, op_pop, op_push_n, op_push0, op_dup_n, op_swap_n, op_jump, op_jumpi, op_pc,
  op_gas, op_mload, op_mstore, op_mstore8, op_jumpdest, op_invalid, op_stub,
}
use metaru.Optimized.Storage.{op_sload, op_sstore}

-- SLOAD and SSTORE stand at 0x44 and 0x45.
unfoldable pub jump_table : List Instr
jump_table =
    arithmetic_rows
    ++ (stubs 36 ++ ((Instr.sload ∷ Instr.sstore ∷ []) ++ (stubs 10 ++ (flow_rows ++ wide_rows))))

unfoldable pub decode : ℕ → Instr
unfolding jump_table
decode opcode = get_or jump_table opcode Instr.invalid

-- The handler that an entry of the table names. The table has no entry for MSIZE.
unfoldable pub perform : Instr → Handler
perform Instr.stop = op_stop
perform Instr.add = op_add
perform Instr.mul = op_mul
perform Instr.sub = op_sub
perform Instr.div = op_div
perform Instr.modulo = op_mod
perform Instr.lt = op_lt
perform Instr.gt = op_gt
perform Instr.eq = op_eq
perform Instr.iszero = op_iszero
perform Instr.and = op_and
perform Instr.or = op_or
perform Instr.xor = op_xor
perform Instr.not = op_not
perform Instr.pop = op_pop
perform Instr.mload = op_mload
perform Instr.mstore = op_mstore
perform Instr.mstore8 = op_mstore8
perform Instr.sload = op_sload
perform Instr.sstore = op_sstore
perform Instr.jump = op_jump
perform Instr.jumpi = op_jumpi
perform Instr.pc = op_pc
perform Instr.msize = op_stub
perform Instr.gas = op_gas
perform Instr.jumpdest = op_jumpdest
perform Instr.push0 = op_push0
perform (Instr.push n) = op_push_n n
perform (Instr.dup n) = op_dup_n n
perform (Instr.swap n) = op_swap_n n
perform Instr.stub = op_stub
perform Instr.invalid = op_invalid

unfoldable pub dispatch : ℕ → Handler
unfolding perform decode
dispatch opcode = perform (decode opcode)

-- The body of the loop has the text of src/evm_jumptable.cpp, over this table.
unfoldable pub round : Bool → Run → Progress
unfolding round_of dispatch
round = round_of dispatch

-- A null frame is out of the model; `traced` is has_tracer.
unfoldable pub execute_message : Bool → Frame → Option Run
unfolding round execute
execute_message traced = execute (round traced)
