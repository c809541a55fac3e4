-- ===== src/Riscv/Run.antt =====
-- execute_message of zisk_demo/block_execution_demo_riscv.cpp. The program's one call of it passes no
-- tracer, so the loop is without one.
use metaru.Common.{
  ℕ, zero, suc, ◌+◌, Option, none, some, Bool, true, false, ◌==◌, ◌&&◌, ltb, if◌then◌else◌,
}
use metaru.Common.Int.{pos, pos_part, ◌-ℤ◌, ltb_ℤ}
use metaru.Instr.{Instr}
use metaru.Loop.{signed_size}
use metaru.Jumptable.Ops.{OpResult}
use metaru.Optimized.Run.{decode}
use metaru.Riscv.{Machine, halt}
use metaru.Riscv.Ops.{
  Handler, op_stop, op_add, op_mul, op_sub, op_div, op_mod, op_lt, op_gt, op_eq, op_iszero, op_and,
  op_or, op_xor, op_not, op_pop, op_push_n, op_push0, op_dup_n, op_swap_n, op_jump, op_jumpi, op_pc,
  op_gas, op_mload, op_mstore, op_mstore8, op_jumpdest, op_invalid, op_stub,
}
use metaru.Riscv.Storage.{op_sload, op_sstore}

-- The handler that an entry of the table names. The table has no entry for MSIZE.
unfoldable pub perform : Instr → Handler
perform Instr.stop = op_stop
perform Instr.add = op_add
perform Instr.mul = op_mul
perform Instr.sub = op_sub
perform Instr.div = op_div
perform Instr.modulo = op_mod
perform Instr.lt = op_lt
perform Instr.gt = op_gt
perform Instr.eq = op_eq
perform Instr.iszero = op_iszero
perform Instr.and = op_and
perform Instr.or = op_or
perform Instr.xor = op_xor
perform Instr.not = op_not
perform Instr.pop = op_pop
perform Instr.mload = op_mload
perform Instr.mstore = op_mstore
perform Instr.mstore8 = op_mstore8
perform Instr.sload = op_sload
perform Instr.sstore = op_sstore
perform Instr.jump = op_jump
perform Instr.jumpi = op_jumpi
perform Instr.pc = op_pc
perform Instr.msize = op_stub
perform Instr.gas = op_gas
perform Instr.jumpdest = op_jumpdest
perform Instr.push0 = op_push0
perform (Instr.push n) = op_push_n n
perform (Instr.dup n) = op_dup_n n
perform (Instr.swap n) = op_swap_n n
perform Instr.stub = op_stub
perform Instr.invalid = op_invalid

-- JUMP_TABLE[opcode](&ctx), with the table of src/evm_optimized.cpp.
unfoldable pub dispatch : ℕ → Handler
unfolding perform
dispatch opcode = perform (decode opcode)

-- How the body of the loop ends: at its end, or by a return.
pub data Turn : Type 0 where
  next : Machine → Turn
  returned : Machine → Turn

-- What follows the call of the handler, by what it returned (`none` for {-1, 0}).
unfoldable pub settle : Option OpResult × Machine → Turn
settle (none, m) = Turn.returned (if m.state == 1 then halt 4 m else m)
settle (some result, m) =
    if ltb_ℤ m.gas_remaining (pos result.gas_cost)
    then Turn.returned (halt 1 m)
    else (let paid = record m { gas_remaining = m.gas_remaining -ℤ pos result.gas_cost } in
        Turn.next (
          if ltb 0 result.pc_increment
          then record paid { pc = paid.pc + result.pc_increment }
          else paid))

unfoldable pub round : Machine → Turn
unfolding dispatch settle
round m =
    if ltb_ℤ m.gas_remaining (pos 3)
    then Turn.returned (halt 1 m)
    else settle (dispatch (m.bytes (m.code_ptr + m.pc)) m)

-- pc < static_cast<int32_t>(code_size) && state == CODE_EXECUTING
abbrev pub running : Machine → Bool
running m = ltb m.pc (signed_size m.code_size) && m.state == 1

-- A loop that leaves by its test with the state unchanged has succeeded.
abbrev pub finish : Machine → Machine
finish m = if m.state == 1 then record m { state = 7 } else m

-- The loop on fuel; `none` means that the fuel ran out.
unfoldable pub loop : ℕ → Machine → Option Machine
unfolding round
loop zero m = none
loop (suc fuel) m = elim (running m) [
  | false ↦ some (finish m)
  | true ↦ elim (round m) [ Turn.next m' ↦ loop fuel m' | Turn.returned m' ↦ some m' ]
]

unfoldable pub execute_message : Machine → Option Machine
unfolding loop
execute_message m = loop (pos_part m.gas_remaining + 2) (record m { state = 1 })
