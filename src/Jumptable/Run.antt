-- ===== src/Jumptable/Run.antt =====
-- execute_message of src/evm_jumptable.cpp.
use metaru.Common.{ℕ, Option, none, some, Bool, ◌==◌, if◌then◌else◌, List}
use metaru.Common.Int.{pos, ◌-ℤ◌, ltb_ℤ}
use metaru.Frame.{Frame, halt, code_executing}
use metaru.Instr.{Instr}
use metaru.Loop.{Run, Event, Progress, trace, execute}
use metaru.Evm.Run.{advance}
use metaru.Jumptable.Table.{decode}
use metaru.Jumptable.Ops.{
  OpResult, Handler, op_stop, op_add, op_mul, op_sub, op_div, op_mod, op_lt, op_gt, op_eq,
  op_iszero, op_and, op_or, op_xor, op_not, op_pop, op_push_n, op_push0, op_dup_n, op_swap_n,
  op_jump, op_jumpi, op_pc, op_gas, op_mload, op_mstore, op_mstore8, op_jumpdest, op_invalid,
  op_stub,
}

-- The handler that an entry of the table names. The table has no entry for MSIZE, SLOAD and SSTORE.
unfoldable pub perform : Instr → Handler
perform Instr.stop = op_stop
perform Instr.add = op_add
perform Instr.mul = op_mul
perform Instr.sub = op_sub
perform Instr.div = op_div
perform Instr.modulo = op_mod
perform Instr.lt = op_lt
perform Instr.gt = op_gt
perform Instr.eq = op_eq
perform Instr.iszero = op_iszero
perform Instr.and = op_and
perform Instr.or = op_or
perform Instr.xor = op_xor
perform Instr.not = op_not
perform Instr.pop = op_pop
perform Instr.mload = op_mload
perform Instr.mstore = op_mstore
perform Instr.mstore8 = op_mstore8
perform Instr.sload = op_stub
perform Instr.sstore = op_stub
perform Instr.jump = op_jump
perform Instr.jumpi = op_jumpi
perform Instr.pc = op_pc
perform Instr.msize = op_stub
perform Instr.gas = op_gas
perform Instr.jumpdest = op_jumpdest
perform Instr.push0 = op_push0
perform (Instr.push n) = op_push_n n
perform (Instr.dup n) = op_dup_n n
perform (Instr.swap n) = op_swap_n n
perform Instr.stub = op_stub
perform Instr.invalid = op_invalid

-- What follows the call of the handler, by what it returned (`none` for {-1, 0}).
unfoldable pub settle : Bool → List Event → Option OpResult × Frame → Progress
settle traced events (none, f) =
    Progress.returned
      (record { frame = if f.state == code_executing then halt 4 f else f; events = events })
settle traced events (some result, f) =
    if ltb_ℤ f.gas_remaining (pos result.gas_cost)
    then Progress.returned (record { frame = halt 1 f; events = events })
    else (let paid = record f { gas_remaining = f.gas_remaining -ℤ pos result.gas_cost } in
        Progress.next (record {
          frame = advance result.pc_increment paid;
          events =
              trace traced
                (Event.post_execution paid (record {
                  gas_cost = result.gas_cost;
                  halt_reason = 0;
                  pc_increment = result.pc_increment;
                }))
                events;
        }))

-- The body of the loop, over the lookup in the table.
unfoldable pub round_of : (ℕ → Handler) → Bool → Run → Progress
unfolding settle
round_of table traced r =
    if ltb_ℤ r.frame.gas_remaining (pos 3)
    then Progress.returned (record r { frame = halt 1 r.frame })
    else settle traced (trace traced (Event.pre_execution r.frame) r.events)
        (table (r.frame.context.code r.frame.pc) r.frame)

-- JUMP_TABLE[opcode](&ctx)
unfoldable pub dispatch : ℕ → Handler
unfolding perform decode
dispatch opcode = perform (decode opcode)

unfoldable pub round : Bool → Run → Progress
unfolding round_of dispatch
round = round_of dispatch

-- A null frame is out of the model; `traced` is has_tracer.
unfoldable pub execute_message : Bool → Frame → Option Run
unfolding round execute
execute_message traced = execute (round traced)
