-- ===== src/Evm/Run.antt =====
-- execute_message of src/evm.cpp.
use metaru.Common.{ℕ, ◌+◌, Option, none, some, Bool, ◌==◌, leb, ltb, if◌then◌else◌, List}
use metaru.Common.Int.{pos, ◌-ℤ◌, ltb_ℤ}
use metaru.Frame.{Frame, halt, pure}
use metaru.Instr.{Instr}
use metaru.Loop.{Run, Event, Progress, trace, execute}
use metaru.Evm.Ops.{
  Op, op_stop, op_add, op_mul, op_sub, op_div, op_mod, op_lt, op_gt, op_eq, op_iszero, op_and,
  op_or, op_xor, op_not, op_pop, op_push, op_push0, op_dup, op_swap, op_jump, op_jumpi, op_pc,
  op_msize, op_gas, op_mload, op_mstore, op_mstore8, op_stub,
}
use metaru.Evm.Decode.{decode}

-- The branch of the switch. The two storage operations are among its stubs.
unfoldable pub perform : Instr → Op
perform Instr.stop = op_stop
perform Instr.add = op_add
perform Instr.mul = op_mul
perform Instr.sub = op_sub
perform Instr.div = op_div
perform Instr.modulo = op_mod
perform Instr.lt = op_lt
perform Instr.gt = op_gt
perform Instr.eq = op_eq
perform Instr.iszero = op_iszero
perform Instr.and = op_and
perform Instr.or = op_or
perform Instr.xor = op_xor
perform Instr.not = op_not
perform Instr.pop = op_pop
perform Instr.mload = op_mload
perform Instr.mstore = op_mstore
perform Instr.mstore8 = op_mstore8
perform Instr.sload = op_stub
perform Instr.sstore = op_stub
perform Instr.jump = op_jump
perform Instr.jumpi = op_jumpi
perform Instr.pc = op_pc
perform Instr.msize = op_msize
perform Instr.gas = op_gas
perform Instr.jumpdest = pure 1
perform Instr.push0 = op_push0
perform (Instr.push n) = op_push n
perform (Instr.dup n) = op_dup n
perform (Instr.swap n) = op_swap n
perform Instr.stub = op_stub
perform Instr.invalid = op_stub

-- STOP is free.
unfoldable pub cost_of : ℕ → ℕ
cost_of opcode = if opcode == 0x00 then 0 else 3

-- pc_increment > 0
abbrev pub advance : ℕ → Frame → Frame
advance increment f = if ltb 0 increment then record f { pc = f.pc + increment } else f

-- What follows the switch, by its increment of pc (`none` for -1).
unfoldable pub settle : Bool → ℕ → List Event → Option ℕ × Frame → Progress
settle traced cost events (none, f) =
    Progress.returned
      (record { frame = halt (if leb 1024 f.stack_size then 4 else 5) f; events = events })
settle traced cost events (some increment, f) =
    let paid = record f { gas_remaining = f.gas_remaining -ℤ pos cost } in
    if ltb_ℤ paid.gas_remaining (pos 0)
    then Progress.returned (record { frame = halt 1 paid; events = events })
    else Progress.next (record {
      frame = advance increment paid;
      events =
          trace traced
            (Event.post_execution paid
              (record { gas_cost = cost; halt_reason = 0; pc_increment = increment }))
            events;
    })

-- The body of the loop.
unfoldable pub round : Bool → Run → Progress
unfolding settle perform decode cost_of
round traced r =
    if ltb_ℤ r.frame.gas_remaining (pos 3)
    then Progress.returned (record r { frame = halt 1 r.frame })
    else (let opcode = r.frame.context.code r.frame.pc in
        settle traced (cost_of opcode) (trace traced (Event.pre_execution r.frame) r.events)
          (perform (decode opcode) r.frame))

-- A null frame is out of the model; `traced` is has_tracer.
unfoldable pub execute_message : Bool → Frame → Option Run
unfolding round execute
execute_message traced = execute (round traced)
