-- ===== src/Mock.antt =====
-- src/mock_evm_with_tracer.cpp: three operations in a loop, to measure a tracer's callbacks.
pub mod Ends
pub mod Agree
pub mod Tracing
use metaru.Common.{
  ℕ, zero, suc, ◌+◌, ◌-◌, Option, none, some, List, [], ◌∷◌, ◌++◌, Bool, true, false, ◌==◌, ltb,
  leb, if◌then◌else◌, set_at, get_or, replicate, u8,
}
use metaru.Common.Int.{ℤ, pos, pos_part, ltb_ℤ, ◌-ℤ◌}
use metaru.Word.{Word}
use metaru.Frame.{Frame, Context, halt, completed_success}
use metaru.Loop.{Run, Event, Progress, OperationResult, trace, signed_size}

-- item[31]
abbrev pub last_byte : Word → ℕ
last_byte w = get_or w 31 0

-- memset(item, 0, 32); item[31] = b
abbrev pub byte_word : ℕ → Word
byte_word b = replicate 31 0 ++ b ∷ []

-- Case ADD: the sum of the last bytes, in uint8_t, is written over the lower item. The result is the
-- increment of pc, or `none` for a return.
unfoldable pub mock_add : Frame → Option ℕ × Frame
mock_add f =
    if ltb f.stack_size 2
    then (none, halt 5 f)
    else (let item0 = f.stack (f.stack_size - 2) in
        let item1 = f.stack (f.stack_size - 1) in
        let sum = u8 (last_byte item0 + last_byte item1) in
        (
          some 1,
          record f {
            stack = set_at f.stack (f.stack_size - 2) (byte_word sum);
            stack_size = f.stack_size - 1;
          },
        ))

-- Case PUSH1.
unfoldable pub mock_push1 : Frame → Option ℕ × Frame
mock_push1 f =
    if leb (signed_size f.context.code_size) (f.pc + 1)
    then (none, halt 7 f)
    else if leb 1024 f.stack_size
    then (none, halt 4 f)
    else (
      some 2,
      record f {
        stack = set_at f.stack f.stack_size (byte_word (f.context.code (f.pc + 1)));
        stack_size = f.stack_size + 1;
      },
    )

-- The cases of the switch but STOP.
unfoldable pub mock_perform : ℕ → Frame → Option ℕ × Frame
unfolding mock_add mock_push1
mock_perform opcode f =
    if opcode == 0x01 then mock_add f else if opcode == 0x60 then mock_push1 f else (none, halt 2 f)

abbrev outcome : ℕ → ℕ → OperationResult
outcome cost increment = record { gas_cost = cost; halt_reason = 0; pc_increment = increment }

-- What follows the switch.
unfoldable pub mock_settle : Bool → List Event → Option ℕ × Frame → Progress
mock_settle traced events (none, f) = Progress.returned (record { frame = f; events = events })
mock_settle traced events (some increment, f) =
    let paid = record f { gas_remaining = f.gas_remaining -ℤ pos 3 } in
    Progress.next (record {
      frame = record paid { pc = f.pc + increment };
      events = trace traced (Event.post_execution paid (outcome 3 increment)) events;
    })

-- Case STOP, which returns.
unfoldable pub mock_stop : Bool → List Event → Frame → Progress
mock_stop traced events f =
    let stopped = record f { state = completed_success } in
    Progress.returned (record {
      frame = stopped;
      events = trace traced (Event.post_execution stopped (outcome 0 1)) events;
    })

-- The body of the loop.
unfoldable pub mock_round : Bool → Run → Progress
unfolding mock_perform mock_settle mock_stop
mock_round traced r =
    if ltb_ℤ r.frame.gas_remaining (pos 3)
    then Progress.returned (record r { frame = halt 1 r.frame })
    else (let opcode = r.frame.context.code r.frame.pc in
        let events = trace traced (Event.pre_execution r.frame) r.events in
        if opcode == 0x00
        then mock_stop traced events r.frame
        else mock_settle traced events (mock_perform opcode r.frame))

-- The loop tests pc alone; behind it the state is success.
unfoldable pub mock_loop : Bool → ℕ → Run → Option Run
unfolding mock_round
mock_loop traced zero r = none
mock_loop traced (suc fuel) r = elim (ltb r.frame.pc (signed_size r.frame.context.code_size)) [
  | false ↦ some (record r { frame = record (r.frame) { state = completed_success } })
  | true ↦ elim (mock_round traced r) [
    | Progress.next r' ↦ mock_loop traced fuel r'
    | Progress.returned r' ↦ some r'
  ]
]

-- Each round that goes on costs 3 gas. The state is not set before the loop.
unfoldable pub mock_execute_message : Bool → Frame → Option Run
unfolding mock_loop
mock_execute_message traced f =
    mock_loop traced (pos_part f.gas_remaining + 1) (record { frame = f; events = [] })
