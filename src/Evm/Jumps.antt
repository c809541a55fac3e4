-- ===== src/Evm/Jumps.antt =====
-- JUMP of src/evm.cpp against that of src/evm_jumptable.cpp.
use metaru.Common.{ℕ, ◌-◌, ◌^◌, ◌≤◌, ◌<◌, ◌≡◌, ◌≢◌, ◌⊎◌, none, some, arith, u32}
use metaru.Word.{word_to_u64}
use metaru.Frame.{Frame, exceptional_halt}
use metaru.Evm.Ops
use metaru.Jumptable.Ops as Table
use metaru.Jumptable.Ops.{OpResult, result}

-- The destination on the stack.
abbrev pub destination : Frame → ℕ
destination f = word_to_u64 (f.stack (f.stack_size - 1))

-- To a destination below 2 ^ 32, and with an item on the stack, both interpreters jump, with the same
-- frame, and pc at a JUMPDEST of the code; or both halt, and the code has none there.
pub op_jump-agree :
    (f : Frame)
    → 0 < f.stack_size
    → destination f < 2 ^ 32
    → ((Table.op_jump f ≡ (some (result 0 8), (Ops.op_jump f).1))
        × ((Ops.op_jump f).0 ≡ some 0)
        × ((Ops.op_jump f).1.pc ≡ destination f)
        × (destination f < f.context.code_size)
        × (f.context.code (destination f) ≡ 0x5b))
      ⊎ (((Table.op_jump f).0 ≡ none)
          × ((Table.op_jump f).1.state ≡ exceptional_halt)
          × ((Ops.op_jump f).1.state ≡ exceptional_halt)
          × ((f.context.code_size ≤ destination f) ⊎ (f.context.code (destination f) ≢ 0x5b)))
unfolding Ops.op_jump Table.op_jump
op_jump-agree f h small = ground arith

-- To a destination of 33 bits and more, whose low 32 bits are a JUMPDEST of the code, the jump table
-- interpreter jumps by the low bits, where the switch interpreter halts.
pub op_jump-truncated :
    (f : Frame)
    → 0 < f.stack_size
    → f.context.code_size ≤ destination f
    → u32 (destination f) < f.context.code_size
    → f.context.code (u32 (destination f)) ≡ 0x5b
    → ((Table.op_jump f).0 ≡ some (result 0 8))
      × ((Table.op_jump f).1.pc ≡ u32 (destination f))
      × ((Table.op_jump f).1.state ≡ f.state)
      × ((Ops.op_jump f).1.state ≡ exceptional_halt)
unfolding Ops.op_jump Table.op_jump
op_jump-truncated f h beyond inside dest = ground arith
