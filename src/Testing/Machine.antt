-- ===== src/Testing/Machine.antt =====
-- The properties of the interpreters at concrete frames.
use metaru.Testing.{context_of, frame_of, adder, storer, two_items}
use metaru.Evm.Jumps.{destination, op_jump-agree, op_jump-truncated}
use metaru.Common.{
  ℕ, [], ◌∷◌, u32, ◌⊎◌, ◌≢◌, ◌≤◌, ◌<◌, none, ◌≡◌, ◌-◌, refl, some, true, false, All, arith, set_at,
  if◌then◌else◌, ◌==◌,
}
use metaru.Word.{IsWord, u64_to_word, word_to_u64}
use metaru.Word.Laws.{u64_to_word-IsWord}
use metaru.Frame.{exceptional_halt, Frame}
use metaru.Frame.Items.{items, items_below}
use metaru.Frame.Stack.{stack_push}
use metaru.Instr
use metaru.Loop.{Run}
use metaru.Loop.Sound.{IsEnded}
use metaru.Loop.Tracing.{final_frame}
use metaru.Evm
use metaru.Evm.Agree.{unpriced, perform-eq-unpriced}
use metaru.Evm.Ends.{evm_ends}
use metaru.Jumptable
use metaru.Jumptable.Ops.{result}
use metaru.Jumptable.Items.{left_on_stack}
use metaru.Jumptable.Values.{effect, perform_lem}
use metaru.Jumptable.Memory.{op_mload-op_mstore}
use metaru.Jumptable.Limits.{IsWithin}
use metaru.Interpreters.{execute_message-IsWithin, execute_message_untraced}
use metaru.Enums.{ExceptionalHaltReason}
use metaru.Enums.Ends.{execute_message-IsTyped, IsTyped}
use metaru.Mock
use metaru.Mock.Ends.{mock_ends}
use metaru.Jumptable.Ends.{jumptable_ends}
use metaru.Optimized
use metaru.Optimized.Equiv.{optimized-eq-jumptable, SameRun, IsStorageFree}
use metaru.Optimized.Ends.{optimized_ends}

is_storage_free : IsStorageFree (context_of adder)
is_storage_free pc h = ground arith

optimized-eq-jumptable_example :
    (a b : Run) × (Jumptable.Run.execute_message true (frame_of adder 100) ≡ some a)
    × (Optimized.Run.execute_message true (frame_of adder 100) ≡ some b)
    × SameRun a b
optimized-eq-jumptable_example =
    optimized-eq-jumptable true (frame_of adder 100) (omega arith) is_storage_free

two_items-IsWord : All IsWord (items two_items)
unfolding items_below
two_items-IsWord = (u64_to_word-IsWord 3, (u64_to_word-IsWord 5, tt))

perform_lem_example :
    left_on_stack (Jumptable.Run.perform Instr.sub two_items) ≡ effect Instr.sub (items two_items)
perform_lem_example = perform_lem Instr.sub two_items tt (omega arith) two_items-IsWord

perform-eq-unpriced_example :
    Evm.Run.perform Instr.div two_items ≡ unpriced (Jumptable.Run.perform Instr.div two_items)
perform-eq-unpriced_example = perform-eq-unpriced Instr.div two_items tt

jumptable_ends_example :
    (out : Run) × (Jumptable.Run.execute_message true (frame_of adder 100) ≡ some out)
    × IsEnded (frame_of adder 100) out
jumptable_ends_example = jumptable_ends true (frame_of adder 100) (omega arith)

optimized_ends_example :
    (out : Run) × (Optimized.Run.execute_message true (frame_of storer 100000) ≡ some out)
    × IsEnded (frame_of storer 100000) out
optimized_ends_example = optimized_ends true (frame_of storer 100000) (omega arith)

evm_ends_example :
    (out : Run) × (Evm.Run.execute_message true (frame_of adder 100) ≡ some out)
    × IsEnded (frame_of adder 100) out
evm_ends_example = evm_ends true (frame_of adder 100) (omega arith)

abbrev after_store : Frame
after_store = (Jumptable.Ops.op_mstore two_items).1

abbrev key_pushed : Frame
key_pushed = (stack_push (u64_to_word 3) after_store).1

stores : Jumptable.Ops.op_mstore two_items ≡ (some (result 1 3), after_store)
unfolding Jumptable.Ops.op_mstore word_to_u64 u64_to_word
stores = refl

pushes : stack_push (u64_to_word 3) after_store ≡ (some tt, key_pushed)
unfolding Jumptable.Ops.op_mstore word_to_u64 u64_to_word stack_push
pushes = refl

op_mload-op_mstore_example : Jumptable.Ops.op_mload key_pushed ≡ (
  some (result 1 3),
  record key_pushed { stack = set_at key_pushed.stack (key_pushed.stack_size - 1) (u64_to_word 5) },
)
op_mload-op_mstore_example =
    op_mload-op_mstore two_items after_store key_pushed (result 1 3) (omega arith)
      (u64_to_word-IsWord 5).0 stores pushes

-- A JUMP to the destination, in code with a JUMPDEST at 0.
abbrev jump_to : ℕ → Frame
jump_to dest = record (frame_of (0x5b ∷ 0x56 ∷ []) 100) {
  stack_size = 1;
  stack = λ _. u64_to_word dest;
}

jump_to-destination : destination (jump_to 0) ≡ 0
unfolding word_to_u64 u64_to_word
jump_to-destination = refl

jump_to-destination_long : destination (jump_to 4294967296) ≡ 4294967296
unfolding word_to_u64 u64_to_word
jump_to-destination_long = refl

op_jump-agree_example :
    ((Jumptable.Ops.op_jump (jump_to 0) ≡ (some (result 0 8), (Evm.Ops.op_jump (jump_to 0)).1))
      × ((Evm.Ops.op_jump (jump_to 0)).0 ≡ some 0)
      × ((Evm.Ops.op_jump (jump_to 0)).1.pc ≡ destination (jump_to 0))
      × (destination (jump_to 0) < 2)
      × ((jump_to 0).context.code (destination (jump_to 0)) ≡ 0x5b))
    ⊎ (((Jumptable.Ops.op_jump (jump_to 0)).0 ≡ none)
        × ((Jumptable.Ops.op_jump (jump_to 0)).1.state ≡ exceptional_halt)
        × ((Evm.Ops.op_jump (jump_to 0)).1.state ≡ exceptional_halt)
        × ((2 ≤ destination (jump_to 0))
            ⊎ ((jump_to 0).context.code (destination (jump_to 0)) ≢ 0x5b)))
op_jump-agree_example = op_jump-agree (jump_to 0) (omega arith) (omega (arith, jump_to-destination))

long_lands : (jump_to 4294967296).context.code (u32 (destination (jump_to 4294967296))) ≡ 0x5b
unfolding word_to_u64 u64_to_word
long_lands = refl

op_jump-truncated_example :
    ((Jumptable.Ops.op_jump (jump_to 4294967296)).0 ≡ some (result 0 8))
    × ((Jumptable.Ops.op_jump (jump_to 4294967296)).1.pc ≡ u32 (destination (jump_to 4294967296)))
    × ((Jumptable.Ops.op_jump (jump_to 4294967296)).1.state ≡ 0)
    × ((Evm.Ops.op_jump (jump_to 4294967296)).1.state ≡ exceptional_halt)
op_jump-truncated_example =
    op_jump-truncated (jump_to 4294967296) (omega arith) (omega (arith, jump_to-destination_long))
      (omega (arith, jump_to-destination_long)) long_lands

execute_message-IsWithin_example :
    ((out : Run) × (Evm.Run.execute_message true (frame_of adder 100) ≡ some out)
      × IsWithin (frame_of adder 100) out)
    × ((out : Run) × (Jumptable.Run.execute_message true (frame_of adder 100) ≡ some out)
        × IsWithin (frame_of adder 100) out)
    × ((out : Run) × (Optimized.Run.execute_message true (frame_of adder 100) ≡ some out)
        × IsWithin (frame_of adder 100) out)
execute_message-IsWithin_example = execute_message-IsWithin true (frame_of adder 100) (omega arith)

execute_message_untraced_example :
    (final_frame (Evm.Run.execute_message true (frame_of adder 100))
      ≡ final_frame (Evm.Run.execute_message false (frame_of adder 100)))
    × (final_frame (Jumptable.Run.execute_message true (frame_of adder 100))
        ≡ final_frame (Jumptable.Run.execute_message false (frame_of adder 100)))
    × (final_frame (Optimized.Run.execute_message true (frame_of adder 100))
        ≡ final_frame (Optimized.Run.execute_message false (frame_of adder 100)))
execute_message_untraced_example = execute_message_untraced (frame_of adder 100)

execute_message-IsTyped_example :
    ((out : Run) × (Evm.Run.execute_message true (frame_of storer 100) ≡ some out)
      × IsTyped out.frame)
    × ((out : Run) × (Jumptable.Run.execute_message true (frame_of storer 100) ≡ some out)
        × IsTyped out.frame)
    × ((out : Run) × (Optimized.Run.execute_message true (frame_of storer 100) ≡ some out)
        × IsTyped out.frame)
execute_message-IsTyped_example =
    execute_message-IsTyped true (frame_of storer 100) (omega arith)
      (ExceptionalHaltReason.no_reason, refl)

mock_ends_example :
    (out : Run) × (Mock.mock_execute_message true (frame_of adder 100) ≡ some out)
    × IsEnded (frame_of adder 100) out
mock_ends_example = mock_ends true (frame_of adder 100) (omega arith)

-- Two bytes on the stack.
abbrev two_bytes : Frame
two_bytes = record (frame_of adder 100) {
  stack_size = 2;
  stack = λ i. if i == 0 then Mock.byte_word 5 else Mock.byte_word 3;
}
