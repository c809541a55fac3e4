-- ===== src/Native.antt =====
-- include/native_message_frame.h: the operations of NativeMessageFrame whose bodies are in the header.
pub mod Laws
use metaru.Common.{ℕ, ◌+◌, ◌/◌, Option, none, some, List, [], Bool, length, if◌then◌else◌}
use metaru.Common.Int.{ℤ, pos, ◌+ℤ◌, ◌-ℤ◌, ltb_ℤ}
use metaru.Enums.{MessageFrameState, MessageFrameType, ExceptionalHaltReason}

-- The fields that those operations read or write. The amounts of gas are int64_t; here they have no
-- bound.
pub record NativeMessageFrame : Type 0 where
  pub pc : ℤ
  pub section : ℤ
  pub gas_remaining : ℤ
  pub gas_refund : ℤ
  pub stack : List (List ℕ)
  pub max_stack_size : ℕ
  pub memory : List ℕ
  pub state : MessageFrameState
  pub type : MessageFrameType
  pub is_static : Bool
  pub depth : ℕ
  pub output_data : List ℕ
  pub return_data : List ℕ
  pub revert_reason : Option (List ℕ)
  pub halt_reason : Option ExceptionalHaltReason

abbrev pub set_pc : ℤ → NativeMessageFrame → NativeMessageFrame
set_pc pc f = record f { pc = pc }

abbrev pub set_section : ℤ → NativeMessageFrame → NativeMessageFrame
set_section section f = record f { section = section }

abbrev pub set_gas_remaining : ℤ → NativeMessageFrame → NativeMessageFrame
set_gas_remaining amount f = record f { gas_remaining = amount }

-- The answer is the gas that remains.
unfoldable pub decrement_remaining_gas : ℤ → NativeMessageFrame → ℤ × NativeMessageFrame
decrement_remaining_gas amount f =
    let remaining = f.gas_remaining -ℤ amount in
    let paid = record f { gas_remaining = remaining } in
    (
      remaining,
      (if ltb_ℤ remaining (pos 0)
          then record paid { halt_reason = some ExceptionalHaltReason.insufficient_gas }
          else paid),
    )

unfoldable pub increment_remaining_gas : ℤ → NativeMessageFrame → NativeMessageFrame
increment_remaining_gas amount f = record f { gas_remaining = f.gas_remaining +ℤ amount }

abbrev pub clear_gas_remaining : NativeMessageFrame → NativeMessageFrame
clear_gas_remaining f = record f { gas_remaining = pos 0 }

unfoldable pub increment_gas_refund : ℤ → NativeMessageFrame → NativeMessageFrame
increment_gas_refund amount f = record f { gas_refund = f.gas_refund +ℤ amount }

abbrev pub stack_size : NativeMessageFrame → ℕ
stack_size f = length f.stack

abbrev pub memory_byte_size : NativeMessageFrame → ℕ
memory_byte_size f = length f.memory

unfoldable pub memory_word_size : NativeMessageFrame → ℕ
memory_word_size f = (length f.memory + 31) / 32

abbrev pub set_state : MessageFrameState → NativeMessageFrame → NativeMessageFrame
set_state state f = record f { state = state }

abbrev pub set_output_data : List ℕ → NativeMessageFrame → NativeMessageFrame
set_output_data output f = record f { output_data = output }

abbrev pub clear_output_data : NativeMessageFrame → NativeMessageFrame
clear_output_data f = record f { output_data = [] }

abbrev pub set_return_data : List ℕ → NativeMessageFrame → NativeMessageFrame
set_return_data bytes f = record f { return_data = bytes }

abbrev pub clear_return_data : NativeMessageFrame → NativeMessageFrame
clear_return_data f = record f { return_data = [] }

abbrev pub set_exceptional_halt_reason :
    Option ExceptionalHaltReason → NativeMessageFrame → NativeMessageFrame
set_exceptional_halt_reason reason f = record f { halt_reason = reason }

abbrev pub set_revert_reason : List ℕ → NativeMessageFrame → NativeMessageFrame
set_revert_reason reason f = record f { revert_reason = some reason }
