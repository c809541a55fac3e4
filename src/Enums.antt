-- ===== src/Enums.antt =====
-- The enums of include/message_frame.h, whose numbers the shared frame holds.
pub mod Ends
use metaru.Common.{ℕ}

pub data MessageFrameState : Type 0 where
  not_started code_executing code_success code_suspended exceptional_halt revert : MessageFrameState
  completed_failed completed_success : MessageFrameState

pub data MessageFrameType : Type 0 where
  contract_creation message_call : MessageFrameType

pub data ExceptionalHaltReason : Type 0 where
  no_reason insufficient_gas invalid_operation invalid_jump_destination : ExceptionalHaltReason
  stack_overflow stack_underflow illegal_state_change out_of_bounds : ExceptionalHaltReason
  code_too_large invalid_code precompile_error too_many_stack_items : ExceptionalHaltReason
  insufficient_stack_items : ExceptionalHaltReason

abbrev pub state_number : MessageFrameState → ℕ
state_number MessageFrameState.not_started = 0
state_number MessageFrameState.code_executing = 1
state_number MessageFrameState.code_success = 2
state_number MessageFrameState.code_suspended = 3
state_number MessageFrameState.exceptional_halt = 4
state_number MessageFrameState.revert = 5
state_number MessageFrameState.completed_failed = 6
state_number MessageFrameState.completed_success = 7

abbrev pub type_number : MessageFrameType → ℕ
type_number MessageFrameType.contract_creation = 0
type_number MessageFrameType.message_call = 1

abbrev pub reason_number : ExceptionalHaltReason → ℕ
reason_number ExceptionalHaltReason.no_reason = 0
reason_number ExceptionalHaltReason.insufficient_gas = 1
reason_number ExceptionalHaltReason.invalid_operation = 2
reason_number ExceptionalHaltReason.invalid_jump_destination = 3
reason_number ExceptionalHaltReason.stack_overflow = 4
reason_number ExceptionalHaltReason.stack_underflow = 5
reason_number ExceptionalHaltReason.illegal_state_change = 6
reason_number ExceptionalHaltReason.out_of_bounds = 7
reason_number ExceptionalHaltReason.code_too_large = 8
reason_number ExceptionalHaltReason.invalid_code = 9
reason_number ExceptionalHaltReason.precompile_error = 10
reason_number ExceptionalHaltReason.too_many_stack_items = 11
reason_number ExceptionalHaltReason.insufficient_stack_items = 12
