-- ===== src/Optimized/Agree.antt =====
-- The handlers that work in place against those of src/evm_jumptable.cpp that copy.
use metaru.Common.{ℕ, ◌≤◌, ◌≡◌, Option, none, some, arith}
use metaru.Word.{Word}
use metaru.Frame.{Frame}
use metaru.Frame.Stack.{stack_pop}
use metaru.Jumptable.Ops.{OpResult, Handler, take_jump, bad_dest}
use metaru.Jumptable
use metaru.Optimized.Ops.{stack_top, stack_alloc, stack_free}
use metaru.Optimized

-- Same result and frame; where both fail, the frames may differ in the size of the stack, since a
-- copying handler has popped its items by then.
abbrev pub forget_size : Frame → Frame
forget_size f = record f { stack_size = 0 }

abbrev pub Agrees : Option OpResult × Frame → Option OpResult × Frame → Type 0
Agrees (some a, f) (some b, g) = (a ≡ b) × (f ≡ g)
Agrees (none, f) (none, g) = forget_size f ≡ forget_size g
Agrees (some a, f) (none, g) = ⊥
Agrees (none, f) (some b, g) = ⊥

module _ (f : Frame) (fits : f.stack_size ≤ 1024) where
  pub binary-Agrees :
      (compute : Word → Word → Word) (cost : ℕ)
      → Agrees (Jumptable.Ops.binary compute cost f) (Optimized.Ops.binary compute cost f)
  unfolding Jumptable.Ops.binary Optimized.Ops.binary
  binary-Agrees compute cost = ground arith

  pub unary-Agrees :
      (compute : Word → Word) (cost : ℕ)
      → Agrees (Jumptable.Ops.unary compute cost f) (Optimized.Ops.unary compute cost f)
  unfolding Jumptable.Ops.unary Optimized.Ops.unary
  unary-Agrees compute cost = ground arith

  pub op_pop-Agrees : Agrees (Jumptable.Ops.op_pop f) (Optimized.Ops.op_pop f)
  unfolding Jumptable.Ops.op_pop Optimized.Ops.op_pop
  op_pop-Agrees = ground arith

  pub op_jump-Agrees : Agrees (Jumptable.Ops.op_jump f) (Optimized.Ops.op_jump f)
  unfolding Jumptable.Ops.take_jump stack_pop stack_top stack_free Jumptable.Ops.op_jump
      Optimized.Ops.op_jump
  op_jump-Agrees = ground arith

  pub op_jumpi-Agrees : Agrees (Jumptable.Ops.op_jumpi f) (Optimized.Ops.op_jumpi f)
  unfolding Jumptable.Ops.op_jumpi Optimized.Ops.op_jumpi
  op_jumpi-Agrees = ground arith

  pub op_dup_n-Agrees : (n : ℕ) → Agrees (Jumptable.Ops.op_dup_n n f) (Optimized.Ops.op_dup_n n f)
  unfolding Jumptable.Ops.op_dup_n Optimized.Ops.op_dup_n
  op_dup_n-Agrees n = ground arith

  pub op_swap_n-Agrees :
      (n : ℕ) → Agrees (Jumptable.Ops.op_swap_n n f) (Optimized.Ops.op_swap_n n f)
  unfolding Jumptable.Ops.op_swap_n Optimized.Ops.op_swap_n
  op_swap_n-Agrees n = ground arith

  pub op_pc-Agrees : Agrees (Jumptable.Ops.op_pc f) (Optimized.Ops.op_pc f)
  unfolding Jumptable.Ops.op_pc Optimized.Ops.op_pc Optimized.Ops.push_item
      Jumptable.Ops.push_number
  op_pc-Agrees = ground arith

  pub op_gas-Agrees : Agrees (Jumptable.Ops.op_gas f) (Optimized.Ops.op_gas f)
  unfolding Jumptable.Ops.op_gas Optimized.Ops.op_gas Optimized.Ops.push_item
      Jumptable.Ops.push_number
  op_gas-Agrees = ground arith

  pub op_push0-Agrees : Agrees (Jumptable.Ops.op_push0 f) (Optimized.Ops.op_push0 f)
  unfolding Jumptable.Ops.op_push0 Optimized.Ops.op_push0 Optimized.Ops.push_item
  op_push0-Agrees = ground arith

  pub op_push_n-Agrees :
      (n : ℕ) → Agrees (Jumptable.Ops.op_push_n n f) (Optimized.Ops.op_push_n n f)
  unfolding Jumptable.Ops.op_push_n Optimized.Ops.op_push_n Optimized.Ops.push_item
  op_push_n-Agrees n = ground arith

  pub op_mload-Agrees : Agrees (Jumptable.Ops.op_mload f) (Optimized.Ops.op_mload f)
  unfolding Jumptable.Ops.op_mload Optimized.Ops.op_mload
  op_mload-Agrees = ground arith

  pub op_mstore-Agrees : Agrees (Jumptable.Ops.op_mstore f) (Optimized.Ops.op_mstore f)
  unfolding Jumptable.Ops.op_mstore Optimized.Ops.op_mstore
  op_mstore-Agrees = ground arith

  pub op_mstore8-Agrees : Agrees (Jumptable.Ops.op_mstore8 f) (Optimized.Ops.op_mstore8 f)
  unfolding Jumptable.Ops.op_mstore8 Optimized.Ops.op_mstore8
  op_mstore8-Agrees = ground arith
